-- ===== src/Sync/Apply/Disjoint.antt =====
-- Normalization of a pulled change set: the three kinds of change name different records.
use remelon_db.Prelude.{
  ℕ, String, ◌≡◌, refl, sym, ap, ◌∙◌, Bool, true, false, not, ◌&&◌, ◌||◌, List, [], ◌∷◌, ◌==◌,
  eq_iff, arith, filter, is_some, some, subst, if◌then◌else◌,
}
use remelon_db.Prelude.Map.{Map, get, has}
use remelon_db.Prelude.Set.{member, unique, member-unique}
use remelon_db.Prelude.Result.{Result, ok, >>=-eq-ok, ok-injective}
use remelon_db.Wire.{DirtyRaw, TableChanges}
use remelon_db.Schema.Tables.{TableSchema}
use remelon_db.Sync.{SyncError}
use remelon_db.Sync.Apply.{Normal, decode_rows, normalize}

has-filter {ℓ} :
    {V : Type ℓ} (p : String → Bool) (id : String) (m : Map V)
    → has id (filter (λ e. p e.0) m) ≡ (has id m && p id)
unfolding get
has-filter p id [] = refl
has-filter p id ((k, v) ∷ m) = at (k == id) refl (p k) refl (has-filter p id m)
  where
    at :
        (same : Bool)
        → (k == id) ≡ same
        → (kept : Bool) → p k ≡ kept
        → has id (filter (λ e. p e.0) m) ≡ (has id m && p id)
        → has id (if kept then (k, v) ∷ filter (λ e. p e.0) m else filter (λ e. p e.0) m)
          ≡ (is_some (if same then some v else get id m) && p id)
    at true e kept f ih =
        let q : p id ≡ kept = ap p (sym ((eq_iff k id).0 e)) ∙ f in ground (arith, e, q, ih)
    at false e kept f ih = ground (arith, e, ih)

apart :
    (u c v d m : Bool)
    → u ≡ (v && not m)
    → c ≡ (d && (not m && not u))
    → ((c && u) ≡ false) × (((c || u) && m) ≡ false)
apart u c v d m e f = ground arith

-- No record is named twice, by two of the kinds.
abbrev pub IsDisjoint : String → Normal → Type 0
IsDisjoint id n =
    ((has id n.created && has id n.updated) ≡ false)
    × (((has id n.created || has id n.updated) && member id n.deleted) ≡ false)

-- After normalization a record that is named by the deleted ids is in neither of the other kinds,
-- and no record is both created and updated; the deleted ids are those of the change set.
pub normalize-IsDisjoint :
    (decode_base64 : String → Result SyncError (List ℕ)) (t : TableSchema)
    (changes : TableChanges DirtyRaw) (n : Normal) (id : String)
    → normalize decode_base64 t changes ≡ ok n
    → IsDisjoint id n × (member id n.deleted ≡ member id changes.deleted)
unfolding normalize
normalize-IsDisjoint decode_base64 t changes n id h =
    let deleted_ids = unique changes.deleted in
    let (all_updated, _, h₁) = >>=-eq-ok (decode_rows decode_base64 t changes.updated) _ h in
    let (all_created, _, h₂) = >>=-eq-ok (decode_rows decode_base64 t changes.created) _ h₁ in
    let updated = filter (λ e. not (member e.0 deleted_ids)) all_updated in
    let u = has-filter (λ k. not (member k deleted_ids)) id all_updated in
    let c = has-filter (λ k. not (member k deleted_ids) && not (has k updated)) id all_created in
    subst (λ n. IsDisjoint id n × (member id n.deleted ≡ member id changes.deleted))
      (ok-injective h₂)
      (
        apart (has id updated) _ (has id all_updated) (has id all_created) (member id deleted_ids) u
            c,
        member-unique id changes.deleted,
      )
