-- ===== src/Server/Engine/Apply/Sound.antt =====
-- What the storage refuses is in the rejections.
use remelon_db.Prelude.{
  String, ◌≡◌, refl, ap₂, Bool, not, List, [], ◌∷◌, arith, eq_refl, is_empty, All, inl, inr,
  Bool-cases,
}
use remelon_db.Prelude.Set.{member, member-filter}
use remelon_db.Server.Store.{SyncStore}
use remelon_db.Server.Engine.{Entry, Rejected}
use remelon_db.Server.Engine.Screen.Sound.{
  is_accounted_mono, Grows, IsSound, IsSound-stay, IsSound-if, member-reject, Grows-reject, Covers,
  Covers-Grows, Covers-step, tables,
}
use remelon_db.Server.Engine.Apply.{fold_refused, upsert_entry, upsert_all}

module _ {Scope : Type 0} (store : SyncStore Scope) where
  fold_refused-IsSound :
      (refused : List String) (entry : Entry) (rejected : Rejected)
      → IsSound entry rejected (fold_refused store refused entry rejected)
  fold_refused-IsSound refused entry rejected =
      IsSound-if (is_empty refused) (IsSound-stay entry rejected) (record {
        same_table = refl;
        grows = Grows-reject entry.table refused rejected;
        keeps = λ id h. ground (
          arith,
          h,
          member-reject entry.table entry.table id refused rejected,
          eq_refl entry.table,
          member-filter id (λ i. not (member i refused)) entry.deletes,
        );
      })

  abbrev upserted : Scope → Entry → Rejected → store.State → Entry × Rejected
  upserted scope entry rejected s =
      let out = upsert_entry store scope entry rejected s in (out.0, out.1)

  upsert_entry-IsSound :
      (scope : Scope) (entry : Entry) (rejected : Rejected) (s : store.State)
      → IsSound entry rejected (upserted scope entry rejected s)
  unfolding upsert_entry
  upsert_entry-IsSound scope entry rejected s = elim (Bool-cases (is_empty entry.rows)) [
    | inl nothing ↦ rw nothing (IsSound-stay entry rejected)
    | inr some_rows ↦
        rw some_rows
          (fold_refused-IsSound (store.upsert entry.table scope entry.rows s).1 entry rejected)
  ]

  pub upsert_all-Grows :
      (scope : Scope) (entries : List Entry) (r : Rejected) (s : store.State)
      → Grows r (upsert_all store scope entries r s).1
  unfolding upsert_all
  upsert_all-Grows scope [] r s t id h = h
  upsert_all-Grows scope (e ∷ rest) r s t id h =
      let (e', r', s') = upsert_entry store scope e r s in
      upsert_all-Grows scope rest r' s' t id ((upsert_entry-IsSound scope e r s).grows t id h)

  pub upsert_all-Covers :
      (names : String → String → Bool) (scope : Scope) (entries : List Entry) (r : Rejected)
      (s : store.State)
      → All (Covers names r) entries
      → All
          (Covers names (upsert_all store scope entries r s).1)
          (upsert_all store scope entries r s).0
  unfolding upsert_all
  upsert_all-Covers names scope [] r s h = tt
  upsert_all-Covers names scope (e ∷ rest) r s (c, h) =
      let (e', r', s') = upsert_entry store scope e r s in
      let sound = upsert_entry-IsSound scope e r s in
      (
        λ id n.
            is_accounted_mono id e' r' (upsert_all store scope rest r' s').1
              (upsert_all-Grows scope rest r' s') (Covers-step names sound c id n),
        upsert_all-Covers names scope rest r' s' (Covers-Grows names r r' rest sound.grows h),
      )

  pub tables-upsert_all :
      (scope : Scope) (entries : List Entry) (r : Rejected) (s : store.State)
      → tables (upsert_all store scope entries r s).0 ≡ tables entries
  unfolding upsert_all
  tables-upsert_all scope [] r s = refl
  tables-upsert_all scope (e ∷ rest) r s =
      let (e', r', s') = upsert_entry store scope e r s in
      ap₂ (◌∷◌) (upsert_entry-IsSound scope e r s).same_table (tables-upsert_all scope rest r' s')
