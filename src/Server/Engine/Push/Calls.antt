-- ===== src/Server/Engine/Push/Calls.antt =====
-- The calls of a push that write to the store, as a list.
use remelon_db.Prelude.{
  String, ◌≡◌, refl, ap, sym, ◌∙◌, Bool, true, false, not, ◌&&◌, ◌||◌, List, [], ◌∷◌, ◌++◌, arith,
  any, ◌==◌, eq_iff, is_empty, All, inl, inr, Bool-cases, if◌then◌else◌,
}
use remelon_db.Prelude.Set.{member, member-filter}
use remelon_db.Server.Store.{WireRow, SyncStore, row_ids}
use remelon_db.Server.Engine.{Entry, Rejected, rejected_ids}
use remelon_db.Server.Engine.Screen.Sound.{Covers, tables, member-reject}
use remelon_db.Server.Engine.Apply.{fold_refused, upsert_entry, upsert_all, tombstone_all}
use remelon_db.Server.Engine.Apply.Sound.{upsert_all-Grows}

pub data Call : Type 0 where
  upserts : String → List WireRow → Call
  tombstones : String → List String → Call

-- a row or a deletion of the entry for this table
abbrev pub is_open : String → String → Entry → Bool
is_open table id e = e.table == table && (member id (row_ids e.rows) || member id e.deletes)

abbrev pub is_dead : String → String → Entry → Bool
is_dead table id e = e.table == table && member id e.deletes

abbrev pub upsert_calls : List Entry → List Call
upsert_calls [] = []
upsert_calls (e ∷ rest) =
    if is_empty e.rows then upsert_calls rest else upserts e.table e.rows ∷ upsert_calls rest

abbrev pub tombstone_calls : List Entry → List Call
tombstone_calls [] = []
tombstone_calls (e ∷ rest) =
    if is_empty e.deletes
    then tombstone_calls rest
    else tombstones e.table e.deletes ∷ tombstone_calls rest

absent : (id : String) (ids : List String) → is_empty ids ≡ true → member id ids ≡ false
unfolding member
absent id [] h = refl
absent id (i ∷ ids) h = cc

absent_row :
    (id : String) (rows : List WireRow) → is_empty rows ≡ true → member id (row_ids rows) ≡ false
unfolding member
absent_row id [] h = refl
absent_row id (row ∷ rows) h = cc

pub Covers-is_open :
    (names : String → String → Bool) (r : Rejected) (table id : String) (entries : List Entry)
    → All (Covers names r) entries
    → member table (tables entries) ≡ true
    → names table id ≡ true
    → (any (is_open table id) entries || member id (rejected_ids table r)) ≡ true
unfolding member
Covers-is_open names r table id [] h known asked = cc
Covers-is_open names r table id (e ∷ rest) (c, h) known asked =
    elim (Bool-cases (e.table == table)) [
      | inl same ↦
          let here = (eq_iff e.table table).0 same in
          let found = c id (ap (λ t. names t id) here ∙ asked) in
          let moved =
            ap
              (λ t.
                member id (row_ids e.rows) || member id e.deletes || member id (rejected_ids t r))
              (sym here)
            ∙ found in
          ground (arith, same, moved)
      | inr other ↦
          let later = Covers-is_open names r table id rest h (rw other at known) asked in
          ground (arith, other, later)
    ]

module _ {Scope : Type 0} (store : SyncStore Scope) (scope : Scope) where
  abbrev pub after_call : Call → store.State → store.State
  after_call (upserts table rows) s = (store.upsert table scope rows s).0
  after_call (tombstones table ids) s = store.tombstone table scope ids s

  unfoldable pub run_calls : List Call → store.State → store.State
  run_calls [] s = s
  run_calls (c ∷ calls) s = run_calls calls (after_call c s)

  -- The call writes a row of that id and the storage does not refuse it, or the call deletes the id.
  abbrev pub is_settled_by : String → String → Call → store.State → Bool
  is_settled_by table id (upserts t rows) s =
      t == table && (member id (row_ids rows) && not (member id (store.upsert t scope rows s).1))
  is_settled_by table id (tombstones t ids) s = t == table && member id ids

  -- some call of the run settles the id
  unfoldable pub is_settled : String → String → List Call → store.State → Bool
  is_settled table id [] s = false
  is_settled table id (c ∷ calls) s =
      is_settled_by table id c s || is_settled table id calls (after_call c s)

  pub run_calls-append :
      (xs ys : List Call) (s : store.State) → run_calls (xs ++ ys) s ≡ run_calls ys (run_calls xs s)
  unfolding run_calls
  run_calls-append [] ys s = refl
  run_calls-append (c ∷ xs) ys s = run_calls-append xs ys (after_call c s)

  pub is_settled-append :
      (table id : String) (xs ys : List Call) (s : store.State)
      → is_settled table id (xs ++ ys) s
        ≡ is_settled table id xs s || is_settled table id ys (run_calls xs s)
  unfolding is_settled run_calls
  is_settled-append table id [] ys s = refl
  is_settled-append table id (c ∷ xs) ys s =
      ground (arith, is_settled-append table id xs ys (after_call c s))

  pub run_calls-upsert_calls :
      (entries : List Entry) (r : Rejected) (s : store.State)
      → run_calls (upsert_calls entries) s ≡ (upsert_all store scope entries r s).2
  unfolding run_calls upsert_all upsert_entry
  run_calls-upsert_calls [] r s = refl
  run_calls-upsert_calls (e ∷ rest) r s = elim (Bool-cases (is_empty e.rows)) [
    | inl none ↦ rw none (run_calls-upsert_calls rest r s)
    | inr rows ↦ rw rows (
        run_calls-upsert_calls rest
          (fold_refused store (store.upsert e.table scope e.rows s).1 e r).1
          (store.upsert e.table scope e.rows s).0)
  ]

  pub run_calls-tombstone_calls :
      (entries : List Entry) (s : store.State)
      → run_calls (tombstone_calls entries) s ≡ tombstone_all store scope entries s
  unfolding run_calls tombstone_all
  run_calls-tombstone_calls [] s = refl
  run_calls-tombstone_calls (e ∷ rest) s = elim (Bool-cases (is_empty e.deletes)) [
    | inl none ↦ rw none (run_calls-tombstone_calls rest s)
    | inr ids ↦ rw ids (run_calls-tombstone_calls rest _)
  ]

  pub tombstone_calls-is_settled :
      (table id : String) (entries : List Entry) (s : store.State)
      → any (is_dead table id) entries ≡ true
      → is_settled table id (tombstone_calls entries) s ≡ true
  unfolding is_settled
  tombstone_calls-is_settled table id [] s h = cc
  tombstone_calls-is_settled table id (e ∷ rest) s h = elim (Bool-cases (is_empty e.deletes)) [
    | inl none ↦
        rw none
          (tombstone_calls-is_settled table id rest s (ground (arith, h, absent id e.deletes none)))
    | inr ids ↦ rw ids (
        ground (
          arith,
          h,
          tombstone_calls-is_settled table id rest (store.tombstone e.table scope e.deletes s),
        ))
  ]

  -- what becomes of an id of an entry when the storage has answered
  fold_refused-settles :
      (table id : String) (refused : List String) (e : Entry) (r : Rejected)
      → is_open table id e ≡ true
      → ((e.table == table && (member id (row_ids e.rows) && not (member id refused)))
          || is_dead table id (fold_refused store refused e r).0
          || member id (rejected_ids table (fold_refused store refused e r).1))
        ≡ true
  fold_refused-settles table id refused e r h = elim (Bool-cases (is_empty refused)) [
    | inl none ↦ rw none (ground (arith, h, absent id refused none))
    | inr some_ids ↦ rw some_ids (
        ground (
          arith,
          h,
          member-reject e.table table id refused r,
          member-filter id (λ i. not (member i refused)) e.deletes,
        ))
  ]

  pub upsert_calls-is_settled :
      (table id : String) (entries : List Entry) (r : Rejected) (s : store.State)
      → any (is_open table id) entries ≡ true
      → (is_settled table id (upsert_calls entries) s
          || any (is_dead table id) (upsert_all store scope entries r s).0
          || member id (rejected_ids table (upsert_all store scope entries r s).1))
        ≡ true
  unfolding is_settled upsert_all upsert_entry
  upsert_calls-is_settled table id [] r s h = cc
  upsert_calls-is_settled table id (e ∷ rest) r s h = elim (Bool-cases (is_empty e.rows)) [
    | inl none ↦
        rw none
          (ground (arith, h, absent_row id e.rows none, upsert_calls-is_settled table id rest r s))
    | inr rows ↦
        let (s', refused) = store.upsert e.table scope e.rows s in
        let (e', r') = fold_refused store refused e r in
        rw rows (
          ground (
            arith,
            h,
            fold_refused-settles table id refused e r,
            upsert_all-Grows store scope rest r' s' table id,
            upsert_calls-is_settled table id rest r' s',
          ))
  ]
