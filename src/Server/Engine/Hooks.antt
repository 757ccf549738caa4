-- ===== src/Server/Engine/Hooks.antt =====
-- engine.ts, `push`: `applyExtraRejections` and the two cross-record hooks.
pub mod Sound
use remelon_db.Prelude.{
  String, Bool, true, false, Option, none, some, List, [], ◌∷◌, map, ◌==◌, is_empty, if◌then◌else◌,
}
use remelon_db.Prelude.Map.{Map, get}
use remelon_db.Prelude.Set.{member}
use remelon_db.Server.Store.{WireRow, SyncStore}
use remelon_db.Server.Engine.{
  EngineError, unknown_table, not_requested, Result, ok, err, ◌>>=◌, ◌>>◌, TableProposal, Options,
  Entry, Rejected, reject, drop_ids,
}

-- requestedByTable
abbrev pub requested_by_table : List Entry → Map (List String)
requested_by_table parsed = map (λ e. (e.table, e.all_ids)) parsed

-- the loop that looks every rejected id up in the request
unfoldable pub check_requested : String → List String → List String → Result (Unit {0})
check_requested table requested [] = ok tt
check_requested table requested (id ∷ ids) =
    if member id requested
    then check_requested table requested ids
    else err (not_requested table id)

-- parsed.find((p) => p.table === table), rewritten
unfoldable pub drop_from : String → List String → List Entry → List Entry
drop_from table ids [] = []
drop_from table ids (entry ∷ rest) =
    if entry.table == table then drop_ids ids entry ∷ rest else entry ∷ drop_from table ids rest

abbrev pub Work : Type 0
Work = List Entry × Rejected

abbrev pub check_table : String → List String → Option (List String) → Result (Unit {0})
check_table table ids none = err (unknown_table table)
check_table table ids (some requested) = check_requested table requested ids

unfoldable pub apply_extra : Map (List String) → List (String × List String) → Work → Result Work
unfolding check_requested drop_from
apply_extra requested [] work = ok work
apply_extra requested ((table, ids) ∷ extra) (parsed, rejected) =
    if is_empty ids
    then apply_extra requested extra (parsed, rejected)
    else (check_table table ids (get table requested)
        >> apply_extra requested extra (drop_from table ids parsed, reject table ids rejected))

module _ {Scope : Type 0} (store : SyncStore Scope) where
  unfoldable pub run_cross_validate :
      Options store → Scope → store.State → Map (List String) → Work → Result Work
  run_cross_validate options scope s requested (parsed, rejected) = elim options.cross_validate [
    | none ↦ ok (parsed, rejected)
    | some hook ↦
        apply_extra requested (hook s scope (map (λ e. (e.table, e.rows)) parsed))
          (parsed, rejected)
  ]

  abbrev pub proposals : List Entry → Map TableProposal
  proposals parsed = map (λ e. (e.table, record { rows = e.rows; deleted = e.deletes })) parsed

  unfoldable pub run_cross_validate_changes :
      Options store → Scope → store.State → Map (List String) → Work → Result Work
  run_cross_validate_changes options scope s requested (parsed, rejected) =
      elim options.cross_validate_changes [
        | none ↦ ok (parsed, rejected)
        | some hook ↦ apply_extra requested (hook s scope (proposals parsed)) (parsed, rejected)
      ]

  -- both hooks, in order
  unfoldable pub run_hooks : Options store → Scope → store.State → Work → Result Work
  unfolding run_cross_validate run_cross_validate_changes
  run_hooks options scope s (parsed, rejected) =
      let requested = requested_by_table parsed in
      run_cross_validate options scope s requested (parsed, rejected) >>= λ work.
      run_cross_validate_changes options scope s requested work
