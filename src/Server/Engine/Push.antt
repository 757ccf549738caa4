-- ===== src/Server/Engine/Push.antt =====
-- engine.ts: the `push` handler, composed of its steps.
pub mod Accounting
pub mod Echo
pub mod Calls
pub mod Settled
pub mod Outcome
use remelon_db.Prelude.{
  ℕ, String, Bool, true, false, Option, none, some, List, [], ◌∷◌, ◌++◌, map, max, ltb,
  if◌then◌else◌,
}
use remelon_db.Prelude.Map.{Map, get, keys}
use remelon_db.Prelude.Set.{unique}
use remelon_db.Wire.{DirtyRaw, SyncPushArgs, Pushed, SyncPushResult, pushed, conflict}
use remelon_db.Server.Store.{WireRow, SyncStore, row_ids}
use remelon_db.Server.Cursor.{print_rev, decode_cursor}
use remelon_db.Server.Engine.{
  EngineError, Result, ok, err, ◌>>=◌, Options, Entry, Rejected, rejected_ids,
}
use remelon_db.Server.Engine.Partition.{parse}
use remelon_db.Server.Engine.Screen.{each, own, scan, validate_rows, bury}
use remelon_db.Server.Engine.Hooks.{Work, run_hooks}
use remelon_db.Server.Engine.Apply.{upsert_all, tombstone_all}
use remelon_db.Server.Engine.Reply.{to_changes, collect_since}

module _ {Scope : Type 0} (store : SyncStore Scope) (options : Options store) where
  abbrev pub table_names : List String
  table_names = keys options.tables

  abbrev pub effective_max : Scope → store.State → ℕ
  effective_max scope s = max (store.max_rev scope s) (store.gc_floor s)

  -- requestIds
  abbrev pub request_ids : List Entry → Rejected → Map (List String)
  request_ids parsed rejected =
      map (λ e. (e.table, row_ids e.rows ++ (e.deletes ++ rejected_ids e.table rejected))) parsed

  -- The screening after the conflict scan: what is left to apply, and what is refused.
  unfoldable pub screen : Scope → store.State → Map (Map ℕ) → Work → Result Work
  screen scope s revs (parsed, rejected) =
      run_hooks store options scope s (each (validate_rows store options) parsed rejected)
      >>= λ work. ok (each (bury store options scope s revs) work.0 work.1)

  -- the answer over the state that the writes left
  unfoldable pub reply_of : Scope → ℕ → List Entry → Rejected → store.State → Pushed WireRow
  reply_of scope since parsed rejected s =
      if ltb since (store.gc_floor s)
      then record { cursor = none; changes = none; rejected = rejected }
      else record {
        cursor = some (print_rev (max (store.max_rev scope s) (store.gc_floor s)));
        changes = some (
            to_changes (collect_since store table_names scope since s)
              (request_ids parsed rejected));
        rejected = rejected;
      }

  -- the writes and the answer
  unfoldable pub commit : Scope → ℕ → Work → store.State → SyncPushResult WireRow × store.State
  unfolding reply_of
  commit scope since (parsed, rejected) s =
      let (parsed', rejected', s') = upsert_all store scope parsed rejected s in
      let s'' = tombstone_all store scope parsed' s' in
      (pushed (reply_of scope since parsed' rejected' s''), s'')

  -- the transaction, from the ownership step on
  unfoldable pub push_parsed :
      Scope → ℕ → List Entry → store.State → Result (SyncPushResult WireRow × store.State)
  unfolding commit
  push_parsed scope since parsed s =
      if ltb (effective_max scope s) since
      then ok (conflict, s)
      else let (owned, rejected) = each (own store scope s) parsed [] in
        elim (scan store scope since s owned) [
          | none ↦ ok (conflict, s)
          | some revs ↦
              screen scope s revs (owned, rejected) >>= λ work. ok (commit scope since work s)
        ]

  unfoldable pub push :
      Scope → SyncPushArgs DirtyRaw → store.State → Result (SyncPushResult WireRow × store.State)
  unfolding push_parsed
  push scope args s = elim (decode_cursor args.cursor) [
    | none ↦ ok (conflict, s)
    | some since ↦ parse args.changes table_names >>= λ parsed. push_parsed scope since parsed s
  ]
