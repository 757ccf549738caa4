-- ===== src/Server/Protocol.antt =====
-- packages/server/src: the engine of engine.ts over the store of memoryStore.ts.
mod Tests
use remelon_db.Prelude.{
  ℕ, ◌+◌, ◌≤◌, ◌<◌, String, ◌≡◌, ◌≢◌, refl, ap, sym, ◌∙◌, subst, Bool, true, false, not, ◌&&◌, ◌||◌,
  Option, none, some, List, [], ◌∷◌, arith, ◌==◌, eq_iff, max, is_some, is_empty, inl, inr,
  Bool-cases, Option-cases, if◌then◌else◌,
}
use remelon_db.Prelude.Map.{Map}
use remelon_db.Prelude.Set.{member}
use remelon_db.Wire.{
  DirtyRaw, SyncChanges, SyncPullArgs, SyncPullResult, pulled, SyncPushArgs, Pushed, SyncPushResult,
  pushed,
}
use remelon_db.Server.Store.{WireRow}
use remelon_db.Server.Cursor.{print_rev, decode_cursor, max_safe_integer}
use remelon_db.Server.Cursor.RoundTrip.{decode_cursor-print_rev}
use remelon_db.Server.Memory.{Stored, MemoryState, upsert, tombstone, memory_store, is_dead}
use remelon_db.Server.Memory.Rows.{
  row_at, last_stated, upsert_lem, tombstone_lem, revised_dead, buried_dead,
}
use remelon_db.Server.Memory.Revisions.{IsStamped, upsert-IsStamped, tombstone-IsStamped}
use remelon_db.Server.Memory.Collect.{
  is_newer, changed_since_lem, changed_since-IsFiled, max_rev_lem,
}
use remelon_db.Server.Engine.{Result, ok, Options, Entry, Rejected}
use remelon_db.Server.Engine.Apply.{upsert_entry, upsert_all, tombstone_all}
use remelon_db.Server.Engine.Reply.{to_changes, collect_since}
use remelon_db.Server.Engine.Reply.Laws.{reply_mentions}
use remelon_db.Server.Engine.Push.{table_names, effective_max, push}
use remelon_db.Server.Engine.Push.Outcome.{IsAccepted, push-cases, push-pushed}
use remelon_db.Server.Engine.Push.Echo.{state-commit, after_writes}
use remelon_db.Server.Engine.Pull.{pull, pull_since}
use remelon_db.Server.Engine.Pull.Laws.{pull-mentions, pull-next, pull_at_top}

-- A property of states that every write of the scope keeps.
record IsKept (scope : String) (P : MemoryState → Type 0) : Type 0 where
  keep_upsert :
      (table : String) (batch : List WireRow) (st : MemoryState)
      → P st
      → P (upsert table scope batch st).0
  keep_tombstone :
      (table : String) (ids : List String) (st : MemoryState)
      → P st
      → P (tombstone table scope ids st)

module _ (options : Options memory_store) (scope : String) {P : MemoryState → Type 0}
    (kept : IsKept scope P) where
  upsert_all-keeps :
      (entries : List Entry) (r : Rejected) (st : MemoryState)
      → P st
      → P (upsert_all memory_store scope entries r st).2
  unfolding upsert_all upsert_entry
  upsert_all-keeps [] r st h = h
  upsert_all-keeps (e ∷ rest) r st h = elim (Bool-cases (is_empty e.rows)) [
    | inl nothing ↦ rw nothing (upsert_all-keeps rest r st h)
    | inr some_rows ↦
        rw some_rows (upsert_all-keeps rest _ _ (kept.keep_upsert e.table e.rows st h))
  ]

  tombstone_all-keeps :
      (entries : List Entry) (st : MemoryState)
      → P st
      → P (tombstone_all memory_store scope entries st)
  unfolding tombstone_all
  tombstone_all-keeps [] st h = h
  tombstone_all-keeps (e ∷ rest) st h = elim (Bool-cases (is_empty e.deletes)) [
    | inl nothing ↦ rw nothing (tombstone_all-keeps rest st h)
    | inr some_ids ↦
        rw some_ids (tombstone_all-keeps rest _ (kept.keep_tombstone e.table e.deletes st h))
  ]

  -- What every write keeps, a push keeps, whatever its answer.
  push-keeps :
      (args : SyncPushArgs DirtyRaw) (st st' : MemoryState) (answer : SyncPushResult WireRow)
      → push memory_store options scope args st ≡ ok (answer, st')
      → P st
      → P st'
  push-keeps args st st' answer e h =
      elim (push-cases memory_store options scope args st (answer, st') e) [
        | inl same ↦ subst P (ap (λ (o : SyncPushResult WireRow × MemoryState). o.1) same) h
        | inr accepted ↦
            let work = accepted.work in
            let state =
              sym (state-commit memory_store options scope accepted.since work st)
              ∙ ap (λ (o : SyncPushResult WireRow × MemoryState). o.1) accepted.committed in
            subst P state (
              tombstone_all-keeps (after_writes memory_store options scope work st).0 _
                (upsert_all-keeps work.0 work.1 st h))
      ]

module _ (options : Options memory_store) where
  -- A push keeps the store well-formed, whatever its answer: no row is stamped above the revision
  -- counter, and in each table of each scope every row stands under its own id, and no id twice.
  pub push-IsStamped :
      (scope : String) (args : SyncPushArgs DirtyRaw) (st st' : MemoryState)
      (answer : SyncPushResult WireRow)
      → push memory_store options scope args st ≡ ok (answer, st')
      → IsStamped st
      → IsStamped st'
  push-IsStamped scope args st st' answer e h =
      push-keeps options scope {P = IsStamped}
        (record {
          keep_upsert = λ table batch s h. upsert-IsStamped table scope batch s h;
          keep_tombstone = λ table ids s h. tombstone-IsStamped table scope ids s h;
        })
        args st st' answer e h

  -- A push in one scope changes no row of another scope, whatever its answer.
  pub push_isolated :
      (scope other : String) (args : SyncPushArgs DirtyRaw) (st st' : MemoryState)
      (answer : SyncPushResult WireRow)
      → scope ≢ other
      → push memory_store options scope args st ≡ ok (answer, st')
      → (table id : String) → row_at other table id st' ≡ row_at other table id st
  push_isolated scope other args st st' answer ne e table id =
      push-keeps options scope {P = λ s. row_at other table id s ≡ row_at other table id st}
        (record {
          keep_upsert =
              λ t batch s h. (upsert_lem scope t s batch other table id).0 ∙ apart t _ _ _ h;
          keep_tombstone =
              λ t ids s h. (tombstone_lem scope t s ids other table id).0 ∙ apart_ids t ids _ _ _ h;
        })
        args st st' answer e refl
    where
      other_scope : (scope == other) ≡ false
      other_scope = ground (arith, eq_iff scope other)

      apart :
          (t : String) (x y z : Option Stored)
          → y ≡ z
          → (if scope == other && t == table then x else y) ≡ z
      apart t x y z h = ground (arith, other_scope, h)

      apart_ids :
          (t : String) (ids : List String) (x y z : Option Stored)
          → y ≡ z
          → (if scope == other && t == table && member id ids then x else y) ≡ z
      apart_ids t ids x y z h = ground (arith, other_scope, h)

  -- A push never revives a tombstone: a row that is dead before it is dead after it.
  pub push_no_resurrection :
      (scope : String) (args : SyncPushArgs DirtyRaw) (st st' : MemoryState)
      (answer : SyncPushResult WireRow) (table id : String)
      → push memory_store options scope args st ≡ ok (answer, st')
      → is_dead (row_at scope table id st) ≡ true
      → is_dead (row_at scope table id st') ≡ true
  push_no_resurrection scope args st st' answer table id e dead =
      push-keeps options scope {P = λ s. is_dead (row_at scope table id s) ≡ true}
        (record {
          keep_upsert = λ t batch s h.
              ap is_dead (upsert_lem scope t s batch scope table id).0
              ∙ revised_dead (scope == scope && t == table) (s.rev + 1) (last_stated id batch)
                  (row_at scope table id s) h;
          keep_tombstone = λ t ids s h.
              ap is_dead (tombstone_lem scope t s ids scope table id).0
              ∙ buried_dead (scope == scope && t == table && member id ids) (s.rev + 1)
                  (row_at scope table id s) h;
        })
        args st st' answer e dead

  -- A pull of the in-memory store tells of a table exactly the ids whose row, live or a tombstone,
  -- has a revision above the cursor.
  pub pull_reports :
      (scope : String) (args : SyncPullArgs) (st : MemoryState) (since : ℕ)
      (changes : SyncChanges WireRow) (next : String) (table id : String)
      → IsStamped st
      → pull_since args.cursor ≡ some since
      → pull memory_store options scope args st ≡ pulled changes next
      → reply_mentions changes table id
        ≡ member table (table_names memory_store options)
          && is_newer (if is_some args.migration then 0 else since) (row_at scope table id st)
  pull_reports scope args st since changes next table id h read e =
      pull-mentions memory_store options scope st args since changes next
        (λ t n. changed_since-IsFiled t scope n st) read e table id
      ∙ ap (◌&&◌ (member table (table_names memory_store options)))
          (changed_since_lem table scope (if is_some args.migration then 0 else since) st id h)

  -- A pull settles: on an unchanged store whose revisions are safe integers, a second pull with the
  -- cursor that the first one issued is served, issues the same cursor, and tells of nothing.
  pub pull_settles :
      (scope : String) (args : SyncPullArgs) (st : MemoryState) (version : ℕ)
      (changes : SyncChanges WireRow) (next : String)
      → IsStamped st
      → effective_max memory_store options scope st ≤ max_safe_integer
      → pull memory_store options scope args st ≡ pulled changes next
      → (later : SyncChanges WireRow) × (pull memory_store options scope
            (record { cursor = some next; schema_version = version; migration = none })
            st
          ≡ pulled later next)
        × ((table id : String) → reply_mentions later table id ≡ false)
  pull_settles scope args st version changes next h safe e =
      let top : ℕ = effective_max memory_store options scope st in
      let issued = (pull-next memory_store options scope st args changes next e).1 in
      let again = pull_at_top memory_store options scope st version safe in
      let args' : SyncPullArgs = record {
        cursor = some (print_rev top);
        schema_version = version;
        migration = none;
      } in
      let later : SyncChanges WireRow =
        to_changes (collect_since memory_store (table_names memory_store options) scope top st)
          [] in
      (
        later,
        rw issued again,
        λ table id.
            pull_reports scope args' st top later (print_rev top) table id h
              (decode_cursor-print_rev top safe) again
            ∙ ground (arith, nothing_newer table id),
      )
    where
      nothing_newer :
          (table id : String)
          → is_newer (effective_max memory_store options scope st) (row_at scope table id st)
            ≡ false
      nothing_newer table id = elim (Option-cases (row_at scope table id st)) [
        | inl absent ↦ rw absent refl
        | inr (stored, present) ↦
            let bound = (max_rev_lem scope st h).1 table id stored present in
            rw present (ground (arith, bound))
      ]
