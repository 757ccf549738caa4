-- ===== src/Server/Engine/Push/Echo.antt =====
-- A push never hears its own records back.
use remelon_db.Prelude.{
  ℕ, String, ◌≡◌, refl, some-injective, ap, sym, ◌∙◌, subst, Bool, true, false, Option, none, some,
  List, [], ◌∷◌, ◌++◌, arith, ◌==◌, eq_iff, All, or_else, inl, inr, Bool-cases, ltb, if◌then◌else◌,
}
use remelon_db.Prelude.Map.{get}
use remelon_db.Prelude.Set.{member, member-append}
use remelon_db.Wire.{DirtyRaw, SyncChanges, SyncPushArgs, Pushed, SyncPushResult, pushed}
use remelon_db.Server.Store.{WireRow, SyncStore, row_ids}
use remelon_db.Server.Engine.{ok, Options, Entry, Rejected, rejected_ids}
use remelon_db.Server.Engine.Partition.Named.{is_requested}
use remelon_db.Server.Engine.Screen.Sound.{Covers, tables}
use remelon_db.Server.Engine.Apply.{upsert_all, tombstone_all}
use remelon_db.Server.Engine.Reply.Laws.{
  IsFiled, change_set-mentions, get-to_changes, reply_mentions, table_changes,
}
use remelon_db.Server.Engine.Push.{table_names, request_ids, reply_of, commit, push}
use remelon_db.Server.Engine.Push.Accounting.{written-Covers}
use remelon_db.Server.Engine.Push.Outcome.{push-pushed}

-- An accounted id of a configured table is excluded from the reply.
request_ids-Covers :
    {Scope : Type 0} (store : SyncStore Scope) (options : Options store)
    (names : String → String → Bool) (entries : List Entry) (rejected : Rejected)
    (table id : String)
    → All (Covers names rejected) entries
    → member table (tables entries) ≡ true
    → names table id ≡ true
    → member id (or_else (get table (request_ids store options entries rejected)) []) ≡ true
unfolding member get
request_ids-Covers store options names [] rejected table id h m n = cc
request_ids-Covers store options names (e ∷ rest) rejected table id (c, h) m n =
    elim (Bool-cases (e.table == table)) [
      | inl same ↦ rw same (
          ground (
            arith,
            c id (subst (λ t. names t id ≡ true) (sym ((eq_iff e.table table).0 same)) n),
            member-append id (row_ids e.rows) (e.deletes ++ rejected_ids e.table rejected),
            member-append id e.deletes (rejected_ids e.table rejected),
          ))
      | inr other ↦
          rw other
            (request_ids-Covers store options names rest rejected table id h (rw other at m) n)
    ]

module _ {Scope : Type 0} (store : SyncStore Scope) (options : Options store) (scope : Scope) where
  -- the entries, the rejections and the state that the writes leave
  abbrev pub after_writes :
      List Entry × Rejected → store.State → List Entry × Rejected × store.State
  after_writes work s =
      let out = upsert_all store scope work.0 work.1 s in
      (out.0, out.1, tombstone_all store scope out.0 out.2)

  pub state-commit :
      (since : ℕ) (work : List Entry × Rejected) (s : store.State)
      → (commit store options scope since work s).1 ≡ (after_writes work s).2
  unfolding commit
  state-commit since work s = refl

  pub commit-parts :
      (since : ℕ) (work : List Entry × Rejected) (s s' : store.State) (p : Pushed WireRow)
      → commit store options scope since work s ≡ (pushed p, s')
      → (p ≡ reply_of store options scope since (after_writes work s).0 (after_writes work s).1 s')
        × ((after_writes work s).2 ≡ s')
  unfolding commit
  commit-parts since work s s' p e =
      let state = ap (λ (o : SyncPushResult WireRow × store.State). o.1) e in
      let reply = ap (λ (o : SyncPushResult WireRow × store.State). o.0) e in
      let same : reply_of store options scope since (after_writes work s).0 (after_writes work s).1
            (after_writes work s).2
          ≡ p =
        cc reply in
      (
        subst
            (λ t.
              p
              ≡ reply_of store options scope since (after_writes work s).0 (after_writes work s).1
                  t)
            state (sym same),
        state,
      )

  reply_of-changes :
      (since : ℕ) (entries : List Entry) (rejected : Rejected) (s : store.State)
      (changes : SyncChanges WireRow)
      → (reply_of store options scope since entries rejected s).changes ≡ some changes
      → (table : String)
      → get table changes ≡ (
          if member table (table_names store options)
          then some
              (table_changes store scope since s (request_ids store options entries rejected) table)
          else none)
  unfolding reply_of
  reply_of-changes since entries rejected s changes e table =
      elim (Bool-cases (ltb since (store.gc_floor s))) [
        | inl pruned ↦ absurd (differ (rw pruned at e))
        | inr served ↦
            ap (get table) (sym (some-injective (rw served at e)))
            ∙ get-to_changes store scope since s (request_ids store options entries rejected)
                (table_names store options) table
      ]
    where
      differ : ◌≡◌ {A = Option (SyncChanges WireRow)} none (some changes) → ⊥
      differ h = cc

  -- When a push is accepted and its reply carries changes, these name no record that the request
  -- itself creates, updates or deletes in a table that the engine serves, whether it was applied or
  -- rejected. The store files each change under the id of its row.
  pub push_no_echo :
      (args : SyncPushArgs DirtyRaw) (s s' : store.State) (p : Pushed WireRow)
      (changes : SyncChanges WireRow) (table id : String)
      → ((t : String) (n : ℕ) → All IsFiled (store.changed_since t scope n s'))
      → push store options scope args s ≡ ok (pushed p, s')
      → p.changes ≡ some changes
      → is_requested args.changes table id ≡ true
      → reply_mentions changes table id ≡ false
  push_no_echo args s s' p changes table id filed e carried asked =
      let accepted = push-pushed store options scope args s p s' e in
      let work = accepted.work in
      let entries = (after_writes work s).0 in
      let rejected = (after_writes work s).1 in
      let (covered, named) =
        written-Covers store options scope s args.changes accepted.parsed accepted.revs work
          accepted.parsing accepted.screened in
      let (reply, state) = commit-parts accepted.since work s s' p accepted.committed in
      let found =
        reply_of-changes accepted.since entries rejected s' changes
          (subst (λ q. q.changes ≡ some changes) reply carried) table in
      let excluded =
        request_ids-Covers store options (is_requested args.changes) entries rejected table id
          covered in
      let told =
        change_set-mentions (or_else (get table (request_ids store options entries rejected)) [])
          (store.changed_since table scope accepted.since s') id (filed table accepted.since) in
      elim (Bool-cases (member table (table_names store options))) [
        | inl known ↦
            let hidden = excluded (ap (member table) named ∙ known) asked in
            ground (arith, found, known, told, hidden)
        | inr unknown ↦ ground (arith, found, unknown)
      ]
