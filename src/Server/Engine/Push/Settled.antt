-- ===== src/Server/Engine/Push/Settled.antt =====
-- No id of an accepted push is lost: each is written, deleted or rejected.
use remelon_db.Prelude.{
  ℕ, String, ◌≡◌, refl, ap, ◌∙◌, true, not, ◌&&◌, ◌||◌, List, ◌++◌, arith, inl, inr, Bool-cases,
  any, if_cases, and_left, and_right, ltb,
}
use remelon_db.Prelude.Set.{member}
use remelon_db.Wire.{DirtyRaw, SyncPushArgs, Pushed, pushed}
use remelon_db.Server.Store.{WireRow, SyncStore}
use remelon_db.Server.Engine.{ok, Options, Entry, Rejected, rejected_ids}
use remelon_db.Server.Engine.Partition.Named.{is_requested}
use remelon_db.Server.Engine.Hooks.{Work}
use remelon_db.Server.Engine.Apply.{upsert_all}
use remelon_db.Server.Engine.Apply.Sound.{upsert_all-Grows}
use remelon_db.Server.Engine.Push.{table_names, reply_of, push}
use remelon_db.Server.Engine.Push.Outcome.{push-pushed}
use remelon_db.Server.Engine.Push.Accounting.{screened-Covers}
use remelon_db.Server.Engine.Push.Echo.{after_writes, commit-parts}
use remelon_db.Server.Engine.Push.Calls.{
  Call, is_open, upsert_calls, tombstone_calls, run_calls, is_settled, run_calls-append,
  is_settled-append, run_calls-upsert_calls, run_calls-tombstone_calls, tombstone_calls-is_settled,
  upsert_calls-is_settled, Covers-is_open,
}

module _ {Scope : Type 0} (store : SyncStore Scope) (options : Options store) (scope : Scope) where
  reply_of-rejected :
      (since : ℕ) (entries : List Entry) (rejected : Rejected) (s : store.State)
      → (reply_of store options scope since entries rejected s).rejected ≡ rejected
  unfolding reply_of
  reply_of-rejected since entries rejected s =
      if_cases (λ (p : Pushed WireRow). p.rejected ≡ rejected) (ltb since (store.gc_floor s))
        (λ pruned. refl) (λ served. refl)

  -- the calls that a push with this work makes
  calls_of : Work → store.State → List Call
  calls_of work s =
      upsert_calls work.0 ++ tombstone_calls (upsert_all store scope work.0 work.1 s).0

  run_calls-calls_of :
      (work : Work) (s : store.State)
      → run_calls store scope (calls_of work s) s ≡ (after_writes store options scope work s).2
  unfolding calls_of
  run_calls-calls_of work s =
      let written = upsert_all store scope work.0 work.1 s in
      run_calls-append store scope (upsert_calls work.0) (tombstone_calls written.0) s
      ∙ ap (run_calls store scope (tombstone_calls written.0))
          (run_calls-upsert_calls store scope work.0 work.1 s)
      ∙ run_calls-tombstone_calls store scope written.0 written.2

  -- what is left to apply is settled by the calls or rejected in the end
  calls_of-is_settled :
      (work : Work) (s : store.State) (table id : String)
      → (any (is_open table id) work.0 || member id (rejected_ids table work.1)) ≡ true
      → (is_settled store scope table id (calls_of work s) s
          || member id (rejected_ids table (upsert_all store scope work.0 work.1 s).1))
        ≡ true
  unfolding calls_of
  calls_of-is_settled work s table id h =
      let written = upsert_all store scope work.0 work.1 s in
      ground (
        arith,
        h,
        upsert_all-Grows store scope work.0 work.1 s table id,
        upsert_calls-is_settled store scope table id work.0 work.1 s,
        is_settled-append store scope table id (upsert_calls work.0) (tombstone_calls written.0) s,
        tombstone_calls-is_settled store scope table id written.0
            (run_calls store scope (upsert_calls work.0) s),
      )

  -- A push that is accepted takes the store from the one state to the other by calls of `upsert` and
  -- `tombstone`. Each id that the request names, in a table that the engine serves, is among the
  -- rejections of the reply, or one of these calls writes a row of that id and the storage does not
  -- refuse it, or one of them deletes it.
  pub push_accounts :
      (args : SyncPushArgs DirtyRaw) (s s' : store.State) (p : Pushed WireRow)
      → push store options scope args s ≡ ok (pushed p, s')
      → (calls : List Call) × (run_calls store scope calls s ≡ s')
        × ((table id : String)
            → (not (member table (table_names store options) && is_requested args.changes table id)
                || is_settled store scope table id calls s
                || member id (rejected_ids table p.rejected))
              ≡ true)
  push_accounts args s s' p e =
      let accepted = push-pushed store options scope args s p s' e in
      let work = accepted.work in
      let (covered, named) =
        screened-Covers store options scope s args.changes accepted.parsed accepted.revs work
          accepted.parsing accepted.screened in
      let (reply, state) =
        commit-parts store options scope accepted.since work s s' p accepted.committed in
      let rejections : p.rejected ≡ (after_writes store options scope work s).1 =
        ap (λ (q : Pushed WireRow). q.rejected) reply ∙ reply_of-rejected accepted.since _ _ s' in
      (
        calls_of work s,
        run_calls-calls_of work s ∙ state,
        λ table id.
            elim (Bool-cases
              (member table (table_names store options) && is_requested args.changes table id)) [
                | inl asked ↦
                    let entered =
                      Covers-is_open (is_requested args.changes) work.1 table id work.0 covered
                        (ap (member table) named
                          ∙ and_left (member table (table_names store options)) _ asked)
                        (and_right (member table (table_names store options)) _ asked) in
                    ground (arith, rejections, calls_of-is_settled work s table id entered)
                | inr silent ↦ ground (arith, silent)
              ],
      )
