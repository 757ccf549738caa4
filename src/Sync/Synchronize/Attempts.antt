-- ===== src/Sync/Synchronize/Attempts.antt =====
-- synchronize.ts: an attempt, the loop over the attempts, and the run.
use remelon_db.Prelude.{
  ℕ, String, ◌+◌, zero, suc, Bool, false, not, ◌&&◌, ◌||◌, Option, none, some, [], ◌∷◌, max,
  is_some, or_else, if◌then◌else◌,
}
use remelon_db.Wire.{DirtyRaw, SyncPullArgs, SyncPushArgs, Pushed, SyncPushResult, pushed, conflict}
use remelon_db.Sync.Mark.{LocalChanges, fetch_local_changes}
use remelon_db.Sync.Migration.{MigrationInfo}
use remelon_db.Sync.Synchronize.{
  cursor_without_changes, still_conflicting, unavailable, lost, SynchronizeResult, pushed_with,
  count_rows, Device, cursor_key, Outcome, return, throw, perform, await,
}
use remelon_db.Sync.Synchronize.Run.{
  Received, Totals, Verdict, finished, retry, check_abort, find_migration, pull, receive,
  apply_pulled, adopt, mark, confirm_turn, done_without_push, report,
}

-- the totals after a pull
abbrev pub counted : Totals → Received → Totals
counted t r = record {
  resynced = t.resynced || r.replacement;
  pulled = t.pulled + count_rows r.changes;
}

abbrev pub lost_result : ℕ → Totals → SynchronizeResult
lost_result tries t = record (done_without_push tries t) { lease = lost }

abbrev pub unavailable_result : SynchronizeResult
unavailable_result = record (done_without_push 0 (record { resynced = false; pulled = 0 })) {
  lease = unavailable;
}

module _ (d : Device) where
  -- the second write block, and the result
  unfoldable pub settle_push :
      ℕ → Totals → LocalChanges → Pushed DirtyRaw → String → d.World → Outcome d.World Verdict
  unfolding await mark adopt
  settle_push tries t local p cursor w = await (mark d local p.rejected w) (λ _ w1.
      await (adopt d p.cursor p.changes cursor w1)
        (λ more w2. return (finished (report tries t local p.rejected more)) w2))

  -- what follows on the answer to a push
  unfoldable pub answer_push :
      ℕ
      → Totals
      → LocalChanges
      → String
      → SyncPushResult DirtyRaw
      → d.World
      → Outcome d.World Verdict
  unfolding await confirm_turn settle_push
  answer_push tries t local cursor conflict w = return (retry t) w
  answer_push tries t local cursor (pushed p) w =
      if is_some p.cursor && not (is_some p.changes)
      then throw cursor_without_changes w
      else await (confirm_turn d w) (λ ours w1.
        if ours
        then settle_push tries t local p cursor w1
        else return (finished (lost_result tries t)) w1)

  -- the push phase
  unfoldable pub push_phase : ℕ → Totals → String → d.World → Outcome d.World Verdict
  unfolding await check_abort fetch_local_changes answer_push
  push_phase tries t cursor w =
      let local = fetch_local_changes d.encode_base64 (d.dirty_rows w) d.schema in
      let args : SyncPushArgs DirtyRaw = record { changes = local.changes; cursor = cursor } in
      elim d.push_changes [
        | none ↦ return (finished (done_without_push tries t)) w
        | some push ↦
            if local.is_empty
            then return (finished (done_without_push tries t)) w
            else await (check_abort d w) (λ _ w1.
              await (perform (pushed_with args ∷ []) (push args w1))
                (answer_push tries t local cursor))
      ]

  -- the rest of an attempt, when the pull has been answered
  unfoldable pub after_pull :
      ℕ → Totals → Option String → Bool → Received → d.World → Outcome d.World Verdict
  unfolding await check_abort apply_pulled push_phase
  after_pull tries t cursor save_version r w = await (check_abort d w) (λ _ w1.
      await (apply_pulled d cursor save_version r w1)
        (λ _ w2. push_phase tries (counted t r) r.cursor w2))

  abbrev pub pull_args : Option String → MigrationInfo → SyncPullArgs
  pull_args cursor info = record {
    cursor = cursor;
    schema_version = d.schema.version;
    migration = info.migration;
  }

  -- one attempt, after `tries` that ended in a conflict
  unfoldable pub attempt : ℕ → Totals → d.World → Outcome d.World Verdict
  unfolding await check_abort find_migration pull receive after_pull
  attempt tries t w = await (check_abort d w) (λ _ w1.
      let cursor = d.get_item cursor_key w1 in
      await (find_migration d cursor w1) (λ info w2.
        await (await (pull d (pull_args cursor info) w2) (receive d))
          (after_pull tries t cursor info.should_save_version)))

  -- the attempts that are left
  unfoldable pub attempts : ℕ → ℕ → Totals → d.World → Outcome d.World SynchronizeResult
  unfolding await attempt
  attempts zero tries t w = throw (still_conflicting tries) w
  attempts (suc left) tries t w = await (attempt tries t w) (λ verdict w1. elim verdict [
    | finished r ↦ return r w1
    | retry t1 ↦ attempts left (tries + 1) t1 w1
  ])

  abbrev pub retries : ℕ
  retries = max 1 (or_else d.conflict_retries 5)

  -- `runSynchronize`
  unfoldable pub run_synchronize : d.World → Outcome d.World SynchronizeResult
  unfolding await check_abort attempts
  run_synchronize w =
      let start = attempts retries 0 (record { resynced = false; pulled = 0 }) in
      await (check_abort d w) (λ _ w1. elim d.request_sync_turn [
        | none ↦ start w1
        | some request ↦
            await (perform [] (request w1))
              (λ granted w2. if granted then start w2 else return unavailable_result w2)
      ])
