-- ===== src/Sync/Synchronize/Verdicts.antt =====
-- What one attempt of `runSynchronize` pulls, pushes and marks.
use remelon_db.Prelude.{
  ℕ, ◌+◌, ◌≤◌, ◌≡◌, refl, sym, subst, ap, ◌∙◌, String, Bool, not, ◌&&◌, Option, List, [], ◌∷◌,
  arith, is_some, if_cases, option_cases,
}
use remelon_db.Prelude.Map.{Map}
use remelon_db.Wire.{DirtyRaw, SyncPushArgs, Pushed, SyncPushResult, pushed, conflict}
use remelon_db.Sync.Mark.{LocalChanges, fetch_local_changes}
use remelon_db.Sync.Synchronize.{
  pos, minus, cursor_without_changes, SynchronizeResult, pushed_with, count_rows, Device,
  cursor_key, return, perform, await,
}
use remelon_db.Sync.Synchronize.Run.{
  Received, Totals, Verdict, finished, retry, rejected_records, count_ids, done_without_push,
  report, check_abort, find_migration, pull, receive, apply_pulled, adopt, mark, confirm_turn,
}
use remelon_db.Sync.Synchronize.Attempts.{
  counted, lost_result, settle_push, answer_push, push_phase, after_pull, pull_args, attempt,
}
use remelon_db.Sync.Synchronize.Costs.{
  Costs, costs, plus, free, total, Promises, return-Promises, throw-Promises, perform-Promises,
  await-Promises, Costless, Promises-mono, then-Promises, Exactly, fixed-Promises,
}
use remelon_db.Sync.Synchronize.Steps.{
  rows_cost, mark_cost_of, check_abort-Promises, find_migration-Promises, pull-Promises,
  receive-Promises, apply_pulled-Promises, adopt-Promises, mark-Promises, confirm_turn-Promises,
}

-- The report of a run after `tries` conflicts, in which `before` rows were pulled earlier, against
-- what it did.
pub record IsTrue (tries before : ℕ) (r : SynchronizeResult) (c : Costs) : Type 0 where
  pub pulled_rows : r.pulled ≡ before + c.rows
  pub pushed_rows : r.pushed ≡ minus c.marked_rows r.rejected
  pub rejections : r.rejected ≡ count_ids r.rejected_records
  pub one_mark : c.marks ≤ 1
  pub tried : tries ≤ r.retry_count
  pub one_push_each : c.pushes + tries ≤ r.retry_count + 1

-- an attempt: its report, or a conflict after one push
abbrev pub IsAttempt : ℕ → Totals → Verdict → Costs → Type 0
IsAttempt tries t (finished r) c = IsTrue tries t.pulled r c × (r.retry_count ≡ tries)
IsAttempt tries t (retry u) c =
    (u.pulled ≡ t.pulled + c.rows) × (c.pushes ≡ 1) × (c.marks ≡ 0) × (c.marked_rows ≡ 0)

-- the cost of a push
abbrev pub push_only : Costs
push_only = record { rows = 0; marked_rows = 0; pushes = 1; marks = 0 }

report-IsAttempt :
    (tries : ℕ) (t : Totals) (local : LocalChanges) (rejected : Map (List String)) (more : ℕ)
    → IsAttempt tries t
        (finished (report tries t local rejected more))
        (plus push_only (plus (mark_cost_of local) (plus (rows_cost more) free)))
report-IsAttempt tries t local rejected more = (
  record {
    pulled_rows = omega arith;
    pushed_rows = ap (λ n. minus n (count_ids (rejected_records rejected))) (omega arith);
    rejections = refl;
    one_mark = omega arith;
    tried = omega arith;
    one_push_each = omega arith;
  },
  refl,
)

-- a result without marks, after at most one push
unmarked-IsAttempt :
    (tries : ℕ) (t : Totals) (r : SynchronizeResult) (c : Costs)
    → r.pulled ≡ t.pulled
    → r.pushed ≡ pos 0
    → r.rejected ≡ 0
    → r.rejected_records ≡ []
    → r.retry_count ≡ tries
    → c.rows ≡ 0
    → c.marked_rows ≡ 0
    → c.marks ≡ 0
    → c.pushes ≤ 1
    → IsAttempt tries t (finished r) c
unfolding count_ids
unmarked-IsAttempt tries t r c pulls pushes refused ids again rows marked_rows marks few = (
  record {
    pulled_rows = omega (arith, pulls, rows);
    pushed_rows = rw pushes (rw refused (rw marked_rows refl));
    rejections = rw refused (rw ids refl);
    one_mark = omega (arith, marks);
    tried = omega (arith, again);
    one_push_each = omega (arith, again, few);
  },
  again,
)

-- the rows of the pull, and then the rest of the attempt
IsAttempt-counted :
    (tries : ℕ) (t : Totals) (r : Received) (v : Verdict) (c : Costs)
    → IsAttempt tries (counted t r) v c
    → IsAttempt tries t v (plus (rows_cost (count_rows r.changes)) c)
IsAttempt-counted tries t r (finished x) c (k, again) = (
  record {
    pulled_rows = omega (arith, k.pulled_rows);
    pushed_rows = k.pushed_rows ∙ ap (λ n. minus n x.rejected) (omega arith);
    rejections = k.rejections;
    one_mark = omega (arith, k.one_mark);
    tried = k.tried;
    one_push_each = omega (arith, k.one_push_each);
  },
  again,
)
IsAttempt-counted tries t r (retry u) c (pulls, pushes, marks, marked_rows) =
    (omega (arith, pulls), omega (arith, pushes), omega (arith, marks), omega (arith, marked_rows))

module _ (d : Device) where
  settle_push-Promises :
      (tries : ℕ) (t : Totals) (local : LocalChanges) (p : Pushed DirtyRaw) (cursor : String)
      (w : d.World)
      → Promises 0 0
          (λ v c. IsAttempt tries t v (plus push_only c))
          (settle_push d tries t local p cursor w)
  unfolding settle_push
  settle_push-Promises tries t local p cursor w =
      let R : Verdict → Costs → Type 0 = λ v c. IsAttempt tries t v (plus push_only c) in
      fixed-Promises (mark_cost_of local) 0 0 0 0 R (mark d local p.rejected w) _
        (mark-Promises d local p.rejected w)
        (λ a w1.
          await-Promises 0 0 0 0 (λ n c. c ≡ rows_cost n) (λ v c. R v (plus (mark_cost_of local) c))
            (adopt d p.cursor p.changes cursor w1) _ (adopt-Promises d p.cursor p.changes cursor w1)
            (λ more w2 c cost.
              return-Promises 0 0 (λ v later. R v (plus (mark_cost_of local) (plus c later)))
                (finished (report tries t local p.rejected more)) w2
                (subst
                  (λ x.
                    R (finished (report tries t local p.rejected more))
                      (plus (mark_cost_of local) (plus x free)))
                  (sym cost) (report-IsAttempt tries t local p.rejected more))))

  answer_push-Promises :
      (tries : ℕ) (t : Totals) (local : LocalChanges) (cursor : String)
      (answer : SyncPushResult DirtyRaw) (w : d.World)
      → Promises 0 0
          (λ v c. IsAttempt tries t v (plus push_only c))
          (answer_push d tries t local cursor answer w)
  unfolding answer_push
  answer_push-Promises tries t local cursor conflict w =
      return-Promises 0 0 (λ v c. IsAttempt tries t v (plus push_only c)) (retry t) w
        (omega arith, omega arith, omega arith, omega arith)
  answer_push-Promises tries t local cursor (pushed p) w =
      let R : Verdict → Costs → Type 0 = λ v c. IsAttempt tries t v (plus push_only c) in
      if_cases (Promises 0 0 R) (is_some p.cursor && not (is_some p.changes))
        (λ half. throw-Promises 0 0 R cursor_without_changes w)
        (λ whole.
          then-Promises 0 0 0 0 R (confirm_turn d w) _ (confirm_turn-Promises d w) (λ ours w1.
            if_cases (Promises 0 0 R) ours (λ held. settle_push-Promises tries t local p cursor w1)
              (λ gone. return-Promises 0 0 R (finished (lost_result tries t)) w1 (
                unmarked-IsAttempt tries t (lost_result tries t) (plus push_only free) refl refl
                  refl refl refl (omega arith) (omega arith) (omega arith) (omega arith)))))

  push_phase-Promises :
      (tries : ℕ) (t : Totals) (cursor : String) (w : d.World)
      → Promises 0 1 (IsAttempt tries t) (push_phase d tries t cursor w)
  unfolding push_phase total costs
  push_phase-Promises tries t cursor w =
      let local = fetch_local_changes d.encode_base64 (d.dirty_rows w) d.schema in
      let args : SyncPushArgs DirtyRaw = record { changes = local.changes; cursor = cursor } in
      let R = IsAttempt tries t in
      let silent : Promises 0 1 R (return (finished (done_without_push tries t)) w) =
        return-Promises 0 1 R (finished (done_without_push tries t)) w (
          unmarked-IsAttempt tries t (done_without_push tries t) free refl refl refl refl refl refl
            refl refl (omega arith)) in
      option_cases (Promises 0 1 R) d.push_changes (λ pulls_only. silent)
        (λ push can.
          if_cases (Promises 0 1 R) local.is_empty (λ clean. silent)
            (λ dirty.
              then-Promises 0 0 0 1 R (check_abort d w) _ (check_abort-Promises d w) (λ a w1.
                fixed-Promises push_only 0 1 0 0 R (perform (pushed_with args ∷ []) (push args w1))
                  _
                  (perform-Promises (pushed_with args ∷ []) (push args w1) (Exactly push_only)
                    (λ b. refl))
                  (answer_push-Promises tries t local cursor))))

  after_pull-Promises :
      (tries : ℕ) (t : Totals) (cursor : Option String) (save_version : Bool) (r : Received)
      (w : d.World)
      → Promises 0 1 (IsAttempt tries t) (after_pull d tries t cursor save_version r w)
  unfolding after_pull
  after_pull-Promises tries t cursor save_version r w =
      then-Promises 0 0 0 1 (IsAttempt tries t) (check_abort d w) _ (check_abort-Promises d w)
        (λ a w1.
          fixed-Promises (rows_cost (count_rows r.changes)) 0 0 0 1 (IsAttempt tries t)
            (apply_pulled d cursor save_version r w1) _
            (apply_pulled-Promises d cursor save_version r w1)
            (λ b w2.
              Promises-mono 0 1 0 1 (IsAttempt tries (counted t r))
                (λ v c. IsAttempt tries t v (plus (rows_cost (count_rows r.changes)) c))
                (push_phase d tries (counted t r) r.cursor w2) (omega arith) (omega arith)
                (IsAttempt-counted tries t r)
                (push_phase-Promises tries (counted t r) r.cursor w2)))

  pub attempt-Promises :
      (tries : ℕ) (t : Totals) (w : d.World)
      → Promises 2 1 (IsAttempt tries t) (attempt d tries t w)
  unfolding attempt
  attempt-Promises tries t w =
      then-Promises 0 0 2 1 (IsAttempt tries t) (check_abort d w) _ (check_abort-Promises d w)
        (λ a w1.
          let cursor = d.get_item cursor_key w1 in
          then-Promises 0 0 2 1 (IsAttempt tries t) (find_migration d cursor w1) _
            (find_migration-Promises d cursor w1)
            (λ info w2.
              then-Promises 2 0 0 1 (IsAttempt tries t)
                (await (pull d (pull_args d cursor info) w2) (receive d)) _
                (then-Promises 1 0 1 0 Costless (pull d (pull_args d cursor info) w2) (receive d)
                  (pull-Promises d (pull_args d cursor info) w2) (receive-Promises d))
                (after_pull-Promises tries t cursor info.should_save_version)))
