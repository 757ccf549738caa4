-- ===== src/Sync/Synchronize/Report.antt =====
-- What `runSynchronize` reports.
use remelon_db.Prelude.{
  ℕ, ◌+◌, ◌*◌, ◌<◌, refl, ap, ◌∙◌, zero, suc, false, [], arith, if_cases, option_cases,
}
use remelon_db.Sync.Synchronize.{
  minus, still_conflicting, SynchronizeResult, Device, return, perform,
}
use remelon_db.Sync.Synchronize.Run.{Totals, Verdict, finished, retry, count_ids, check_abort}
use remelon_db.Sync.Synchronize.Attempts.{
  unavailable_result, attempt, attempts, retries, run_synchronize,
}
use remelon_db.Sync.Synchronize.Costs.{
  Costs, costs, plus, free, total, Promises, return-Promises, throw-Promises, perform-Promises,
  await-Promises, Costless, Promises-mono, after-Promises,
}
use remelon_db.Sync.Synchronize.Steps.{check_abort-Promises}
use remelon_db.Sync.Synchronize.Verdicts.{IsTrue, IsAttempt, attempt-Promises}

module _ (d : Device) where
  -- what the attempts that are left report
  abbrev pub IsReport : ℕ → ℕ → Totals → SynchronizeResult → Costs → Type 0
  IsReport left tries t r c = IsTrue tries t.pulled r c × (r.retry_count < tries + left)

  finished-IsReport :
      (left tries : ℕ) (t : Totals) (r : SynchronizeResult) (c : Costs)
      → IsAttempt tries t (finished r) c
      → IsReport (left + 1) tries t r (plus c free)
  finished-IsReport left tries t r c (k, again) = (
    record {
      pulled_rows = omega (arith, k.pulled_rows);
      pushed_rows = k.pushed_rows ∙ ap (λ n. minus n r.rejected) (omega arith);
      rejections = k.rejections;
      one_mark = omega (arith, k.one_mark);
      tried = k.tried;
      one_push_each = omega (arith, k.one_push_each);
    },
    omega (arith, again),
  )

  retry-IsReport :
      (left tries : ℕ) (t u : Totals) (r : SynchronizeResult) (c later : Costs)
      → IsAttempt tries t (retry u) c
      → IsReport left (tries + 1) u r later
      → IsReport (left + 1) tries t r (plus c later)
  retry-IsReport left tries t u r c later (pulls, pushes, marks, marked_rows) (k, few) = (
    record {
      pulled_rows = omega (arith, pulls, k.pulled_rows);
      pushed_rows = k.pushed_rows ∙ ap (λ n. minus n r.rejected) (omega (arith, marked_rows));
      rejections = k.rejections;
      one_mark = omega (arith, marks, k.one_mark);
      tried = omega (arith, k.tried);
      one_push_each = omega (arith, pushes, k.one_push_each);
    },
    omega (arith, few),
  )

  attempts-Promises :
      (left tries : ℕ) (t : Totals) (w : d.World)
      → Promises (2 * left) left (IsReport left tries t) (attempts d left tries t w)
  unfolding attempts
  attempts-Promises zero tries t w =
      throw-Promises 0 0 (IsReport 0 tries t) (still_conflicting tries) w
  attempts-Promises (suc left) tries t w =
      let R = IsReport (left + 1) tries t in
      Promises-mono (2 + 2 * left) (1 + left) (2 * suc left) (suc left) R
        (IsReport (suc left) tries t) (attempts d (suc left) tries t w) (omega arith) (omega arith)
        (λ r c (k, few). (k, omega (arith, few)))
        (await-Promises 2 1 (2 * left) left (IsAttempt tries t) R (attempt d tries t w) _
          (attempt-Promises d tries t w) (next (λ u w1. attempts-Promises left (tries + 1) u w1)))
    where
      next :
          ((u : Totals) (w1 : d.World)
            → Promises
                (2 * left)
                left
                (IsReport left (tries + 1) u)
                (attempts d left (tries + 1) u w1))
          → (v : Verdict) (w1 : d.World) (c : Costs) → IsAttempt tries t v c
          → Promises
              (2 * left)
              left
              (λ r later. IsReport (left + 1) tries t r (plus c later))
              (elim v [ finished r ↦ return r w1 | retry u ↦ attempts d left (tries + 1) u w1 ])
      next again (finished r) w1 c k =
          return-Promises (2 * left) left (λ x later. IsReport (left + 1) tries t x (plus c later))
            r w1 (finished-IsReport left tries t r c k)
      next again (retry u) w1 c k =
          Promises-mono (2 * left) left (2 * left) left (IsReport left (tries + 1) u)
            (λ r later. IsReport (left + 1) tries t r (plus c later))
            (attempts d left (tries + 1) u w1) (omega arith) (omega arith)
            (λ r later rest. retry-IsReport left tries t u r c later k rest) (again u w1)

  -- what a run reports
  abbrev pub IsRunReport : SynchronizeResult → Costs → Type 0
  IsRunReport r c = IsTrue 0 0 r c × (r.retry_count < retries d)

  start-Promises :
      (w : d.World)
      → Promises
          (2 * retries d)
          (retries d)
          IsRunReport
          (attempts d (retries d) 0 (record { resynced = false; pulled = 0 }) w)
  start-Promises w =
      let t : Totals = record { resynced = false; pulled = 0 } in
      Promises-mono (2 * retries d) (retries d) (2 * retries d) (retries d)
        (IsReport (retries d) 0 t) IsRunReport (attempts d (retries d) 0 t w) (omega arith)
        (omega arith) (λ r c (k, few). (k, omega (arith, few)))
        (attempts-Promises (retries d) 0 t w)

  denied_report : IsRunReport unavailable_result free
  unfolding count_ids
  denied_report = (
    record {
      pulled_rows = omega arith;
      pushed_rows = refl;
      rejections = refl;
      one_mark = omega arith;
      tried = omega arith;
      one_push_each = omega arith;
    },
    omega arith,
  )

  -- Whatever the server answers, whatever others write to the database meanwhile and wherever a run
  -- fails: it makes at most two pulls and one push for each attempt it is allowed. The result that
  -- it returns reports as pulled the remote rows that were applied, as pushed the local rows that
  -- were marked less the rejected ones, and as rejected the ids it lists; the local changes were
  -- marked at most once, and there was at most one push more than the retries it reports, which are
  -- fewer than the attempts.
  pub synchronize_reports :
      (w : d.World) → Promises (2 * retries d) (retries d) IsRunReport (run_synchronize d w)
  unfolding run_synchronize total costs
  synchronize_reports w =
      let n = retries d in
      after-Promises (2 * n) n IsRunReport (check_abort d w) _ (check_abort-Promises d w) (λ a w1.
        option_cases (Promises (2 * n) n IsRunReport) d.request_sync_turn
          (λ no_lease. start-Promises w1)
          (λ request leased.
            after-Promises (2 * n) n IsRunReport (perform [] (request w1)) _
              (perform-Promises [] (request w1) Costless (λ b. refl))
              (λ granted w2.
                if_cases (Promises (2 * n) n IsRunReport) granted (λ yes_granted. start-Promises w2)
                  (λ denied.
                    return-Promises (2 * n) n IsRunReport unavailable_result w2 denied_report))))
