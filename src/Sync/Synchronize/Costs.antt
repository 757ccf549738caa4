-- ===== src/Sync/Synchronize/Costs.antt =====
-- Counting what a run does, and what a computation promises about it.
use remelon_db.Prelude.{ℕ, ◌+◌, ◌≤◌, ◌≡◌, refl, sym, subst, ap, ◌∙◌, List, [], ◌∷◌, ◌++◌, arith}
use remelon_db.Prelude.Result.{Result, ok, err, ok-injective, err-ne-ok}
use remelon_db.Sync.Synchronize.{
  Failure, Call, pulled_with, pushed_with, applied, marked, count_rows, Outcome, return, throw,
  perform, await,
}

unfoldable pub total : (Call → ℕ) → List Call → ℕ
total cost [] = 0
total cost (c ∷ calls) = cost c + total cost calls

pub total-append :
    (cost : Call → ℕ) (xs ys : List Call) → total cost (xs ++ ys) ≡ total cost xs + total cost ys
unfolding total
total-append cost [] ys = omega arith
total-append cost (c ∷ xs) ys = omega (arith, total-append cost xs ys)

abbrev pub pull_cost : Call → ℕ
pull_cost (pulled_with args) = 1
pull_cost call = 0

abbrev pub push_cost : Call → ℕ
push_cost (pushed_with args) = 1
push_cost call = 0

abbrev pub mark_cost : Call → ℕ
mark_cost (marked local) = 1
mark_cost call = 0

-- the remote rows that are applied
abbrev pub row_cost : Call → ℕ
row_cost (applied changes) = count_rows changes
row_cost call = 0

-- the local rows that are marked
abbrev pub marked_cost : Call → ℕ
marked_cost (marked local) = count_rows local.changes
marked_cost call = 0

pub record Costs : Type 0 where
  pub rows : ℕ
  pub marked_rows : ℕ
  pub pushes : ℕ
  pub marks : ℕ

unfoldable pub costs : List Call → Costs
unfolding total count_rows
costs calls = record {
  rows = total row_cost calls;
  marked_rows = total marked_cost calls;
  pushes = total push_cost calls;
  marks = total mark_cost calls;
}

abbrev pub plus : Costs → Costs → Costs
plus a b = record {
  rows = a.rows + b.rows;
  marked_rows = a.marked_rows + b.marked_rows;
  pushes = a.pushes + b.pushes;
  marks = a.marks + b.marks;
}

pub costs-append : (xs ys : List Call) → costs (xs ++ ys) ≡ plus (costs xs) (costs ys)
unfolding costs
costs-append xs ys = rw (total-append row_cost xs ys) (
    rw (total-append marked_cost xs ys)
      (rw (total-append push_cost xs ys) (rw (total-append mark_cost xs ys) refl)))

abbrev pub free : Costs
free = record { rows = 0; marked_rows = 0; pushes = 0; marks = 0 }

-- at most so many pulls and pushes, and `Q` of what is returned and what that cost
pub record Promises {World A : Type 0} (pulls pushes : ℕ) (Q : A → Costs → Type 0)
    (o : Outcome World A) : Type 0 where
  pub few_pulls : total pull_cost o.calls ≤ pulls
  pub few_pushes : total push_cost o.calls ≤ pushes
  pub returns : (a : A) → o.result ≡ ok a → Q a (costs o.calls)

module _ {World : Type 0} where
  pub return-Promises :
      {A : Type 0} (pulls pushes : ℕ) (Q : A → Costs → Type 0) (a : A) (w : World)
      → Q a free
      → Promises pulls pushes Q (return a w)
  unfolding total costs
  return-Promises pulls pushes Q a w q = record {
    few_pulls = omega arith;
    few_pushes = omega arith;
    returns = λ b e. subst (λ x. Q x free) (ok-injective e) q;
  }

  pub throw-Promises :
      {A : Type 0} (pulls pushes : ℕ) (Q : A → Costs → Type 0) (e : Failure) (w : World)
      → Promises {A = A} pulls pushes Q (throw e w)
  unfolding total
  throw-Promises pulls pushes Q e w = record {
    few_pulls = omega arith;
    few_pushes = omega arith;
    returns = λ b thrown. elim (err-ne-ok thrown) [ ];
  }

  -- one operation, which counts as the calls
  pub perform-Promises :
      {A : Type 0} (calls : List Call) (out : World × Result Failure A) (Q : A → Costs → Type 0)
      → ((a : A) → Q a (costs calls))
      → Promises (total pull_cost calls) (total push_cost calls) Q (perform calls out)
  perform-Promises calls (w, result) Q q = record {
    few_pulls = omega arith;
    few_pushes = omega arith;
    returns = λ a e. q a;
  }

  -- one computation after another
  pub await-Promises :
      {A B : Type 0} (p q m n : ℕ) (Q : A → Costs → Type 0) (R : B → Costs → Type 0)
      (o : Outcome World A) (next : A → World → Outcome World B)
      → Promises p q Q o
      → ((a : A) (w : World) (c : Costs)
          → Q a c
          → Promises m n (λ b later. R b (plus c later)) (next a w))
      → Promises (p + m) (q + n) R (await o next)
  unfolding await
  await-Promises {A} {B} p q m n Q R o next first rest = at o.result refl
    where
      at :
          (res : Result Failure A)
          → o.result ≡ res
          → Promises {A = B} (p + m) (q + n) R (elim res [
            | err e ↦ record { world = o.world; calls = o.calls; result = err e }
            | ok a ↦ record {
              world = (next a o.world).world;
              calls = o.calls ++ (next a o.world).calls;
              result = (next a o.world).result;
            }
          ])
      at (err e) same = record {
        few_pulls = omega (arith, first.few_pulls);
        few_pushes = omega (arith, first.few_pushes);
        returns = λ b thrown. elim (err-ne-ok thrown) [ ];
      }
      at (ok a) same =
          let later = next a o.world in
          let k = rest a o.world (costs o.calls) (first.returns a same) in
          record {
            few_pulls =
                omega
                  (arith, first.few_pulls, k.few_pulls, total-append pull_cost o.calls later.calls);
            few_pushes =
                omega (
                  arith,
                  first.few_pushes,
                  k.few_pushes,
                  total-append push_cost o.calls later.calls,
                );
            returns = λ b e. subst (R b) (sym (costs-append o.calls later.calls)) (k.returns b e);
          }

-- nothing was applied, pushed or marked
abbrev pub Costless : {A : Type 0} → A → Costs → Type 0
Costless a c = c ≡ free

zero_plus : (n : ℕ) → 0 + n ≡ n
zero_plus n = omega arith

pub plus-free : (c : Costs) → plus free c ≡ c
plus-free c =
    rw (zero_plus c.rows)
      (rw (zero_plus c.marked_rows) (rw (zero_plus c.pushes) (rw (zero_plus c.marks) refl)))

module _ {World : Type 0} where
  pub Promises-mono :
      {A : Type 0} (p q m n : ℕ) (Q R : A → Costs → Type 0) (o : Outcome World A)
      → p ≤ m
      → q ≤ n
      → ((a : A) (c : Costs) → Q a c → R a c)
      → Promises p q Q o
      → Promises m n R o
  Promises-mono p q m n Q R o le_p le_q f k = record {
    few_pulls = omega (arith, k.few_pulls, le_p);
    few_pushes = omega (arith, k.few_pushes, le_q);
    returns = λ a e. f a (costs o.calls) (k.returns a e);
  }

  -- a computation without a cost, and then another
  pub then-Promises :
      {A B : Type 0} (p q m n : ℕ) (R : B → Costs → Type 0) (o : Outcome World A)
      (next : A → World → Outcome World B)
      → Promises p q Costless o
      → ((a : A) (w : World) → Promises m n R (next a w))
      → Promises (p + m) (q + n) R (await o next)
  then-Promises p q m n R o next first rest =
      await-Promises p q m n Costless R o next first (λ a w c nothing.
        Promises-mono m n m n R (λ b later. R b (plus c later)) (next a w) (omega arith)
          (omega arith)
          (λ b later r. subst (R b) (sym (ap (λ x. plus x later) nothing ∙ plus-free later)) r)
          (rest a w))

plus_zero : (n : ℕ) → n + 0 ≡ n
plus_zero n = omega arith

pub plus-free-right : (c : Costs) → plus c free ≡ c
plus-free-right c =
    rw (plus_zero c.rows)
      (rw (plus_zero c.marked_rows) (rw (plus_zero c.pushes) (rw (plus_zero c.marks) refl)))

-- the cost is the one that is given
abbrev pub Exactly : {A : Type 0} → Costs → A → Costs → Type 0
Exactly k a c = c ≡ k

module _ {World : Type 0} where
  -- a computation with a known cost, and then another
  pub fixed-Promises :
      {A B : Type 0} (k : Costs) (p q m n : ℕ) (R : B → Costs → Type 0) (o : Outcome World A)
      (next : A → World → Outcome World B)
      → Promises p q (Exactly k) o
      → ((a : A) (w : World) → Promises m n (λ b later. R b (plus k later)) (next a w))
      → Promises (p + m) (q + n) R (await o next)
  fixed-Promises k p q m n R o next first rest =
      await-Promises p q m n (Exactly k) R o next first (λ a w c same.
        Promises-mono m n m n (λ b later. R b (plus k later)) (λ b later. R b (plus c later))
          (next a w) (omega arith) (omega arith)
          (λ b later r. subst (λ x. R b (plus x later)) (sym same) r) (rest a w))

  -- after a cost that is known, one that costs nothing
  pub nothing-more :
      {A : Type 0} (k : Costs) (o : Outcome World A)
      → Promises 0 0 Costless o
      → Promises 0 0 (λ a c. plus k c ≡ k) o
  nothing-more k o =
      Promises-mono 0 0 0 0 Costless (λ a c. plus k c ≡ k) o (omega arith) (omega arith)
        (λ a c nothing. ap (plus k) nothing ∙ plus-free-right k)

  -- the same, where the first computation makes no pull and no push
  pub after-Promises :
      {A B : Type 0} (m n : ℕ) (R : B → Costs → Type 0) (o : Outcome World A)
      (next : A → World → Outcome World B)
      → Promises 0 0 Costless o
      → ((a : A) (w : World) → Promises m n R (next a w))
      → Promises m n R (await o next)
  after-Promises m n R o next first rest =
      Promises-mono (0 + m) (0 + n) m n R R (await o next) (omega arith) (omega arith) (λ b c r. r)
        (then-Promises 0 0 m n R o next first rest)
