-- ===== src/Prelude/Ids.antt =====
-- JavaScript's `Map` with numbers that a counter hands out as keys, in insertion order.
use Prim.Native.Nat.{ℕ, ◌+◌, ◌<◌}
use mathlib.Core.Path.{◌≡◌, refl, subst}
use mathlib.Core.Bool.{Bool, true, false}
use mathlib.Core.Option.{Option, none, some}
use mathlib.Core.List.{List, [], ◌∷◌, ◌++◌}
use native.Mathlib.Omega.{arith}
use package.remelon_db.Prelude.Tests.{if◌then◌else◌, eqb, eqb_iff, some-injective, if_cases}
use package.remelon_db.Prelude.Lists.{All, All-mono}

module _ {ℓ} {V : Type ℓ} where
  -- m.get(k)
  unfoldable pub get_at : ℕ → List (ℕ × V) → Option V
  get_at k [] = none
  get_at k ((j, v) ∷ m) = if eqb j k then some v else get_at k m

  -- m.set(k, v)
  unfoldable pub set_at : ℕ → V → List (ℕ × V) → List (ℕ × V)
  set_at k v [] = (k, v) ∷ []
  set_at k v ((j, w) ∷ m) = if eqb j k then (k, v) ∷ m else (j, w) ∷ set_at k v m

  -- m.delete(k)
  unfoldable pub remove_at : ℕ → List (ℕ × V) → List (ℕ × V)
  remove_at k [] = []
  remove_at k ((j, v) ∷ m) = if eqb j k then m else (j, v) ∷ remove_at k m

  -- every key is one that the counter has handed out
  abbrev pub AreBelow : ℕ → List (ℕ × V) → Type 0
  AreBelow k m = All (λ e. e.0 < k) m

  -- A new key goes to the end.
  pub set_at-new :
      (k : ℕ) (v : V) (m : List (ℕ × V)) → AreBelow k m → set_at k v m ≡ m ++ ((k, v) ∷ [])
  unfolding set_at
  set_at-new k v [] h = refl
  set_at-new k v ((j, w) ∷ m) (lt, h) = ground (arith, set_at-new k v m h)

  pub get_at-new : (k : ℕ) (m : List (ℕ × V)) → AreBelow k m → get_at k m ≡ none
  unfolding get_at
  get_at-new k [] h = refl
  get_at-new k ((j, w) ∷ m) (lt, h) = ground (arith, get_at-new k m h)

  pub All-remove_at {κ} :
      (P : ℕ × V → Type κ) (k : ℕ) (m : List (ℕ × V)) → All P m → All P (remove_at k m)
  unfolding remove_at
  All-remove_at P k [] h = tt
  All-remove_at P k ((j, v) ∷ m) (p, h) = keep (eqb j k) (All-remove_at P k m h)
    where
      keep : (b : Bool) → All P (remove_at k m) → All P (if b then m else (j, v) ∷ remove_at k m)
      keep true r = h
      keep false r = (p, r)

  pub All-get_at {κ} :
      (P : ℕ × V → Type κ) (k : ℕ) (m : List (ℕ × V)) {v : V}
      → get_at k m ≡ some v
      → All P m
      → P (k, v)
  unfolding get_at
  All-get_at P k [] e h = cc
  All-get_at P k ((j, w) ∷ m) {v} e (p, h) = at (eqb j k) (λ found. All-get_at P k m found h) refl e
    where
      at :
          (b : Bool)
          → (get_at k m ≡ some v → P (k, v))
          → eqb j k ≡ b
          → (if b then some w else get_at k m) ≡ some v
          → P (k, v)
      at true rest same found =
          subst (λ x. P (k, x)) (some-injective found)
            (subst (λ i. P (i, w)) ((eqb_iff j k).0 same) p)
      at false rest other found = rest found

  pub get_at-set_at :
      (k j : ℕ) (v : V) (m : List (ℕ × V))
      → get_at j (set_at k v m) ≡ (if eqb k j then some v else get_at j m)
  unfolding get_at set_at
  get_at-set_at k j v [] = refl
  get_at-set_at k j v ((i, w) ∷ m) = ground (arith, get_at-set_at k j v m)

  -- What is not there is not there after a key was deleted.
  pub get_at-remove_at-none :
      (k j : ℕ) (m : List (ℕ × V)) → get_at k m ≡ none → get_at k (remove_at j m) ≡ none
  unfolding get_at remove_at
  get_at-remove_at-none k j [] h = refl
  get_at-remove_at-none k j ((i, w) ∷ m) h = ground (arith, get_at-remove_at-none k j m)

  pub remove_at-none : (k : ℕ) (m : List (ℕ × V)) → get_at k m ≡ none → remove_at k m ≡ m
  unfolding get_at remove_at
  remove_at-none k [] h = refl
  remove_at-none k ((i, w) ∷ m) h = ground (arith, remove_at-none k m)

  pub AreBelow-set_at :
      (n k : ℕ) (v : V) (m : List (ℕ × V)) → k < n → AreBelow n m → AreBelow n (set_at k v m)
  unfolding set_at
  AreBelow-set_at n k v [] lt h = (lt, tt)
  AreBelow-set_at n k v ((j, w) ∷ m) lt (p, h) =
      if_cases (AreBelow n) (eqb j k) (λ same. (lt, h)) (λ other. (p, AreBelow-set_at n k v m lt h))

  pub AreBelow-suc : (n : ℕ) (m : List (ℕ × V)) → AreBelow n m → AreBelow (n + 1) m
  AreBelow-suc n m h = All-mono (λ e. e.0 < n) (λ e. e.0 < n + 1) (λ e lt. omega arith) m h
