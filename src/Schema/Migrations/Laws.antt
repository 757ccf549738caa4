-- ===== src/Schema/Migrations/Laws.antt =====
-- What `schemaMigrations` accepts, and how the paths of `stepsForMigration` fit together.
use mathlib.Core.List.{append_assoc}
use remelon_db.Prelude.{
  ℕ, suc, ◌≡◌, refl, sym, ap, ◌∙◌, true, ◌&&◌, Option, none, some, List, [], ◌∷◌, ◌++◌, arith, ltb,
  leb, filter, length, ◌≤◌, ◌<◌, ◌+◌, ◌-◌, subst,
}
use remelon_db.Prelude.Result.{
  Result, ok, err, guard, ◌>>=◌, ◌>>◌, >>-eq-ok, >>=-eq-ok, guard-eq-ok, ok-injective, err-ne-ok,
}
use remelon_db.Wire.{JsNumber, whole, negative, fraction, non_finite}
use remelon_db.Schema.{SchemaError, not_contiguous, bad_to_version}
use remelon_db.Schema.Tables.{integer_from}
use remelon_db.Schema.Migrations.{
  MigrationStep, MigrationSpec, Migration, SchemaMigrations, follows, check_migrations,
  last_version, bounded, schema_migrations, all_steps, steps_for_migration,
}

-- The migrations lead from version `v` upwards, one version at a time.
abbrev pub IsChain : ℕ → List Migration → Type 0
IsChain v [] = Unit
IsChain v (m ∷ rest) = (m.to_version ≡ suc v) × IsChain (suc v) rest

integer_from_lem : (least : ℕ) (x : JsNumber) (n : ℕ) → integer_from least x ≡ some n → least ≤ n
integer_from_lem least (whole k) n h = ground arith
integer_from_lem least (negative k) n h = ground arith
integer_from_lem least (fraction k) n h = ground arith
integer_from_lem least (non_finite k) n h = ground arith

-- what a successful round of the loop did
check_migrations-parts :
    (previous : Option ℕ) (m : MigrationSpec) (specs : List MigrationSpec) (out : List Migration)
    → check_migrations previous (m ∷ specs) ≡ ok out
    → (v : ℕ) × (rest : List Migration) × (2 ≤ v)
      × (follows previous v ≡ true)
      × (check_migrations (some v) specs ≡ ok rest)
      × (record { to_version = v; steps = m.steps } ∷ rest ≡ out)
unfolding check_migrations
check_migrations-parts previous m specs out h = at (integer_from 2 m.to_version) refl h
  where
    at :
        (o : Option ℕ)
        → integer_from 2 m.to_version ≡ o
        → ◌≡◌ {A = Result SchemaError (List Migration)}
            (elim o [
              | none ↦ err bad_to_version
              | some v ↦
                  guard (follows previous v) not_contiguous
                  >> (check_migrations (some v) specs >>= λ ms.
                      ok (record { to_version = v; steps = m.steps } ∷ ms))
            ])
            (ok out)
        → (v : ℕ) × (rest : List Migration) × (2 ≤ v)
          × (follows previous v ≡ true)
          × (check_migrations (some v) specs ≡ ok rest)
          × (record { to_version = v; steps = m.steps } ∷ rest ≡ out)
    at none e k = cc
    at (some v) e k =
        let (a, k₁) = >>-eq-ok (guard (follows previous v) not_contiguous) _ k in
        let (rest, made, k₂) = >>=-eq-ok (check_migrations (some v) specs) _ k₁ in
        (v, rest, integer_from_lem 2 m.to_version v e, guard-eq-ok _ _ a, made, ok-injective k₂)

check_migrations-IsChain :
    (u : ℕ) (specs : List MigrationSpec) (out : List Migration)
    → check_migrations (some u) specs ≡ ok out
    → IsChain u out
unfolding check_migrations
check_migrations-IsChain u [] out h = subst (IsChain u) (ok-injective h) tt
check_migrations-IsChain u (m ∷ specs) out h =
    let (v, rest, _, f, made, e) = check_migrations-parts (some u) m specs out h in
    let next : v ≡ suc u = ground arith in
    subst (IsChain u) e
      (next, subst (λ w. IsChain w rest) next (check_migrations-IsChain v specs rest made))

last_version-IsChain :
    (m : Migration) (rest : List Migration)
    → IsChain m.to_version rest
    → last_version m rest ≡ m.to_version + length rest
last_version-IsChain m [] h = omega arith
last_version-IsChain m (n ∷ rest) (e, h) =
    last_version-IsChain n rest (subst (λ w. IsChain w rest) (sym e) h) ∙ omega arith

-- A path of versions that starts at 1 or later and misses none.
abbrev pub IsContiguous : SchemaMigrations → Type 0
IsContiguous s =
    (1 ≤ s.min_version)
    × IsChain s.min_version s.migrations
    × (s.max_version ≡ s.min_version + length s.migrations)
    × (s.min_version < s.max_version)

bounded-IsContiguous :
    (m : Migration) (rest : List Migration) (s : SchemaMigrations)
    → 2 ≤ m.to_version
    → IsChain m.to_version rest
    → bounded (m ∷ rest) ≡ ok s
    → IsContiguous s
bounded-IsContiguous m rest s h c e =
    let top : last_version m rest ≡ m.to_version + length rest = last_version-IsChain m rest c in
    let start : suc (m.to_version - 1) ≡ m.to_version = ground arith in
    subst IsContiguous (ok-injective e) (
      ground arith,
      (sym start, subst (λ w. IsChain w rest) (sym start) c),
      ground arith,
      ground arith,
    )

-- Accepted migrations start at a version of at least 1, lead upwards one version at a time, and
-- end at the greatest version: none is missing in between.
pub schema_migrations-IsContiguous :
    (specs : List MigrationSpec) (s : SchemaMigrations)
    → schema_migrations specs ≡ ok s
    → IsContiguous s
unfolding schema_migrations check_migrations
schema_migrations-IsContiguous [] s h = elim (err-ne-ok h) [ ]
schema_migrations-IsContiguous (m ∷ specs) s h =
    let (out, made, e) = >>=-eq-ok (check_migrations none (m ∷ specs)) bounded h in
    let (v, rest, low, _, later, shape) = check_migrations-parts none m specs out made in
    bounded-IsContiguous (record { to_version = v; steps = m.steps }) rest s low
      (check_migrations-IsChain v specs rest later) (ap bounded shape ∙ e)

filter-above :
    (from mid v : ℕ) (ms : List Migration)
    → IsChain v ms
    → mid ≤ v
    → filter (λ m. ltb from m.to_version && leb m.to_version mid) ms ≡ []
filter-above from mid v [] c h = refl
filter-above from mid v (m ∷ ms) (e, c) h = ground (arith, filter-above from mid (suc v) ms c)

filter-split :
    (from mid to v : ℕ) (ms : List Migration)
    → IsChain v ms
    → from ≤ mid
    → mid ≤ to
    → filter (λ m. ltb from m.to_version && leb m.to_version to) ms
      ≡ filter (λ m. ltb from m.to_version && leb m.to_version mid) ms
        ++ filter (λ m. ltb mid m.to_version && leb m.to_version to) ms
filter-split from mid to v [] c h k = refl
filter-split from mid to v (m ∷ ms) (e, c) h k =
    ground (arith, filter-split from mid to (suc v) ms c h k, filter-above from mid (suc v) ms c)

all_steps-append : (xs ys : List Migration) → all_steps (xs ++ ys) ≡ all_steps xs ++ all_steps ys
unfolding all_steps
all_steps-append [] ys = refl
all_steps-append (m ∷ xs) ys =
    ap (λ z. m.steps ++ z) (all_steps-append xs ys)
    ∙ sym (append_assoc m.steps (all_steps xs) (all_steps ys))

abbrev within : ℕ → ℕ → List Migration → List Migration
within from to ms = filter (λ m. ltb from m.to_version && leb m.to_version to) ms

abbrev between : SchemaMigrations → ℕ → ℕ → List MigrationStep
between s from to = all_steps (within from to s.migrations)

steps-between :
    (s : SchemaMigrations) (from to : ℕ)
    → s.min_version ≤ from
    → from < to
    → to ≤ s.max_version
    → steps_for_migration s from to ≡ some (between s from to)
unfolding steps_for_migration
steps-between s from to low h high = ground arith

-- Within the range that accepted migrations cover, every path exists, and a path through an
-- intermediate version is the path to that version followed by the path from it.
pub steps_for_migration_compose :
    (specs : List MigrationSpec) (s : SchemaMigrations) (from mid to : ℕ)
    → schema_migrations specs ≡ ok s
    → s.min_version ≤ from
    → from < mid
    → mid < to
    → to ≤ s.max_version
    → (first : List MigrationStep) × (second : List MigrationStep) × (steps_for_migration s from mid
        ≡ some first)
      × (steps_for_migration s mid to ≡ some second)
      × (steps_for_migration s from to ≡ some (first ++ second))
steps_for_migration_compose specs s from mid to e low h k high =
    let (_, chain, _, _) = schema_migrations-IsContiguous specs s e in
    let joined =
      filter-split from mid to s.min_version s.migrations chain (ground arith) (ground arith) in
    (
      between s from mid,
      between s mid to,
      steps-between s from mid low h (ground arith),
      steps-between s mid to (ground arith) k high,
      steps-between s from to low (ground arith) high
          ∙ ap some (
              ap all_steps joined
              ∙ all_steps-append (within from mid s.migrations) (within mid to s.migrations)),
    )
