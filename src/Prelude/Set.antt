-- ===== src/Prelude/Set.antt =====
-- JavaScript's `Set` of strings as a list without repetitions, and membership in lists of strings.
use Prim.Native.String.{String}
use mathlib.Core.Path.{◌≡◌, refl}
use mathlib.Core.Bool.{Bool, false, not, ◌&&◌, ◌||◌}
use mathlib.Core.List.{List, [], ◌∷◌, ◌++◌}
use native.Mathlib.Omega.{arith}
use text.Mathlib.Text.{◌==◌}
use text.Mathlib.TextEquality.{eq_iff}
use package.remelon_db.Prelude.Lists.{filter}

-- xs.includes(x), set.has(x)
unfoldable pub member : String → List String → Bool
member x [] = false
member x (y ∷ ys) = y == x || member x ys

-- [...new Set(xs)]: the first occurrences, in order
unfoldable pub unique : List String → List String
unique [] = []
unique (x ∷ xs) = x ∷ filter (λ y. not (y == x)) (unique xs)

pub member-append :
    (x : String) (ys zs : List String) → member x (ys ++ zs) ≡ member x ys || member x zs
unfolding member
member-append x [] zs = refl
member-append x (y ∷ ys) zs = ground (arith, member-append x ys zs)

pub member-filter :
    (x : String) (p : String → Bool) (ys : List String)
    → member x (filter p ys) ≡ member x ys && p x
unfolding member
member-filter x p [] = refl
member-filter x p (y ∷ ys) = ground (arith, member-filter x p ys, eq_iff y x)

pub member-unique : (x : String) (ys : List String) → member x (unique ys) ≡ member x ys
unfolding member unique
member-unique x [] = refl
member-unique x (y ∷ ys) = ground (
  arith,
  member-filter x (λ z. not (z == y)) (unique ys),
  member-unique x ys,
  eq_iff y x,
  eq_iff x y,
)
