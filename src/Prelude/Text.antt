-- ===== src/Prelude/Text.antt =====
-- Texts: tests on every character, prefixes, and `join`.
use Prim.Native.Nat.{ℕ, ◌+◌}
use Prim.Native.Char.{code}
use Prim.Native.String
use Prim.Native.String.{String}
use text.Mathlib.TextLemmas.{nil-append, cons-append}
use mathlib.Core.Path.{◌≡◌, refl, ap, ◌∙◌}
use mathlib.Core.Bool.{Bool, true, false, ◌&&◌}
use mathlib.Core.List.{List, [], ◌∷◌}
use native.Mathlib.Omega.{arith}
use package.remelon_db.Prelude.Tests.{eqb, if◌then◌else◌}

-- s + t
infixl 65 ◌+++◌
abbrev pub ◌+++◌ : String → String → String
s +++ t = String.◌++◌ s t

-- every code point passes the test
unfoldable pub all_codes : (ℕ → Bool) → String → Bool
all_codes p String.[] = true
all_codes p (String.◌∷◌ c s) = p (code c) && all_codes p s

-- the number of occurrences of a code point
unfoldable pub count_code : ℕ → String → ℕ
count_code k String.[] = 0
count_code k (String.◌∷◌ c s) = (if eqb (code c) k then 1 else 0) + count_code k s

-- s.startsWith(prefix)
unfoldable pub starts_with : String → String → Bool
starts_with s String.[] = true
starts_with String.[] (String.◌∷◌ d prefix) = false
starts_with (String.◌∷◌ c s) (String.◌∷◌ d prefix) = eqb (code c) (code d) && starts_with s prefix

-- words.join(sep)
unfoldable pub join : String → List String → String
join sep [] = ""
join sep (w ∷ ws) = elim ws [ [] ↦ w | _ ∷ _ ↦ w +++ (sep +++ join sep ws) ]

pub all_codes-append :
    (p : ℕ → Bool) (s t : String) → all_codes p (s +++ t) ≡ (all_codes p s && all_codes p t)
unfolding all_codes
all_codes-append p String.[] t = ap (all_codes p) (nil-append t)
all_codes-append p (String.◌∷◌ c s) t =
    ap (all_codes p) (cons-append c s t) ∙ ground (arith, all_codes-append p s t)

pub count_code-append :
    (k : ℕ) (s t : String) → count_code k (s +++ t) ≡ count_code k s + count_code k t
unfolding count_code
count_code-append k String.[] t = ap (count_code k) (nil-append t) ∙ omega arith
count_code-append k (String.◌∷◌ c s) t =
    ap (count_code k) (cons-append c s t) ∙ ground (arith, count_code-append k s t)

pub all_codes_mono :
    (p q : ℕ → Bool) (s : String)
    → ((n : ℕ) → p n ≡ true → q n ≡ true)
    → all_codes p s ≡ true
    → all_codes q s ≡ true
unfolding all_codes
all_codes_mono p q String.[] f h = refl
all_codes_mono p q (String.◌∷◌ c s) f h =
    let first : p (code c) ≡ true = ground arith in
    let rest : all_codes p s ≡ true = ground arith in
    ap (λ b. b && all_codes q s) (f (code c) first) ∙ all_codes_mono p q s f rest
