-- ===== src/Prelude/Split.antt =====
-- `split` by one character, and its round trip with `join`.
use Prim.Native.Nat.{ℕ}
use Prim.Native.Char.{Char, code}
use Prim.Native.String.{String}
use text.Mathlib.TextLemmas.{nil-append, cons-append, append-nil}
use mathlib.Core.Path.{◌≡◌, refl, ap, sym, ◌∙◌}
use mathlib.Core.Bool.{Bool, true, false, not, ◌&&◌}
use mathlib.Core.List.{List, [], ◌∷◌}
use native.Mathlib.Omega.{arith}
use package.remelon_db.Prelude.Tests.{eqb, and_right, if◌then◌else◌}
use package.remelon_db.Prelude.Lists.{All}
use package.remelon_db.Prelude.Text.{◌+++◌, all_codes, join}

abbrev pub onto_head : Char → List String → List String
onto_head c [] = []
onto_head c (w ∷ ws) = String.◌∷◌ c w ∷ ws

-- s.split(sep)
unfoldable pub split : ℕ → String → List String
split sep String.[] = "" ∷ []
split sep (String.◌∷◌ c s) =
    let rest = split sep s in if eqb (code c) sep then "" ∷ rest else onto_head c rest

-- The separator does not occur.
abbrev pub lacks : ℕ → String → Bool
lacks sep s = all_codes (λ n. not (eqb n sep)) s

abbrev pub AreWords : ℕ → List String → Type 0
AreWords sep ws = All (λ w. lacks sep w ≡ true) ws

pub split-AreWords : (sep : ℕ) (s : String) → AreWords sep (split sep s)
unfolding split all_codes
split-AreWords sep String.[] = (refl, tt)
split-AreWords sep (String.◌∷◌ c s) =
    at (eqb (code c) sep) refl (split sep s) (split-AreWords sep s)
  where
    at :
        (b : Bool)
        → eqb (code c) sep ≡ b
        → (ws : List String) → AreWords sep ws
        → AreWords sep (if b then "" ∷ ws else onto_head c ws)
    at true e ws h = (refl, h)
    at false e [] h = tt
    at false e (w ∷ ws) (p, h) = (ap (λ b. not b && lacks sep w) e ∙ p, h)

abbrev onto_front : String → List String → List String
onto_front s [] = []
onto_front s (w ∷ ws) = (s +++ w) ∷ ws

onto_front-nil : (ws : List String) → onto_front "" ws ≡ ws
onto_front-nil [] = refl
onto_front-nil (w ∷ ws) = ap (λ z. z ∷ ws) (nil-append w)

onto_head-onto_front :
    (c : Char) (s : String) (ws : List String)
    → onto_head c (onto_front s ws) ≡ onto_front (String.◌∷◌ c s) ws
onto_head-onto_front c s [] = refl
onto_head-onto_front c s (w ∷ ws) = ap (λ z. z ∷ ws) (sym (cons-append c s w))

split-append :
    (sep : ℕ) (w s : String) → lacks sep w ≡ true → split sep (w +++ s) ≡ onto_front w (split sep s)
unfolding split all_codes
split-append sep String.[] s h = ap (split sep) (nil-append s) ∙ sym (onto_front-nil (split sep s))
split-append sep (String.◌∷◌ c w) s h =
    let other : eqb (code c) sep ≡ false = ground arith in
    let rest : lacks sep w ≡ true = and_right (not (eqb (code c) sep)) _ h in
    ap (split sep) (cons-append c w s)
    ∙ ap (λ b. if b then "" ∷ split sep (w +++ s) else onto_head c (split sep (w +++ s))) other
    ∙ ap (onto_head c) (split-append sep w s rest)
    ∙ onto_head-onto_front c w (split sep s)

split-separator :
    (sep : Char) (s : String) → split (code sep) (String.◌∷◌ sep "" +++ s) ≡ "" ∷ split (code sep) s
unfolding split
split-separator sep s =
    let same : eqb (code sep) (code sep) ≡ true = ground arith in
    ap (split (code sep)) (cons-append sep "" s ∙ ap (λ z. String.◌∷◌ sep z) (nil-append s))
    ∙ ap (λ b. if b then "" ∷ split (code sep) s else onto_head sep (split (code sep) s)) same

-- Words without the separator come back from the text that `join` makes of them.
pub split-join :
    (sep : Char) (w : String) (ws : List String)
    → AreWords (code sep) (w ∷ ws)
    → split (code sep) (join (String.◌∷◌ sep "") (w ∷ ws)) ≡ w ∷ ws
unfolding split join
split-join sep w [] (h, _) =
    ap (split (code sep)) (sym (append-nil w))
    ∙ split-append (code sep) w "" h
    ∙ ap (λ z. z ∷ []) (append-nil w)
split-join sep w (v ∷ ws) (h, k) =
    let rest = join (String.◌∷◌ sep "") (v ∷ ws) in
    split-append (code sep) w (String.◌∷◌ sep "" +++ rest) h
    ∙ ap (onto_front w) (split-separator sep rest ∙ ap (λ z. "" ∷ z) (split-join sep v ws k))
    ∙ ap (λ z. z ∷ v ∷ ws) (append-nil w)

-- A word before a separator is split off.
pub split-word :
    (sep : Char) (w s : String)
    → lacks (code sep) w ≡ true
    → split (code sep) (w +++ (String.◌∷◌ sep "" +++ s)) ≡ w ∷ split (code sep) s
split-word sep w s h =
    split-append (code sep) w (String.◌∷◌ sep "" +++ s) h
    ∙ ap (onto_front w) (split-separator sep s)
    ∙ ap (λ z. z ∷ split (code sep) s) (append-nil w)
