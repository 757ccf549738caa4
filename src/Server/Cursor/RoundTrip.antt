-- ===== src/Server/Cursor/RoundTrip.antt =====
-- Cursors are exactly the decimal numerals of the revisions that are safe integers.
use Prim.Native.Char.{Char, code}
use Prim.Native.String
use text.Mathlib.TextEquality.{Char-path}
use text.Mathlib.TextLemmas.{nil-append, cons-append, append_assoc, append-nil}
use text.Mathlib.Text.{◌==◌}
use mathlib.Core.Path.{ap₂, sym, subst}
use mathlib.Core.Bool.{false, true}
use remelon_db.Prelude.{
  ℕ, zero, suc, ◌+◌, ◌-◌, ◌*◌, ◌/◌, ◌%◌, ◌≤◌, ◌<◌, String, ◌≡◌, ◌↔◌, refl, ap, ◌∙◌, Option, none,
  some, arith, ltb, eq_iff, inl, inr, Bool-cases,
}
use remelon_db.Server.Cursor.{
  max_safe_integer, digit, one_char, print_from, print_rev, digits, leading, safe, decode_cursor,
}

code-digit : (d : ℕ) → d < 10 → code (digit d) ≡ b'0' + d
code-digit zero h = refl
code-digit (suc zero) h = refl
code-digit (suc (suc zero)) h = refl
code-digit (suc (suc (suc zero))) h = refl
code-digit (suc (suc (suc (suc zero)))) h = refl
code-digit (suc (suc (suc (suc (suc zero))))) h = refl
code-digit (suc (suc (suc (suc (suc (suc zero)))))) h = refl
code-digit (suc (suc (suc (suc (suc (suc (suc zero))))))) h = refl
code-digit (suc (suc (suc (suc (suc (suc (suc (suc zero)))))))) h = refl
code-digit (suc (suc (suc (suc (suc (suc (suc (suc (suc zero))))))))) h = refl
code-digit (suc (suc (suc (suc (suc (suc (suc (suc (suc (suc n)))))))))) h = absurd (omega arith)

digit-code : (c : Char) (d : ℕ) → d < 10 → code c ≡ b'0' + d → digit d ≡ c
digit-code c d h e = Char-path (digit d) c (omega (arith, code-digit d h))

-- Appending one digit multiplies by ten.
digits-append :
    (acc n : ℕ) (s : String) (d : ℕ)
    → d < 10
    → digits acc s ≡ some n
    → digits acc (String.◌++◌ s (one_char (digit d))) ≡ some (n * 10 + d)
unfolding digits
digits-append acc n String.[] d h e =
    rw (nil-append (one_char (digit d))) (ground (arith, code-digit d h))
digits-append acc n (String.◌∷◌ c s) d h e =
    rw (cons-append c s (one_char (digit d)))
      (ground (arith, digits-append (acc * 10 + (code c - b'0')) n s d h))

leading-append :
    (n : ℕ) (s : String) (d : ℕ)
    → d < 10
    → leading s ≡ some n
    → leading (String.◌++◌ s (one_char (digit d))) ≡ some (n * 10 + d)
unfolding leading
leading-append n String.[] d h e = ground arith
leading-append n (String.◌∷◌ c s) d h e =
    rw (cons-append c s (one_char (digit d)))
      (ground (arith, digits-append (code c - b'0') n s d h))

leading-print_from : (f n : ℕ) → n < f → 0 < n → leading (print_from f n) ≡ some n
unfolding print_from
leading-print_from zero n h p = absurd (omega arith)
leading-print_from (suc f) n h p = elim (Bool-cases (ltb n 10)) [
  | inl small ↦ rw small (unfold leading digits in ground (arith, code-digit n))
  | inr large ↦ rw large (
      leading-append (n / 10) (print_from f (n / 10)) (n % 10) (omega arith)
        (leading-print_from f (n / 10) (ground arith) (ground arith))
      ∙ ap some (omega arith))
]

print_from_stable : (f g n : ℕ) → n < f → n < g → print_from f n ≡ print_from g n
unfolding print_from
print_from_stable zero g n h k = absurd (omega arith)
print_from_stable (suc f) zero n h k = absurd (omega arith)
print_from_stable (suc f) (suc g) n h k = ground (arith, print_from_stable f g (n / 10))

print_from_large :
    (f n : ℕ)
    → 10 ≤ n
    → print_from (suc f) n ≡ String.◌++◌ (print_from f (n / 10)) (one_char (digit (n % 10)))
unfolding print_from
print_from_large f n h = ground arith

-- A further digit is written behind the number's own.
print_rev-snoc :
    (a d : ℕ)
    → 0 < a
    → d < 10
    → print_rev (a * 10 + d) ≡ String.◌++◌ (print_rev a) (one_char (digit d))
unfolding print_rev
print_rev-snoc a d p h =
    print_from_large (a * 10 + d) (a * 10 + d) (omega arith)
    ∙ rw (snoc-div, snoc-mod)
        (ap (λ s. String.◌++◌ s (one_char (digit d)))
          (print_from_stable (a * 10 + d) (suc a) a (omega arith) (omega arith)))
  where
    snoc-div : (a * 10 + d) / 10 ≡ a
    snoc-div = omega arith

    snoc-mod : (a * 10 + d) % 10 ≡ d
    snoc-mod = omega arith

digits-cons :
    (acc n : ℕ) (c : Char) (s : String)
    → digits acc (String.◌∷◌ c s) ≡ some n
    → (b'0' ≤ code c) × (code c ≤ b'9') × (digits (acc * 10 + (code c - b'0')) s ≡ some n)
unfolding digits
digits-cons acc n c s e = ground arith

print_rev-digits :
    (acc n : ℕ) (s : String)
    → 0 < acc
    → digits acc s ≡ some n
    → print_rev n ≡ String.◌++◌ (print_rev acc) s
print_rev-digits acc n String.[] p e =
    sym (append-nil (print_rev acc) ∙ ap print_rev (unfold digits in ground arith))
print_rev-digits acc n (String.◌∷◌ c s) p e =
    let (low, high, rest) = digits-cons acc n c s e in
    let d : ℕ = code c - b'0' in
    let same : digit d ≡ c = digit-code c d (omega arith) (omega arith) in
    print_rev-digits (acc * 10 + d) n s (omega arith) rest
    ∙ ap (λ t. String.◌++◌ t s) (print_rev-snoc acc d p (omega arith))
    ∙ append_assoc (print_rev acc) (one_char (digit d)) s
    ∙ ap (String.◌++◌ (print_rev acc))
        (cons-append (digit d) String.[] s ∙ ap₂ String.◌∷◌ same (nil-append s))

leading-cons :
    (c : Char) (s : String) (n : ℕ)
    → leading (String.◌∷◌ c s) ≡ some n
    → (b'1' ≤ code c) × (code c ≤ b'9') × (digits (code c - b'0') s ≡ some n)
unfolding leading
leading-cons c s n e = ground arith

print_rev_small : (d : ℕ) → d < 10 → print_rev d ≡ one_char (digit d)
unfolding print_rev
print_rev_small d h = ground arith

print_rev-leading : (n : ℕ) (s : String) → leading s ≡ some n → print_rev n ≡ s
print_rev-leading n String.[] e = unfold leading in ground arith
print_rev-leading n (String.◌∷◌ c s) e =
    let (low, high, rest) = leading-cons c s n e in
    let d : ℕ = code c - b'0' in
    let same : digit d ≡ c = digit-code c d (omega arith) (omega arith) in
    print_rev-digits d n s (omega arith) rest
    ∙ ap (λ t. String.◌++◌ t s) (print_rev_small d (omega arith))
    ∙ cons-append (digit d) String.[] s
    ∙ ap₂ String.◌∷◌ same (nil-append s)

leading-print_rev : (n : ℕ) → 0 < n → leading (print_rev n) ≡ some n
unfolding print_rev
leading-print_rev n p = leading-print_from (suc n) n (omega arith) p

print_rev-ne-zero : (n : ℕ) → 0 < n → (print_rev n == "0") ≡ false
print_rev-ne-zero n p = elim (Bool-cases (print_rev n == "0")) [
  | inl same ↦
      let e : leading "0" ≡ some n =
        subst (λ t. leading t ≡ some n) ((eq_iff (print_rev n) "0").0 same)
          (leading-print_rev n p) in
      unfold leading in ground arith
  | inr other ↦ other
]

-- The revision that a cursor was issued for comes back from it.
pub decode_cursor-print_rev :
    (rev : ℕ) → rev ≤ max_safe_integer → decode_cursor (print_rev rev) ≡ some rev
unfolding decode_cursor
decode_cursor-print_rev zero h = unfold print_rev in refl
decode_cursor-print_rev (suc n) h =
    rw (print_rev-ne-zero (suc n) (omega arith), leading-print_rev (suc n) (omega arith))
      (ground arith)

safe-eq-some : (o : Option ℕ) (n : ℕ) → safe o ≡ some n → (o ≡ some n) × (n ≤ max_safe_integer)
unfolding safe
safe-eq-some none n e = cc
safe-eq-some (some m) n e = ground arith

pub print_rev-decode_cursor :
    (cursor : String) (rev : ℕ)
    → decode_cursor cursor ≡ some rev
    → (cursor ≡ print_rev rev) × (rev ≤ max_safe_integer)
unfolding decode_cursor
print_rev-decode_cursor cursor rev e = elim (Bool-cases (cursor == "0")) [
  | inl same ↦
      ((eq_iff cursor "0").0 same ∙ unfold print_rev in ap print_rev (zero-eq same), ground arith)
  | inr other ↦
      let (led, fits) = safe-eq-some (leading cursor) rev (ground arith) in
      (sym (print_rev-leading rev cursor led), fits)
]
  where
    zero-eq : (cursor == "0") ≡ true → 0 ≡ rev
    zero-eq same = ground arith

-- A text is accepted as a cursor for `rev` exactly when it is the numeral that the engine writes
-- for it and `rev` is a safe integer: "", "007", "0x10" and " 1" name no revision.
pub decode_cursor_iff :
    (cursor : String) (rev : ℕ)
    → (decode_cursor cursor ≡ some rev) ↔ ((cursor ≡ print_rev rev) × (rev ≤ max_safe_integer))
decode_cursor_iff cursor rev =
    (print_rev-decode_cursor cursor rev, λ h. rw h.0 (decode_cursor-print_rev rev h.1))
