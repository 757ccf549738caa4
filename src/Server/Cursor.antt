-- ===== src/Server/Cursor.antt =====
-- The cursor codec of packages/server/src/engine.ts: `String(rev)` and `decodeCursor`. A cursor is
-- read character by character; a decimal that is too large for a safe integer is refused, as
-- `Number.isSafeInteger` refuses the double that it is rounded to.
pub mod RoundTrip
use Prim.Native.Char.{Char, code}
use Prim.Native.String
use remelon_db.Prelude.{
  ℕ, zero, suc, ◌+◌, ◌-◌, ◌*◌, ◌/◌, ◌%◌, ◌^◌, String, Bool, true, false, ◌&&◌, Option, none, some,
  ltb, leb, ◌==◌, if◌then◌else◌,
}

abbrev pub max_safe_integer : ℕ
max_safe_integer = 2 ^ 53 - 1

abbrev digit : ℕ → Char
digit zero = "0"
digit (suc zero) = "1"
digit (suc (suc zero)) = "2"
digit (suc (suc (suc zero))) = "3"
digit (suc (suc (suc (suc zero)))) = "4"
digit (suc (suc (suc (suc (suc zero))))) = "5"
digit (suc (suc (suc (suc (suc (suc zero)))))) = "6"
digit (suc (suc (suc (suc (suc (suc (suc zero))))))) = "7"
digit (suc (suc (suc (suc (suc (suc (suc (suc zero)))))))) = "8"
digit _ = "9"

abbrev one_char : Char → String
one_char c = String.◌∷◌ c String.[]

-- The decimal digits; the fuel is above the number.
print_from : ℕ → ℕ → String
print_from zero n = ""
print_from (suc fuel) n =
    let front = print_from fuel (n / 10) in
    if ltb n 10 then one_char (digit n) else String.◌++◌ front (one_char (digit (n % 10)))

-- String(rev)
unfoldable pub print_rev : ℕ → String
unfolding print_from
print_rev n = print_from (suc n) n

abbrev is_digit : Char → Bool
is_digit c = leb b'0' (code c) && leb (code c) b'9'

-- [0-9]* with its decimal value, after digits of value `acc`
digits : ℕ → String → Option ℕ
digits acc String.[] = some acc
digits acc (String.◌∷◌ c s) = if is_digit c then digits (acc * 10 + (code c - b'0')) s else none

-- [1-9][0-9]*
leading : String → Option ℕ
leading String.[] = none
leading (String.◌∷◌ c s) =
    if leb b'1' (code c) && leb (code c) b'9' then digits (code c - b'0') s else none

safe : Option ℕ → Option ℕ
safe none = none
safe (some rev) = if leb rev max_safe_integer then some rev else none

-- CURSOR, `Number` and `Number.isSafeInteger`
unfoldable pub decode_cursor : String → Option ℕ
unfolding digits leading safe
decode_cursor cursor = if cursor == "0" then some 0 else safe (leading cursor)
