-- ===== src/Schema/Names.antt =====
-- packages/core/src/utils/checkName.ts, and which names are taken: the reserved columns and the
-- names that every plain JavaScript object inherits.
use Prim.Native.Char.{code}
use remelon_db.Prelude.{
  ℕ, String, Bool, true, false, ◌&&◌, ◌||◌, List, [], ◌∷◌, any, ◌+◌, eqb, leb, if◌then◌else◌,
}
use remelon_db.Prelude.Result.{Result, guard}
use remelon_db.Prelude.Text.{all_codes}
use remelon_db.Schema.{SchemaError, invalid_name}

-- [a-zA-Z_]
abbrev pub is_start : ℕ → Bool
is_start n = (leb 65 n && leb n 90) || (leb 97 n && leb n 122) || eqb n 95

-- [a-zA-Z0-9_]
abbrev pub is_part : ℕ → Bool
is_part n = is_start n || (leb 48 n && leb n 57)

-- IDENTIFIER.test(name)
unfoldable pub is_identifier : String → Bool
unfolding all_codes
is_identifier String.[] = false
is_identifier (String.◌∷◌ c s) = is_start (code c) && all_codes is_part s

unfoldable pub ensure_name : String → Result SchemaError (Unit {0})
unfolding is_identifier
ensure_name name = guard (is_identifier name) invalid_name

-- one character of toLowerCase, on the characters of an identifier
abbrev lower : ℕ → ℕ
lower n = if leb 65 n && leb n 90 then n + 32 else n

-- name.toLowerCase() === word
unfoldable pub lowers_to : String → String → Bool
lowers_to String.[] String.[] = true
lowers_to String.[] (String.◌∷◌ d word) = false
lowers_to (String.◌∷◌ c name) String.[] = false
lowers_to (String.◌∷◌ c name) (String.◌∷◌ d word) =
    eqb (lower (code c)) (code d) && lowers_to name word

abbrev pub reserved_columns : List String
reserved_columns = "id" ∷ "_status" ∷ "_changed" ∷ "rowid" ∷ "oid" ∷ "_rowid_" ∷ []

-- RESERVED_COLUMNS.has(name.toLowerCase())
unfoldable pub is_reserved : String → Bool
unfolding lowers_to
is_reserved name = any (lowers_to name) reserved_columns

-- The members of `Object.prototype`: for these, reading `record[name]` on `{}` is truthy.
abbrev pub inherited : List String
inherited =
    "constructor" ∷ "toString" ∷ "toLocaleString" ∷ "valueOf" ∷ "hasOwnProperty" ∷ "isPrototypeOf"
    ∷ "propertyIsEnumerable" ∷ "__proto__" ∷ "__defineGetter__" ∷ "__defineSetter__"
    ∷ "__lookupGetter__" ∷ "__lookupSetter__" ∷ []
