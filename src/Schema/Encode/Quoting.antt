-- ===== src/Schema/Encode/Quoting.antt =====
-- What a reader of a statement finds between its double quotes.
use Prim.Native.Char.{Char}
use text.Mathlib.TextLemmas.{append_assoc}
use remelon_db.Prelude.{
  String, ◌≡◌, sym, ap, ◌∙◌, Bool, true, ◌&&◌, List, [], ◌∷◌, map, All, eqb, not, and_left,
  and_right,
}
use remelon_db.Prelude.Text.{◌+++◌, join, all_codes, all_codes-append}
use remelon_db.Prelude.Split.{split, lacks, split-word, split-join}
use remelon_db.Schema.Encode.{quoted}

abbrev quote_mark : Char
quote_mark = "\""

-- no double quote, 34 in ASCII
abbrev pub is_unquoted : String → Bool
is_unquoted s = lacks 34 s

-- every second of the pieces
abbrev inside_of : List String → List String
inside_of [] = []
inside_of (outside ∷ []) = []
inside_of (outside ∷ inside ∷ pieces) = inside ∷ inside_of pieces

-- the pieces of a text that stand between its double quotes
unfoldable pub quoted_names : String → List String
quoted_names s = inside_of (split 34 s)

pub quoted_names-unquoted : (a : String) → is_unquoted a ≡ true → quoted_names a ≡ []
unfolding quoted_names join
quoted_names-unquoted a h = ap inside_of (split-join quote_mark a [] (h, tt))

pub quoted_names-quoted :
    (a name rest : String)
    → is_unquoted a ≡ true
    → is_unquoted name ≡ true
    → quoted_names (a +++ (quoted name +++ rest)) ≡ name ∷ quoted_names rest
unfolding quoted_names
quoted_names-quoted a name rest h k =
    ap (λ z. inside_of (split 34 (a +++ z)))
      (append_assoc "\"" (name +++ "\"") rest ∙ ap (λ z. "\"" +++ z) (append_assoc name "\"" rest))
    ∙ ap inside_of (split-word quote_mark a (name +++ ("\"" +++ rest)) h)
    ∙ ap (λ z. inside_of (a ∷ z)) (split-word quote_mark name rest k)

-- a quoted name and what follows it
abbrev pub item_sql : String × String → String
item_sql (name, rest) = quoted name +++ rest

-- a list of quoted names with what follows them, up to its closing parenthesis
pub quoted_names-join :
    (items : List (String × String)) (a : String)
    → is_unquoted a ≡ true
    → All (λ i. (is_unquoted i.0 && is_unquoted i.1) ≡ true) items
    → quoted_names (a +++ (join ", " (map item_sql items) +++ ")")) ≡ map (λ i. i.0) items
unfolding join all_codes
quoted_names-join [] a h k =
    quoted_names-unquoted (a +++ ("" +++ ")"))
      (all_codes-append (λ n. not (eqb n 34)) a ("" +++ ")") ∙ ap (λ b. b && true) h)
quoted_names-join ((name, rest) ∷ []) a h (k, _) =
    ap (λ z. quoted_names (a +++ z)) (append_assoc (quoted name) rest ")")
    ∙ quoted_names-quoted a name (rest +++ ")") h (and_left (is_unquoted name) _ k)
    ∙ ap (λ z. name ∷ z)
        (quoted_names-unquoted (rest +++ ")") (
          all_codes-append (λ n. not (eqb n 34)) rest ")"
          ∙ ap (λ b. b && true) (and_right (is_unquoted name) _ k)))
quoted_names-join ((name, rest) ∷ next ∷ items) a h (k, ks) =
    let others = join ", " (map item_sql (next ∷ items)) in
    ap (λ z. quoted_names (a +++ z))
      (append_assoc (quoted name +++ rest) (", " +++ others) ")"
        ∙ append_assoc (quoted name) rest ((", " +++ others) +++ ")")
        ∙ ap (λ z. quoted name +++ z)
            (ap (λ z. rest +++ z) (append_assoc ", " others ")")
              ∙ sym (append_assoc rest ", " (others +++ ")"))))
    ∙ quoted_names-quoted a name ((rest +++ ", ") +++ (others +++ ")")) h
        (and_left (is_unquoted name) _ k)
    ∙ ap (λ z. name ∷ z)
        (quoted_names-join (next ∷ items) (rest +++ ", ")
          (all_codes-append (λ n. not (eqb n 34)) rest ", "
            ∙ ap (λ b. b && true) (and_right (is_unquoted name) _ k))
          ks)
