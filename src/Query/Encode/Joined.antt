-- ===== src/Query/Encode/Joined.antt =====
-- The joins of a statement: the associations that are found, and their texts.
use remelon_db.Prelude.{
  String, ◌≡◌, refl, subst, Bool, true, false, ◌&&◌, ◌||◌, List, [], ◌∷◌, ◌++◌, ◌==◌, All,
  All-append, if◌then◌else◌,
}
use remelon_db.Prelude.Set.{member}
use remelon_db.Prelude.Result.{ok, guard, >>=-eq-ok, >>-eq-ok, ok-injective, err-ne-ok}
use remelon_db.Prelude.Text.{◌+++◌, join, count_code}
use remelon_db.Schema.Names.{is_identifier}
use remelon_db.Query.{not_joined, NestedJoinTable}
use remelon_db.Query.Encode.{
  QueryAssociation, belongs_to, has_many, AssociationInfo, Joins, column_ref, not_deleted, join_key,
  encode_join, find_association, resolve_direct, resolve_nested,
}
use remelon_db.Query.Encode.Placeholders.{
  marks, identifier-unmarked, marks-append, column_ref-unmarked,
}

abbrev pub key_of : AssociationInfo → String
key_of (belongs_to key) = key
key_of (has_many key) = key

-- The tables and the key of an association are identifiers.
abbrev pub IsAssociation : QueryAssociation → Type 0
IsAssociation a =
    (is_identifier a.from ≡ true)
    × (is_identifier a.to ≡ true)
    × (is_identifier (key_of a.info) ≡ true)

pub join-unmarked :
    (separator : String) (ws : List String)
    → marks separator ≡ 0
    → All (λ w. marks w ≡ 0) ws
    → marks (join separator ws) ≡ 0
unfolding join count_code
join-unmarked separator [] h k = refl
join-unmarked separator (w ∷ []) h k = k.0
join-unmarked separator (w ∷ v ∷ ws) h (e, k) =
    marks-append w (separator +++ join separator (v ∷ ws)) e
      (marks-append separator (join separator (v ∷ ws)) h (join-unmarked separator (v ∷ ws) h k))

pub not_deleted-unmarked : (table : String) → marks table ≡ 0 → marks (not_deleted table) ≡ 0
unfolding count_code
not_deleted-unmarked table h =
    marks-append (column_ref table "_status") " is not 'deleted'"
      (column_ref-unmarked table "_status" h refl) refl

join_key-unmarked : (a : QueryAssociation) → IsAssociation a → marks (join_key a) ≡ 0
unfolding count_code
join_key-unmarked a (f, t, k) = at a.info k
  where
    from : marks a.from ≡ 0
    from = identifier-unmarked a.from f

    to : marks a.to ≡ 0
    to = identifier-unmarked a.to t

    at :
        (info : AssociationInfo)
        → is_identifier (key_of info) ≡ true
        → marks (join_key (record a { info = info })) ≡ 0
    at (belongs_to key) e =
        marks-append (column_ref a.to "id") (" = " +++ column_ref a.from key)
          (column_ref-unmarked a.to "id" to refl)
          (marks-append " = " (column_ref a.from key) refl
            (column_ref-unmarked a.from key from (identifier-unmarked key e)))
    at (has_many key) e =
        marks-append (column_ref a.to key) (" = " +++ column_ref a.from "id")
          (column_ref-unmarked a.to key to (identifier-unmarked key e))
          (marks-append " = " (column_ref a.from "id") refl
            (column_ref-unmarked a.from "id" from refl))

pub encode_join-unmarked :
    (filter_deleted : Bool) (a : QueryAssociation)
    → IsAssociation a
    → marks (encode_join filter_deleted a) ≡ 0
unfolding encode_join count_code
encode_join-unmarked filter_deleted a h =
    let to = identifier-unmarked a.to h.1 in
    marks-append " left join \"" _ refl (
      marks-append a.to _ to (
        marks-append "\" on " _ refl
          (marks-append (join_key a) _ (join_key-unmarked a h) (at filter_deleted to))))
  where
    at : (b : Bool) → marks a.to ≡ 0 → marks (if b then " and " +++ not_deleted a.to else "") ≡ 0
    at true to = marks-append " and " (not_deleted a.to) refl (not_deleted-unmarked a.to to)
    at false to = refl

find_association-IsAssociation :
    (known : List QueryAssociation) (from to : String) (a : QueryAssociation)
    → All IsAssociation known
    → find_association known from to ≡ ok a
    → IsAssociation a
unfolding find_association
find_association-IsAssociation [] from to a h e = elim (err-ne-ok e) [ ]
find_association-IsAssociation (b ∷ known) from to a (k, h) e =
    at (b.from == from && b.to == to) (find_association-IsAssociation known from to a h) e
  where
    at :
        (same : Bool)
        → (find_association known from to ≡ ok a → IsAssociation a)
        → (if same then ok b else find_association known from to) ≡ ok a
        → IsAssociation a
    at true later e = subst IsAssociation (ok-injective e) k
    at false later e = later e

pub resolve_direct-IsAssociation :
    (known : List QueryAssociation) (table : String) (tos : List String) (start out : Joins)
    → All IsAssociation known
    → All IsAssociation start.0
    → resolve_direct known table tos start ≡ ok out
    → All IsAssociation out.0
unfolding resolve_direct
resolve_direct-IsAssociation known table [] start out h k e =
    subst (λ j. All IsAssociation j.0) (ok-injective e) k
resolve_direct-IsAssociation known table (to ∷ tos) start out h k e =
    let (a, found, e') = >>=-eq-ok (find_association known table to) _ e in
    resolve_direct-IsAssociation known table tos (start.0 ++ (a ∷ []), to ∷ start.1) out h
      (All-append IsAssociation start.0 (a ∷ []) k
        (find_association-IsAssociation known table to a h found, tt))
      e'

pub resolve_nested-IsAssociation :
    (known : List QueryAssociation) (table : String) (ns : List NestedJoinTable) (start out : Joins)
    → All IsAssociation known
    → All IsAssociation start.0
    → resolve_nested known table ns start ≡ ok out
    → All IsAssociation out.0
unfolding resolve_nested
resolve_nested-IsAssociation known table [] start out h k e =
    subst (λ j. All IsAssociation j.0) (ok-injective e) k
resolve_nested-IsAssociation known table (n ∷ ns) start out h k e =
    let (_, e') = >>-eq-ok (guard (n.from == table || member n.from start.1) not_joined) _ e in
    let (a, found, e'') = >>=-eq-ok (find_association known n.from n.to) _ e' in
    resolve_nested-IsAssociation known table ns (start.0 ++ (a ∷ []), n.to ∷ start.1) out h
      (All-append IsAssociation start.0 (a ∷ []) k
        (find_association-IsAssociation known n.from n.to a h found, tt))
      e''
