-- ===== src/Server/Engine/Screen/Sound.antt =====
-- A step of the screening never loses an id: what leaves the rows and the deletions of an entry is
-- named in the rejections, and no rejection is taken back.
use remelon_db.Prelude.{
  ℕ, String, ◌≡◌, refl, ap₂, Bool, true, false, not, ◌&&◌, ◌||◌, Option, none, some, List, [], ◌∷◌,
  ◌++◌, map, arith, ◌==◌, eq_iff, eq_refl, is_empty, filter, All, All-mono, inl, inr, Bool-cases,
  if◌then◌else◌,
}
use remelon_db.Prelude.Map.{Map, get-set}
use remelon_db.Prelude.Set.{member, unique, member-append, member-filter}
use remelon_db.Server.Store.{WireRow, SyncStore, row_ids}
use remelon_db.Server.Engine.{
  Options, Entry, Rejected, rejected_ids, reject, without_rows, without_ids, drop_ids,
}
use remelon_db.Server.Engine.Screen.{
  Step, each, refuse, own, validate_with, validator, validate_rows, dead_ids, bury,
}

-- The id is among the rows, the deletions or the rejections of the entry.
abbrev pub is_accounted : String → Entry → Rejected → Bool
is_accounted id entry rejected =
    member id (row_ids entry.rows)
    || member id entry.deletes
    || member id (rejected_ids entry.table rejected)

abbrev pub tables : List Entry → List String
tables entries = map (λ e. e.table) entries

abbrev pub Grows : Rejected → Rejected → Type 0
Grows before after =
    (table id : String)
    → member id (rejected_ids table before) ≡ true
    → member id (rejected_ids table after) ≡ true

pub record IsSound (entry : Entry) (rejected : Rejected) (out : Entry × Rejected) : Type 0 where
  pub same_table : out.0.table ≡ entry.table
  pub grows : Grows rejected out.1
  pub keeps :
      (id : String) → is_accounted id entry rejected ≡ true → is_accounted id out.0 out.1 ≡ true

pub member-reject :
    (table t id : String) (ids : List String) (rejected : Rejected)
    → member id (rejected_ids t (reject table ids rejected)) ≡ (
        if table == t
        then member id (rejected_ids t rejected) || member id ids
        else member id (rejected_ids t rejected))
unfolding reject
member-reject table t id ids rejected = elim (Bool-cases (table == t)) [
  | inl same ↦
      rw (get-set table t (rejected_ids table rejected ++ ids) rejected, same)
        (rw (member-append id (rejected_ids table rejected) ids) (ground (arith, eq_iff table t)))
  | inr other ↦ rw (get-set table t (rejected_ids table rejected ++ ids) rejected, other) refl
]

pub Grows-reject :
    (table : String) (ids : List String) (r : Rejected) → Grows r (reject table ids r)
Grows-reject table ids r t id h = rw (member-reject table t id ids r) (ground arith)

pub member-without_rows :
    (id : String) (drop : List String) (rows : List WireRow)
    → member id (row_ids (without_rows drop rows))
      ≡ member id (row_ids rows) && not (member id drop)
unfolding member
member-without_rows id drop [] = refl
member-without_rows id drop (row ∷ rest) =
    ground (arith, member-without_rows id drop rest, eq_iff row.id id)

-- A filter and its complement lose no row.
pub member-split :
    (id : String) (p : WireRow → Bool) (rows : List WireRow)
    → member id (row_ids rows)
      ≡ member id (row_ids (filter p rows)) || member id (row_ids (filter (λ r. not (p r)) rows))
unfolding member
member-split id p [] = refl
member-split id p (row ∷ rest) = ground (arith, member-split id p rest)

pub IsSound-stay : (entry : Entry) (rejected : Rejected) → IsSound entry rejected (entry, rejected)
IsSound-stay entry rejected = record { same_table = refl; grows = λ t id h. h; keeps = λ id h. h }

pub IsSound-if :
    (b : Bool) {entry : Entry} {rejected : Rejected} {x y : Entry × Rejected}
    → IsSound entry rejected x
    → IsSound entry rejected y
    → IsSound entry rejected (if b then x else y)
IsSound-if true h k = h
IsSound-if false h k = k

-- Ids that leave the rows and the deletions for the rejections, whatever becomes of `all_ids`.
pub IsSound-drop :
    (ids kept : List String) (entry : Entry) (rejected : Rejected)
    → IsSound entry rejected
        (record (drop_ids ids entry) { all_ids = kept }, reject entry.table ids rejected)
unfolding drop_ids
IsSound-drop ids kept entry rejected = record {
  same_table = refl;
  grows = Grows-reject entry.table ids rejected;
  keeps = λ id h. ground (
    arith,
    h,
    member-reject entry.table entry.table id ids rejected,
    eq_refl entry.table,
    member-without_rows id ids entry.rows,
    member-filter id (λ i. not (member i ids)) entry.deletes,
  );
}

pub refuse-IsSound :
    (ids : List String) (entry : Entry) (rejected : Rejected)
    → IsSound entry rejected (refuse ids entry rejected)
unfolding refuse
refuse-IsSound ids entry rejected =
    IsSound-if (is_empty ids) (IsSound-stay entry rejected)
      (IsSound-drop ids entry.all_ids entry rejected)

validate_with-IsSound :
    (valid : Option (WireRow → Bool)) (entry : Entry) (rejected : Rejected)
    → IsSound entry rejected (validate_with valid entry rejected)
unfolding validate_with
validate_with-IsSound none entry rejected = IsSound-stay entry rejected
validate_with-IsSound (some valid) entry rejected =
    IsSound-if (is_empty failed) (IsSound-stay entry rejected) (record {
      same_table = refl;
      grows = Grows-reject entry.table failed rejected;
      keeps = λ id h. ground (
        arith,
        h,
        member-reject entry.table entry.table id failed rejected,
        eq_refl entry.table,
        member-split id valid entry.rows,
      );
    })
  where
    failed : List String
    failed = row_ids (filter (λ r. not (valid r)) entry.rows)

module _ {Scope : Type 0} (store : SyncStore Scope) where
  pub own-IsSound :
      (scope : Scope) (s : store.State) (entry : Entry) (rejected : Rejected)
      → IsSound entry rejected (own store scope s entry rejected)
  unfolding own drop_ids
  own-IsSound scope s entry rejected =
      let foreign = unique (store.foreign_ids entry.table scope entry.all_ids s) in
      IsSound-if (is_empty entry.all_ids || is_empty foreign) (IsSound-stay entry rejected)
        (IsSound-drop foreign (without_ids foreign entry.all_ids) entry rejected)

  pub validate_rows-IsSound :
      (options : Options store) (entry : Entry) (rejected : Rejected)
      → IsSound entry rejected (validate_rows store options entry rejected)
  unfolding validate_rows
  validate_rows-IsSound options entry rejected =
      validate_with-IsSound (validator store options entry.table) entry rejected

  pub bury-IsSound :
      (options : Options store) (scope : Scope) (s : store.State) (revs : Map (Map ℕ))
      (entry : Entry) (rejected : Rejected)
      → IsSound entry rejected (bury store options scope s revs entry rejected)
  unfolding bury
  bury-IsSound options scope s revs entry rejected =
      IsSound-if (is_empty entry.rows) (IsSound-stay entry rejected)
        (refuse-IsSound (dead_ids store options scope s revs entry) entry rejected)

-- The ids that `names` gives to an entry's table are all accounted for.
abbrev pub Covers : (String → String → Bool) → Rejected → Entry → Type 0
Covers names rejected entry =
    (id : String) → names entry.table id ≡ true → is_accounted id entry rejected ≡ true

pub is_accounted_mono :
    (id : String) (entry : Entry) (r r' : Rejected)
    → Grows r r'
    → is_accounted id entry r ≡ true
    → is_accounted id entry r' ≡ true
is_accounted_mono id entry r r' g h = ground (arith, h, g entry.table id)

pub Covers-Grows :
    (names : String → String → Bool) (r r' : Rejected) (entries : List Entry)
    → Grows r r'
    → All (Covers names r) entries
    → All (Covers names r') entries
Covers-Grows names r r' entries g =
    All-mono (Covers names r) (Covers names r')
      (λ entry c id n. is_accounted_mono id entry r r' g (c id n)) entries

pub Covers-step :
    (names : String → String → Bool) {entry : Entry} {rejected : Rejected} {out : Entry × Rejected}
    → IsSound entry rejected out
    → Covers names rejected entry
    → Covers names out.1 out.0
Covers-step names sound c = λ id n. sound.keeps id (c id (rw sound.same_table at n))

module _ (step : Step) (sound : (e : Entry) (r : Rejected) → IsSound e r (step e r)) where
  pub each-Grows : (entries : List Entry) (r : Rejected) → Grows r (each step entries r).1
  unfolding each
  each-Grows [] r t id h = h
  each-Grows (e ∷ rest) r t id h = each-Grows rest (step e r).1 t id ((sound e r).grows t id h)

  -- A loop of sound steps keeps every entry's ids accounted for.
  pub each-Covers :
      (names : String → String → Bool) (entries : List Entry) (r : Rejected)
      → All (Covers names r) entries
      → All (Covers names (each step entries r).1) (each step entries r).0
  unfolding each
  each-Covers names [] r h = tt
  each-Covers names (e ∷ rest) r (c, h) =
      let r' : Rejected = (step e r).1 in
      (
        λ id n.
            is_accounted_mono id (step e r).0 r' (each step rest r').1 (each-Grows rest r')
              (Covers-step names (sound e r) c id n),
        each-Covers names rest r' (Covers-Grows names r r' rest (sound e r).grows h),
      )

  pub tables-each :
      (entries : List Entry) (r : Rejected) → tables (each step entries r).0 ≡ tables entries
  unfolding each
  tables-each [] r = refl
  tables-each (e ∷ rest) r = ap₂ (◌∷◌) (sound e r).same_table (tables-each rest (step e r).1)
