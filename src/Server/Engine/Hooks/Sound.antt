-- ===== src/Server/Engine/Hooks/Sound.antt =====
-- The hooks' rejections keep every id of the request accounted for.
use remelon_db.Prelude.{
  String, ◌≡◌, refl, ap, sym, ◌∙◌, Bool, List, [], ◌∷◌, arith, ◌==◌, eq_iff, is_empty, All, inl,
  inr, Bool-cases, subst, Option-cases,
}
use remelon_db.Prelude.Map.{Map}
use remelon_db.Server.Store.{SyncStore}
use remelon_db.Server.Engine.{
  Result, ok, err, >>=-eq-ok, ok-injective, ◌>>◌, Options, Entry, Rejected, reject, drop_ids,
}
use remelon_db.Server.Engine.Screen.Sound.{
  Covers, Covers-Grows, Covers-step, IsSound-drop, Grows-reject, tables,
}
use remelon_db.Server.Engine.Hooks.{
  drop_from, Work, apply_extra, requested_by_table, run_cross_validate, run_cross_validate_changes,
  run_hooks,
}

abbrev pub AllCovered : (String → String → Bool) → Work → Type 0
AllCovered names work = All (Covers names work.1) work.0

drop_from-Covers :
    (names : String → String → Bool) (table : String) (ids : List String) (entries : List Entry)
    (r : Rejected)
    → All (Covers names r) entries
    → All (Covers names (reject table ids r)) (drop_from table ids entries)
unfolding drop_from
drop_from-Covers names table ids [] r h = tt
drop_from-Covers names table ids (e ∷ rest) r (c, h) = elim (Bool-cases (e.table == table)) [
  | inl same ↦ rw same (
    subst (λ t. Covers names (reject t ids r) (drop_ids ids e)) ((eq_iff e.table table).0 same)
        (Covers-step names (IsSound-drop ids e.all_ids e r) c),
    Covers-Grows names r (reject table ids r) rest (Grows-reject table ids r) h,
  )
  | inr other ↦ rw other (
    (Covers-Grows names r (reject table ids r) (e ∷ []) (Grows-reject table ids r) (c, tt)).0,
    drop_from-Covers names table ids rest r h,
  )
]

>>-eq-ok {ℓ} :
    {B : Type ℓ} (m : Result (Unit {0})) (k : Result B) {b : B} → (m >> k) ≡ ok b → k ≡ ok b
>>-eq-ok (ok a) k h = h
>>-eq-ok (err e) k h = cc

apply_extra-Covers :
    (names : String → String → Bool) (requested : Map (List String))
    (extra : List (String × List String)) (work out : Work)
    → apply_extra requested extra work ≡ ok out
    → AllCovered names work
    → AllCovered names out
unfolding apply_extra
apply_extra-Covers names requested [] work out e h = subst (AllCovered names) (ground arith) h
apply_extra-Covers names requested ((table, ids) ∷ extra) (parsed, rejected) out e h =
    elim (Bool-cases (is_empty ids)) [
      | inl nothing ↦
          apply_extra-Covers names requested extra (parsed, rejected) out (rw nothing at e) h
      | inr some_ids ↦
          apply_extra-Covers names requested extra
            (drop_from table ids parsed, reject table ids rejected) out
            (>>-eq-ok _ _ (rw some_ids at e)) (drop_from-Covers names table ids parsed rejected h)
    ]

tables-drop_from :
    (table : String) (ids : List String) (entries : List Entry)
    → tables (drop_from table ids entries) ≡ tables entries
unfolding drop_from drop_ids
tables-drop_from table ids [] = refl
tables-drop_from table ids (e ∷ rest) = ground (arith, tables-drop_from table ids rest)

apply_extra-tables :
    (requested : Map (List String)) (extra : List (String × List String)) (work out : Work)
    → apply_extra requested extra work ≡ ok out
    → tables out.0 ≡ tables work.0
unfolding apply_extra
apply_extra-tables requested [] work out e = ap (λ (w : Work). tables w.0) (sym (ok-injective e))
apply_extra-tables requested ((table, ids) ∷ extra) (parsed, rejected) out e =
    elim (Bool-cases (is_empty ids)) [
      | inl nothing ↦ apply_extra-tables requested extra (parsed, rejected) out (rw nothing at e)
      | inr some_ids ↦
          apply_extra-tables requested extra (drop_from table ids parsed, reject table ids rejected)
            out (>>-eq-ok _ _ (rw some_ids at e))
          ∙ tables-drop_from table ids parsed
    ]

module _ {Scope : Type 0} (store : SyncStore Scope) (options : Options store) (scope : Scope)
    (s : store.State) (names : String → String → Bool) where
  run_cross_validate-Covers :
      (requested : Map (List String)) (work out : Work)
      → run_cross_validate store options scope s requested work ≡ ok out
      → AllCovered names work
      → AllCovered names out
  unfolding run_cross_validate
  run_cross_validate-Covers requested (parsed, rejected) out e h =
      elim (Option-cases options.cross_validate) [
        | inl absent ↦ subst (AllCovered names) (ground arith) h
        | inr (hook, present) ↦
            apply_extra-Covers names requested _ (parsed, rejected) out (rw present at e) h
      ]

  run_cross_validate_changes-Covers :
      (requested : Map (List String)) (work out : Work)
      → run_cross_validate_changes store options scope s requested work ≡ ok out
      → AllCovered names work
      → AllCovered names out
  unfolding run_cross_validate_changes
  run_cross_validate_changes-Covers requested (parsed, rejected) out e h =
      elim (Option-cases options.cross_validate_changes) [
        | inl absent ↦ subst (AllCovered names) (ground arith) h
        | inr (hook, present) ↦
            apply_extra-Covers names requested _ (parsed, rejected) out (rw present at e) h
      ]

  -- Whatever the hooks answer, what they refuse is in the rejections.
  pub run_hooks-Covers :
      (work out : Work)
      → run_hooks store options scope s work ≡ ok out
      → AllCovered names work
      → AllCovered names out
  unfolding run_hooks
  run_hooks-Covers (parsed, rejected) out e h =
      let requested : Map (List String) = requested_by_table parsed in
      let (mid, first, second) = >>=-eq-ok _ _ e in
      run_cross_validate_changes-Covers requested mid out second
        (run_cross_validate-Covers requested (parsed, rejected) mid first h)

  run_cross_validate-tables :
      (requested : Map (List String)) (work out : Work)
      → run_cross_validate store options scope s requested work ≡ ok out
      → tables out.0 ≡ tables work.0
  unfolding run_cross_validate
  run_cross_validate-tables requested (parsed, rejected) out e =
      elim (Option-cases options.cross_validate) [
        | inl absent ↦
            let same : ◌≡◌ {A = Work} (parsed, rejected) out = ground arith in
            ap (λ (w : Work). tables w.0) (sym same)
        | inr (hook, present) ↦
            apply_extra-tables requested _ (parsed, rejected) out (rw present at e)
      ]

  run_cross_validate_changes-tables :
      (requested : Map (List String)) (work out : Work)
      → run_cross_validate_changes store options scope s requested work ≡ ok out
      → tables out.0 ≡ tables work.0
  unfolding run_cross_validate_changes
  run_cross_validate_changes-tables requested (parsed, rejected) out e =
      elim (Option-cases options.cross_validate_changes) [
        | inl absent ↦
            let same : ◌≡◌ {A = Work} (parsed, rejected) out = ground arith in
            ap (λ (w : Work). tables w.0) (sym same)
        | inr (hook, present) ↦
            apply_extra-tables requested _ (parsed, rejected) out (rw present at e)
      ]

  pub run_hooks-tables :
      (work out : Work)
      → run_hooks store options scope s work ≡ ok out
      → tables out.0 ≡ tables work.0
  unfolding run_hooks
  run_hooks-tables (parsed, rejected) out e =
      let requested : Map (List String) = requested_by_table parsed in
      let (mid, first, second) = >>=-eq-ok _ _ e in
      run_cross_validate_changes-tables requested mid out second
      ∙ run_cross_validate-tables requested (parsed, rejected) mid first
