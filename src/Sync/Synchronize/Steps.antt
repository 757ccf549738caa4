-- ===== src/Sync/Synchronize/Steps.antt =====
-- What the steps of an attempt cost.
use remelon_db.Prelude.{
  ℕ, ◌+◌, ◌≡◌, refl, String, Bool, true, false, Option, none, some, List, [], ◌∷◌, arith, if_cases,
  if_not_cases, option_cases,
}
use remelon_db.Prelude.Map.{Map}
use remelon_db.Prelude.Result.{ok, result_cases}
use remelon_db.Wire.{DirtyRaw, SyncChanges, SyncPullArgs, SyncPullResult, pulled, resync_required}
use remelon_db.Sync.Apply.{ApplyOptions, apply_remote_changes}
use remelon_db.Sync.Mark.{LocalChanges}
use remelon_db.Sync.Synchronize.{
  aborted, committed_elsewhere, resync_without_cursor, bad_changes, bad_migration, pulled_with,
  applied, saved, marked, count_rows, Device, cursor_key, last_schema_version_key,
}
use remelon_db.Sync.Synchronize.Run.{
  Received, same_cursor, check_abort, apply, save, find_migration, pull, replaced, receive,
  apply_pulled, adopt, mark, confirm_turn,
}
use remelon_db.Sync.Synchronize.Costs.{
  Costs, costs, plus, total, Promises, return-Promises, throw-Promises, perform-Promises, Costless,
  then-Promises, plus-free-right, Exactly, fixed-Promises, nothing-more,
}

-- the cost of rows that are applied
abbrev pub rows_cost : ℕ → Costs
rows_cost n = record { rows = n; marked_rows = 0; pushes = 0; marks = 0 }

abbrev pub Applies : {A : Type 0} → ℕ → A → Costs → Type 0
Applies n a c = c ≡ rows_cost n

-- the cost of local changes that are marked
abbrev pub mark_cost_of : LocalChanges → Costs
mark_cost_of local = record {
  rows = 0;
  marked_rows = count_rows local.changes;
  pushes = 0;
  marks = 1;
}

rows_only :
    (n : ℕ)
    → ◌≡◌ {A = Costs}
        (record { rows = n + 0; marked_rows = 0; pushes = 0; marks = 0 })
        (rows_cost n)
rows_only n = let e : n + 0 ≡ n = omega arith in rw e refl

marks_only :
    (n : ℕ)
    → ◌≡◌ {A = Costs}
        (record { rows = 0; marked_rows = n + 0; pushes = 0; marks = 1 })
        (record { rows = 0; marked_rows = n; pushes = 0; marks = 1 })
marks_only n = let e : n + 0 ≡ n = omega arith in rw e refl

module _ (d : Device) where
  pub check_abort-Promises : (w : d.World) → Promises 0 0 Costless (check_abort d w)
  unfolding check_abort
  check_abort-Promises w =
      if_cases (Promises 0 0 Costless) (d.is_aborted w)
        (λ gone. throw-Promises 0 0 Costless aborted w)
        (λ goes. return-Promises 0 0 Costless tt w refl)

  pub apply-Promises :
      (replacement : Bool) (changes : SyncChanges DirtyRaw) (w : d.World)
      → Promises 0 0 (Applies (count_rows changes)) (apply d replacement changes w)
  unfolding apply total costs
  apply-Promises replacement changes w =
      let options : ApplyOptions = record {
        conflict_resolver = d.conflict_resolver;
        replacement = replacement;
      } in
      result_cases (Promises 0 0 (Applies (count_rows changes)))
        (apply_remote_changes d.decode_base64 (d.query w) options (d.fresh_id w) d.schema changes)
        (λ e bad. throw-Promises 0 0 (Applies (count_rows changes)) (bad_changes e) w)
        (λ operations good.
          perform-Promises (applied changes ∷ []) (d.batch operations w)
            (Applies (count_rows changes)) (λ a. rows_only (count_rows changes)))

  pub save-Promises :
      (key value : String) (w : d.World) → Promises 0 0 Costless (save d key value w)
  unfolding total costs
  save-Promises key value w =
      perform-Promises (saved key value ∷ []) (d.set_item key value w, ok tt) Costless (λ a. refl)

  pub find_migration-Promises :
      (cursor : Option String) (w : d.World) → Promises 0 0 Costless (find_migration d cursor w)
  unfolding find_migration
  find_migration-Promises cursor w =
      result_cases (Promises 0 0 Costless) _
        (λ e bad. throw-Promises 0 0 Costless (bad_migration e) w)
        (λ info good. return-Promises 0 0 Costless info w refl)

  pub pull-Promises : (args : SyncPullArgs) (w : d.World) → Promises 1 0 Costless (pull d args w)
  unfolding pull total costs
  pull-Promises args w =
      perform-Promises (pulled_with args ∷ []) (d.pull_changes args w) Costless (λ a. refl)

  pub replaced-Promises :
      (r : SyncPullResult DirtyRaw) (w : d.World) → Promises 0 0 Costless (replaced d r w)
  replaced-Promises (pulled changes cursor) w = return-Promises 0 0 Costless _ w refl
  replaced-Promises resync_required w = throw-Promises 0 0 Costless resync_without_cursor w

  pub receive-Promises :
      (r : SyncPullResult DirtyRaw) (w : d.World) → Promises 1 0 Costless (receive d r w)
  unfolding receive
  receive-Promises (pulled changes cursor) w = return-Promises 1 0 Costless _ w refl
  receive-Promises resync_required w =
      let args : SyncPullArgs = record {
        cursor = none;
        schema_version = d.schema.version;
        migration = none;
      } in
      then-Promises 1 0 0 0 Costless (pull d args w) (replaced d) (pull-Promises args w)
        replaced-Promises

  pub apply_pulled-Promises :
      (cursor : Option String) (save_version : Bool) (r : Received) (w : d.World)
      → Promises 0 0 (Applies (count_rows r.changes)) (apply_pulled d cursor save_version r w)
  unfolding apply_pulled
  apply_pulled-Promises cursor save_version r w =
      let n = count_rows r.changes in
      if_not_cases (Promises 0 0 (Applies n)) (same_cursor (d.get_item cursor_key w) cursor)
        (λ moved. throw-Promises 0 0 (Applies n) committed_elsewhere w)
        (λ same.
          fixed-Promises (rows_cost n) 0 0 0 0 (Applies n) (apply d r.replacement r.changes w) _
            (apply-Promises r.replacement r.changes w)
            (λ a w1.
              then-Promises 0 0 0 0 (λ b c. plus (rows_cost n) c ≡ rows_cost n)
                (save d cursor_key r.cursor w1) _ (save-Promises cursor_key r.cursor w1)
                (λ b w2.
                  if_cases (Promises 0 0 (λ x c. plus (rows_cost n) c ≡ rows_cost n)) save_version
                    (λ saves.
                      nothing-more (rows_cost n) _ (
                        save-Promises last_schema_version_key (d.version_text d.schema.version) w2))
                    (λ keeps.
                      nothing-more (rows_cost n) _ (return-Promises 0 0 Costless tt w2 refl)))))

  pub adopt-Promises :
      (next : Option String) (changes : Option (SyncChanges DirtyRaw)) (cursor : String)
      (w : d.World)
      → Promises 0 0 (λ n c. c ≡ rows_cost n) (adopt d next changes cursor w)
  unfolding adopt
  adopt-Promises none changes cursor w = return-Promises 0 0 (λ n c. c ≡ rows_cost n) 0 w refl
  adopt-Promises (some next) none cursor w = return-Promises 0 0 (λ n c. c ≡ rows_cost n) 0 w refl
  adopt-Promises (some next) (some changes) cursor w =
      let n = count_rows changes in
      let R : ℕ → Costs → Type 0 = λ m c. c ≡ rows_cost m in
      if_cases (Promises 0 0 R) (same_cursor (d.get_item cursor_key w) (some cursor))
        (λ same.
          fixed-Promises (rows_cost n) 0 0 0 0 R (apply d false changes w) _
            (apply-Promises false changes w)
            (λ a w1.
              then-Promises 0 0 0 0 (λ m c. plus (rows_cost n) c ≡ rows_cost m)
                (save d cursor_key next w1) _ (save-Promises cursor_key next w1)
                (λ b w2.
                  return-Promises 0 0 (λ m c. plus (rows_cost n) c ≡ rows_cost m) n w2
                    (plus-free-right (rows_cost n)))))
        (λ moved. return-Promises 0 0 R 0 w refl)

  pub mark-Promises :
      (local : LocalChanges) (rejected : Map (List String)) (w : d.World)
      → Promises 0 0 (Exactly (mark_cost_of local)) (mark d local rejected w)
  unfolding mark total costs
  mark-Promises local rejected w =
      perform-Promises (marked local ∷ []) _ (Exactly (mark_cost_of local))
        (λ a. marks_only (count_rows local.changes))

  pub confirm_turn-Promises : (w : d.World) → Promises 0 0 Costless (confirm_turn d w)
  unfolding confirm_turn total costs
  confirm_turn-Promises w =
      option_cases (Promises 0 0 Costless) d.request_sync_turn
        (λ no_lease. return-Promises 0 0 Costless true w refl)
        (λ request leased. perform-Promises [] (request w) Costless (λ a. refl))
