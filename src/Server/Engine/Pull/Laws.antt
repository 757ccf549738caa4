-- ===== src/Server/Engine/Pull/Laws.antt =====
-- Pulls: when a cursor is served, and what the answer carries.
use remelon_db.Prelude.{
  ℕ, ◌≤◌, String, ◌≡◌, ◌↔◌, refl, ap, sym, ◌∙◌, subst, false, ◌&&◌, none, some, List, [], arith,
  max, ltb, is_some, inl, inr, Option-cases, Bool-cases, if◌then◌else◌, All,
}
use remelon_db.Prelude.Map.{get-empty}
use remelon_db.Prelude.Set.{member}
use remelon_db.Wire.{SyncPullArgs, pulled, resync_required, SyncChanges}
use remelon_db.Server.Store.{WireRow, SyncStore}
use remelon_db.Server.Cursor.{print_rev, decode_cursor, max_safe_integer}
use remelon_db.Server.Cursor.RoundTrip.{decode_cursor-print_rev}
use remelon_db.Server.Engine.{Options}
use remelon_db.Server.Engine.Reply.Laws.{
  reply_mentions, IsFiled, change_ids, change_set-mentions, get-to_changes,
}
use remelon_db.Server.Engine.Reply.{to_changes, collect_since}
use remelon_db.Server.Engine.Push.{table_names, effective_max}
use remelon_db.Server.Engine.Pull.{pull_since, pull}

module _ {Scope : Type 0} (store : SyncStore Scope) (options : Options store) (scope : Scope)
    (s : store.State) where
  -- A cursor that the engine still serves: it reads as a revision between the retention floor and
  -- the served maximum.
  abbrev pub IsServed : String → Type 0
  IsServed cursor =
      (since : ℕ) × (decode_cursor cursor ≡ some since)
      × (store.gc_floor s ≤ since)
      × (since ≤ effective_max store options scope s)

  -- A pull is answered by `resyncRequired` exactly when it has a cursor that is not served; a pull
  -- without a cursor never is.
  pub pull_resync_iff :
      (args : SyncPullArgs)
      → (pull store options scope args s ≡ resync_required)
        ↔ ((cursor : String) × (args.cursor ≡ some cursor) × (¬ IsServed cursor))
  unfolding pull
  pull_resync_iff args = elim (Option-cases args.cursor) [
    | inl full ↦ (λ e. absurd (unserved full e), λ h. absurd (cursorless full h.1))
    | inr (cursor, present) ↦ elim (Option-cases (decode_cursor cursor)) [
      | inl unread ↦ (
        λ e. (cursor, present, λ served. unreadable cursor served.0 unread served.1),
        λ h. ground (arith, present, unread),
      )
      | inr (since, read) ↦ (
        λ e. (cursor, present, λ served. absurd (in_range cursor since e present read served)),
        λ h.
            out_of_range cursor since present read
              (λ low high. h.2 (subst IsServed (same_cursor present h.1) (since, read, low, high))),
      )
    ]
  ]
    where
      cursorless : {cursor : String} → args.cursor ≡ none → args.cursor ≡ some cursor → ⊥
      cursorless e h = cc

      unserved : args.cursor ≡ none → pull store options scope args s ≡ resync_required → ⊥
      unserved full e = ground arith

      unreadable :
          (cursor : String) (since : ℕ)
          → decode_cursor cursor ≡ none
          → decode_cursor cursor ≡ some since
          → ⊥
      unreadable cursor since e h = cc

      same_cursor : {c d : String} → args.cursor ≡ some c → args.cursor ≡ some d → c ≡ d
      same_cursor e h = cc

      in_range :
          (cursor : String) (since : ℕ)
          → pull store options scope args s ≡ resync_required
          → args.cursor ≡ some cursor
          → decode_cursor cursor ≡ some since
          → IsServed cursor
          → ⊥
      in_range cursor since e present read (n, decoded, low, high) =
          ground (arith, e, present, decoded)

      out_of_range :
          (cursor : String) (since : ℕ)
          → args.cursor ≡ some cursor
          → decode_cursor cursor ≡ some since
          → (store.gc_floor s ≤ since → since ≤ effective_max store options scope s → ⊥)
          → pull store options scope args s ≡ resync_required
      out_of_range cursor since present read outside =
          elim (Bool-cases (ltb since (store.gc_floor s))) [
            | inl below ↦ ground (arith, present, read)
            | inr low ↦ elim (Bool-cases (ltb (effective_max store options scope s) since)) [
              | inl above ↦ ground (arith, present, read)
              | inr high ↦ absurd (outside (ground arith) (ground arith))
            ]
          ]

  -- A pull that is served tells of each table that the engine has exactly the ids whose changes the
  -- store reports since the cursor (since the beginning for a pull without one or with a migration),
  -- and of no other table.
  pub pull-mentions :
      (args : SyncPullArgs) (since : ℕ) (changes : SyncChanges WireRow) (next : String)
      → ((t : String) (n : ℕ) → All IsFiled (store.changed_since t scope n s))
      → pull_since args.cursor ≡ some since
      → pull store options scope args s ≡ pulled changes next
      → (table id : String)
      → reply_mentions changes table id
        ≡ member table (table_names store options)
          && member id (
              change_ids
                (store.changed_since table scope (if is_some args.migration then 0 else since) s))
  unfolding pull
  pull-mentions args since changes next filed read e table id =
      let from : ℕ = if is_some args.migration then 0 else since in
      let built : to_changes (collect_since store (table_names store options) scope from s) []
          ≡ changes =
        ground (arith, e, read) in
      ap (λ c. reply_mentions c table id) (sym built)
      ∙ ground (
        arith,
        get-to_changes store scope from s [] (table_names store options) table,
        change_set-mentions [] (store.changed_since table scope from s) id (filed table from),
        get-empty {V = List String} table,
        not_in_nil,
      )
    where
      not_in_nil : member id [] ≡ false
      not_in_nil = unfold member in refl

  -- The cursor that a pull issues is the numeral of the served maximum.
  pub pull-next :
      (args : SyncPullArgs) (changes : SyncChanges WireRow) (next : String)
      → pull store options scope args s ≡ pulled changes next
      → ((since : ℕ) × (pull_since args.cursor ≡ some since))
        × (next ≡ print_rev (effective_max store options scope s))
  unfolding pull
  pull-next args changes next e = elim (Option-cases (pull_since args.cursor)) [
    | inl unread ↦ absurd (refused unread e)
    | inr (since, read) ↦ ((since, read), issued since read)
  ]
    where
      refused :
          pull_since args.cursor ≡ none → pull store options scope args s ≡ pulled changes next → ⊥
      refused unread e = ground (arith, unread, e)

      top : ℕ
      top = effective_max store options scope s

      within : (since : ℕ) → pull_since args.cursor ≡ some since → since ≤ top
      within since read = elim (Option-cases args.cursor) [
        | inl full ↦ let zero_since : 0 ≡ since = ground (arith, full, read) in omega arith
        | inr (cursor, present) ↦ ground (arith, present, read, e)
      ]

      issued : (since : ℕ) → pull_since args.cursor ≡ some since → next ≡ print_rev top
      issued since read =
          let last : next ≡ print_rev (max since top) = ground (arith, read, e) in
          last ∙ ap print_rev (omega (arith, within since read))

  -- A pull with the cursor of the served maximum is served, and issues the same cursor.
  pub pull_at_top :
      (version : ℕ)
      → effective_max store options scope s ≤ max_safe_integer
      → pull store options scope
          (record {
            cursor = some (print_rev (effective_max store options scope s));
            schema_version = version;
            migration = none;
          })
          s
        ≡ pulled
            (to_changes
              (collect_since store
                (table_names store options)
                scope
                (effective_max store options scope s)
                s)
              [])
            (print_rev (effective_max store options scope s))
  unfolding pull
  pull_at_top version safe =
      let top : ℕ = effective_max store options scope s in
      let same : max top top ≡ top = omega arith in
      ground (arith, decode_cursor-print_rev top safe, same)
