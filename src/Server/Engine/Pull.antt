-- ===== src/Server/Engine/Pull.antt =====
-- engine.ts: the `pull` handler.
pub mod Laws
use remelon_db.Prelude.{
  ℕ, String, Bool, true, false, ◌&&◌, ◌||◌, Option, none, some, [], max, ltb, is_some, not,
  if◌then◌else◌,
}
use remelon_db.Wire.{SyncPullArgs, SyncPullResult, pulled, resync_required}
use remelon_db.Server.Store.{WireRow, SyncStore}
use remelon_db.Server.Cursor.{print_rev, decode_cursor}
use remelon_db.Server.Engine.{Options}
use remelon_db.Server.Engine.Reply.{to_changes, collect_since}
use remelon_db.Server.Engine.Push.{table_names, effective_max}

-- args.cursor === null ? 0 : decodeCursor(args.cursor)
abbrev pub pull_since : Option String → Option ℕ
pull_since none = some 0
pull_since (some cursor) = decode_cursor cursor

module _ {Scope : Type 0} (store : SyncStore Scope) (options : Options store) where
  unfoldable pub pull : Scope → SyncPullArgs → store.State → SyncPullResult WireRow
  pull scope args s =
      let floor = store.gc_floor s in
      let top = effective_max store options scope s in
      elim (pull_since args.cursor) [
        | none ↦ resync_required
        | some since ↦
            if is_some args.cursor && (ltb since floor || ltb top since)
            then resync_required
            else let from = if is_some args.migration then 0 else since in
              pulled (to_changes (collect_since store (table_names store options) scope from s) [])
                (print_rev (max since top))
      ]
