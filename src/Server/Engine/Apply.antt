-- ===== src/Server/Engine/Apply.antt =====
-- engine.ts, `push`: the two loops that write to the store.
pub mod Sound
use remelon_db.Prelude.{String, List, [], ◌∷◌, is_empty, if◌then◌else◌}
use remelon_db.Server.Store.{SyncStore}
use remelon_db.Server.Engine.{Entry, Rejected, reject, without_ids}

module _ {Scope : Type 0} (store : SyncStore Scope) where
  -- the entry and the rejections after `upsert` refused `refused`
  abbrev pub fold_refused : List String → Entry → Rejected → Entry × Rejected
  fold_refused refused entry rejected = if is_empty refused then (entry, rejected) else (
    record entry { deletes = without_ids refused entry.deletes },
    reject entry.table refused rejected,
  )

  unfoldable pub upsert_entry :
      Scope → Entry → Rejected → store.State → Entry × Rejected × store.State
  upsert_entry scope entry rejected s =
      if is_empty entry.rows
      then (entry, rejected, s)
      else let (s', refused) = store.upsert entry.table scope entry.rows s in
        let (entry', rejected') = fold_refused refused entry rejected in (entry', rejected', s')

  unfoldable pub upsert_all :
      Scope → List Entry → Rejected → store.State → List Entry × Rejected × store.State
  unfolding upsert_entry
  upsert_all scope [] rejected s = ([], rejected, s)
  upsert_all scope (entry ∷ rest) rejected s =
      let (entry', rejected', s') = upsert_entry scope entry rejected s in
      let (rest', rejected'', s'') = upsert_all scope rest rejected' s' in
      (entry' ∷ rest', rejected'', s'')

  unfoldable pub tombstone_all : Scope → List Entry → store.State → store.State
  tombstone_all scope [] s = s
  tombstone_all scope (entry ∷ rest) s =
      tombstone_all scope rest
        (if is_empty entry.deletes then s else store.tombstone entry.table scope entry.deletes s)
