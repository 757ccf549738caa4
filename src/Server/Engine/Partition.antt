-- ===== src/Server/Engine/Partition.antt =====
-- engine.ts, `push`: the request is partitioned by table; an id that is no non-empty string is
-- thrown, one id stated twice means its last statement, and a deletion supersedes the content.
pub mod Named
use remelon_db.Prelude.{String, Option, none, some, List, [], ◌∷◌, ◌++◌, ◌==◌, map, if◌then◌else◌}
use remelon_db.Prelude.Map.{Map, get, set, remove, keys, values}
use remelon_db.Prelude.Set.{unique}
use remelon_db.Wire.{JsValue, string, DirtyRaw, field, TableChanges, SyncChanges}
use remelon_db.Server.Store.{WireRow}
use remelon_db.Server.Engine.{EngineError, unusable_id, Result, ok, err, ◌>>=◌, Entry}

-- typeof id !== 'string' || id.length === 0
abbrev pub usable : JsValue → Option String
usable (string id) = if id == "" then none else some id
usable _ = none

abbrev pub wire_row : Option String → DirtyRaw → Result WireRow
wire_row none raw = err unusable_id
wire_row (some id) raw = ok (record { id = id; raw = raw })

-- the loop over [...created, ...updated]
unfoldable pub collect_rows : List DirtyRaw → Map WireRow → Result (Map WireRow)
collect_rows [] by_id = ok by_id
collect_rows (raw ∷ rest) by_id =
    wire_row (usable (field "id" raw)) raw >>= λ row. collect_rows rest (set row.id row by_id)

-- for (const id of deletes) byId.delete(id)
unfoldable pub supersede : List String → Map WireRow → Map WireRow
supersede [] by_id = by_id
supersede (id ∷ rest) by_id = supersede rest (remove id by_id)

abbrev pub stated : Option (TableChanges DirtyRaw) → List DirtyRaw
stated none = []
stated (some change) = change.created ++ change.updated

abbrev pub deletions : Option (TableChanges DirtyRaw) → List String
deletions none = []
deletions (some change) = unique change.deleted

abbrev pub entry_of : String → List String → Map WireRow → Entry
entry_of table deletes by_id = record {
  table = table;
  rows = values by_id;
  deletes = deletes;
  all_ids = keys by_id ++ deletes;
}

unfoldable pub parse_table : SyncChanges DirtyRaw → String → Result Entry
unfolding collect_rows supersede
parse_table changes table =
    let change = get table changes in
    collect_rows (stated change) [] >>= λ by_id.
    ok (entry_of table (deletions change) (supersede (deletions change) by_id))

-- tableNames.map(…)
unfoldable pub parse : SyncChanges DirtyRaw → List String → Result (List Entry)
parse changes [] = ok []
parse changes (table ∷ rest) =
    parse_table changes table >>= λ entry. parse changes rest >>= λ entries. ok (entry ∷ entries)
