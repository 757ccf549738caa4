-- ===== src/Wire.antt =====
-- What crosses the wire: packages/core/src/sync/types.ts, and the untyped objects of
-- packages/core/src/rawRecord/index.ts.
use remelon_db.Prelude.{ℕ, String, Bool, Option, List, or_else}
use remelon_db.Prelude.Map.{Map, get}

-- A JavaScript number by the distinctions that the program makes: an integral value (-0 is 0), a
-- value with a fractional part, and NaN (`non_finite 0`) or an infinity. Otherwise the numbers of
-- `fraction` and `non_finite` only tell values apart.
pub data JsNumber : Type 0 where
  whole : ℕ → JsNumber
  negative : ℕ → JsNumber
  fraction : ℕ → JsNumber
  non_finite : ℕ → JsNumber

-- `unknown`: the values that the program tells apart. `other` is an object or any value of a type
-- that no test of the program names.
pub data JsValue : Type 0 where
  undefined null : JsValue
  boolean : Bool → JsValue
  number : JsNumber → JsValue
  string : String → JsValue
  bytes : List ℕ → JsValue
  other : ℕ → JsValue

-- `DirtyRaw`: untrusted input.
abbrev pub DirtyRaw : Type 0
DirtyRaw = Map JsValue

-- dirty[key]
abbrev pub field : String → DirtyRaw → JsValue
field key dirty = or_else (get key dirty) undefined

-- `SyncTableChanges`, over the rows that it carries.
pub record TableChanges (Row : Type 0) : Type 0 where
  pub created : List Row
  pub updated : List Row
  pub deleted : List String

abbrev pub SyncChanges : Type 0 → Type 0
SyncChanges Row = Map (TableChanges Row)

-- The shape of `MigrationSyncChanges`.
pub record MigrationSyncChanges : Type 0 where
  pub from : ℕ
  pub tables : List String
  pub columns : Map (List String)

pub record SyncPullArgs : Type 0 where
  pub cursor : Option String
  pub schema_version : ℕ
  pub migration : Option MigrationSyncChanges

pub data SyncPullResult (Row : Type 0) : Type 0 where
  pulled : SyncChanges Row → String → SyncPullResult Row
  resync_required : SyncPullResult Row

pub record SyncPushArgs (Row : Type 0) : Type 0 where
  pub changes : SyncChanges Row
  pub cursor : String

-- The fields of a push that was not a conflict; an absent `rejected` is the empty map.
pub record Pushed (Row : Type 0) : Type 0 where
  pub cursor : Option String
  pub changes : Option (SyncChanges Row)
  pub rejected : Map (List String)

pub data SyncPushResult (Row : Type 0) : Type 0 where
  pushed : Pushed Row → SyncPushResult Row
  conflict : SyncPushResult Row
