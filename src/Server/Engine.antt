-- ===== src/Server/Engine.antt =====
-- packages/server/src/engine.ts: the protocol over a `SyncStore`. This file has the configuration,
-- the errors, and the entry that a push keeps for each table; the steps of a push are in `Partition`,
-- `Screen`, `Hooks` and `Apply`, composed in `Push`; `Reply` builds change sets, and `Pull` answers
-- pulls.
pub mod Partition
pub mod Screen
pub mod Hooks
pub mod Apply
pub mod Reply
pub mod Push
pub mod Pull
use remelon_db.Prelude.Result as Thrown
pub use remelon_db.Prelude.Result.{ok, err, ◌>>=◌, ◌>>◌, ok-injective, >>=-eq-ok}
use remelon_db.Prelude.{
  ℕ, ◌≡◌, refl, String, Bool, not, Option, none, some, List, [], ◌++◌, or_else, filter,
}
use remelon_db.Prelude.Map.{Map, get, set, keys}
use remelon_db.Prelude.Set.{member}
use remelon_db.Server.Store.{WireRow, SyncStore}

-- What a push throws: `SyncProtocolError('unusable-id')`, or a fault of a validation hook.
pub data EngineError : Type 0 where
  unusable_id : EngineError
  unknown_table : String → EngineError
  not_requested : String → String → EngineError

abbrev pub Result {ℓ} : Type ℓ → Type ℓ
Result A = Thrown.Result EngineError A

pub record TableConfig : Type 0 where
  pub validate : Option (WireRow → Bool)
  pub append_only : Bool

pub record TableProposal : Type 0 where
  pub rows : List WireRow
  pub deleted : List String

-- `SyncEngineOptions`. The hooks check records across the push: they read the transaction.
pub record Options {Scope : Type 0} (store : SyncStore Scope) : Type 0 where
  pub tables : Map TableConfig
  pub cross_validate : Option (store.State → Scope → Map (List WireRow) → Map (List String))
  pub cross_validate_changes : Option (store.State → Scope → Map TableProposal → Map (List String))

-- One element of `parsed`.
pub record Entry : Type 0 where
  pub table : String
  pub rows : List WireRow
  pub deletes : List String
  pub all_ids : List String

-- `rejected`: ids by table.
abbrev pub Rejected : Type 0
Rejected = Map (List String)

abbrev pub rejected_ids : String → Rejected → List String
rejected_ids table rejected = or_else (get table rejected) []

-- (rejected[table] ??= []).push(...ids)
unfoldable pub reject : String → List String → Rejected → Rejected
reject table ids rejected = set table (rejected_ids table rejected ++ ids) rejected

abbrev pub without_rows : List String → List WireRow → List WireRow
without_rows drop rows = filter (λ r. not (member r.id drop)) rows

abbrev pub without_ids : List String → List String → List String
without_ids drop ids = filter (λ id. not (member id drop)) ids

-- entry.rows and entry.deletes without the ids
unfoldable pub drop_ids : List String → Entry → Entry
drop_ids drop entry = record entry {
  rows = without_rows drop entry.rows;
  deletes = without_ids drop entry.deletes;
}
