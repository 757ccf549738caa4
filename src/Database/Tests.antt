-- ===== src/Database/Tests.antt =====
-- Batches and work on small inputs.
use remelon_db.Prelude.{◌≡◌, ◌↔◌, refl, true, false, some, List, [], ◌∷◌, length}
use remelon_db.Prelude.Map.{get}
use remelon_db.Prelude.Set.{member}
use remelon_db.Prelude.Result.{ok, err, traverse}
use remelon_db.Prelude.Text.{count_code}
use remelon_db.Schema.Tests.{todos}
use remelon_db.Schema.Tables.{AppSchema}
use remelon_db.RawRecord.{updated, RawRecord, sql_text, sql_null}
use remelon_db.Query.Encode.Placeholders.{marks}
use remelon_db.Database.Batch.{
  BatchOperation, BatchStatement, create, update, destroy_permanently, encode_operation, encode_in,
  encode_batch, encode_into, unknown_table,
}
use remelon_db.Database.Batch.Order.{
  runs_of, is_grouped, first_failure, encode_batch_lem, encode_batch_fails_iff,
}
use remelon_db.Database.Batch.Marks.{IsUnmarked, encode_operation-marks}
use remelon_db.Database.Queue.{
  new_queue, enqueues, work_settles, microtask_runs, QueueEvent, queue_steps,
}
use remelon_db.Database.Queue.Serial.{IsServing, enqueued, work_queue-IsServing}

abbrev schema : AppSchema
schema = record { version = 1; tables = ("todos", todos) ∷ [] }

abbrev raw : RawRecord
raw = record {
  id = "a";
  status = updated;
  changed = "title";
  columns = ("title", sql_text "here") ∷ ("position", sql_null) ∷ [];
}

abbrev operations : List BatchOperation
operations =
    record { type = destroy_permanently; table = "todos"; raw = raw }
    ∷ record { type = destroy_permanently; table = "todos"; raw = record raw { id = "b" } }
    ∷ []

abbrev statements : List BatchStatement
statements =
    ("delete from \"todos\" where \"id\" = ?", (sql_text "a" ∷ []) ∷ (sql_text "b" ∷ []) ∷ []) ∷ []

grouped : encode_batch operations schema ≡ ok statements
unfolding encode_into get
grouped = refl

encode_batch_lem_example :
    (traverse (encode_in schema) operations ≡ ok (runs_of statements))
    × (is_grouped statements ≡ true)
encode_batch_lem_example = encode_batch_lem schema operations statements grouped

abbrev lost : List BatchOperation
lost = record { type = create; table = "notes"; raw = raw } ∷ []

encode_batch_fails_iff_example :
    (encode_batch lost schema ≡ err (unknown_table "notes"))
    ↔ (first_failure schema lost ≡ some (unknown_table "notes"))
encode_batch_fails_iff_example = encode_batch_fails_iff schema lost (unknown_table "notes")

-- a table that is called as a member of every object passes the guard
inherited_table :
    encode_batch
      (record { type = destroy_permanently; table = "constructor"; raw = raw } ∷ [])
      schema
    ≡ ok (("delete from \"Object\" where \"id\" = ?", (sql_text "a" ∷ []) ∷ []) ∷ [])
unfolding encode_into get member
inherited_table = refl

todos-IsUnmarked : IsUnmarked todos
unfolding count_code
todos-IsUnmarked = record { name = refl; columns = (refl, (refl, tt)) }

encode_operation-marks_example :
    marks (encode_operation update raw todos).0 ≡ length (encode_operation update raw todos).1
encode_operation-marks_example = encode_operation-marks update raw todos todos-IsUnmarked

abbrev work : List QueueEvent
work =
    enqueues (record { work = 1; is_writer = true })
    ∷ enqueues (record { work = 2; is_writer = false })
    ∷ work_settles
    ∷ microtask_runs
    ∷ []

work_queue-IsServing_example : IsServing (enqueued work) (queue_steps work new_queue)
work_queue-IsServing_example = work_queue-IsServing work
