-- ===== src/Sync/Synchronize/Tests.antt =====
-- A run of `runSynchronize` on a small device.
use remelon_db.Prelude.{◌*◌, ◌≡◌, refl, String, true, false, none, some, [], ◌∷◌}
use remelon_db.Prelude.Map.{Map, get, set}
use remelon_db.Prelude.Result.{ok, err}
use remelon_db.Schema.Tests.{todos}
use remelon_db.Wire.{pulled, conflict, pushed}
use remelon_db.RawRecord.{created, RawRecord, sql_text, sql_null}
use remelon_db.Sync.{invalid_blob}
use remelon_db.Sync.Synchronize.{pos, acquired, still_conflicting, Device, count_rows}
use remelon_db.Sync.Synchronize.Run.{rejected_records, count_ids}
use remelon_db.Sync.Synchronize.Attempts.{retries, run_synchronize}
use remelon_db.Sync.Synchronize.Costs.{Promises}
use remelon_db.Sync.Synchronize.Report.{IsRunReport, synchronize_reports}

-- a record that the server has not seen
abbrev draft : RawRecord
draft = record {
  id = "a";
  status = created;
  changed = "";
  columns = ("title", sql_text "here") ∷ ("position", sql_null) ∷ [];
}

-- a device with one dirty record, whose local storage is its state; the server accepts the push
abbrev device : Device
device = record {
  World = Map String;
  get_item = λ key w. get key w;
  set_item = λ key value w. set key value w;
  is_aborted = λ w. false;
  request_sync_turn = some (λ w. (w, ok true));
  pull_changes = λ args w. (w, ok (pulled [] "c1"));
  push_changes =
      some (λ args w. (w, ok (pushed (record { cursor = none; changes = none; rejected = [] }))));
  dirty_rows = λ w table. record { created = draft ∷ []; updated = []; tombstones = [] };
  query = λ w table ids. [];
  live = λ w r. r;
  batch = λ operations w. (w, ok tt);
  fresh_id = λ w. "fresh";
  encode_base64 = λ bytes. "";
  decode_base64 = λ text. err invalid_blob;
  number_of = λ text. 1;
  version_text = λ n. "1";
  schema = record { version = 1; tables = ("todos", todos) ∷ [] };
  migrations = none;
  migrations_enabled_at = none;
  conflict_resolver = none;
  conflict_retries = some 2;
}

-- the same device, with a server that answers every push with a conflict
abbrev refused_device : Device
refused_device = record device { push_changes = some (λ args w. (w, ok conflict)) }

accepts :
    (run_synchronize device []).result
    ≡ ok (record {
      lease = acquired;
      resynced = false;
      pulled = 0;
      pushed = pos 1;
      rejected = 0;
      rejected_records = [];
      retry_count = 0;
    })
unfolding run_synchronize get set count_rows rejected_records count_ids
accepts = refl

gives_up : (run_synchronize refused_device []).result ≡ err (still_conflicting 2)
unfolding run_synchronize get set
gives_up = refl

synchronize_reports_example :
    Promises (2 * retries device) (retries device) (IsRunReport device) (run_synchronize device [])
synchronize_reports_example = synchronize_reports device []
