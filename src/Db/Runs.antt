-- ===== src/Db/Runs.antt =====
-- Runs of salamander/src/db.rs: a new database of bytes with one view that counts, and the theorems of
-- the handle at it.
use salamander_db.Prelude.{
  ℕ, ◌+◌, ◌≡◌, refl, ◌⊎◌, true, none, some, List, [], ◌∷◌, ltb, ltb→lt, All,
}
use salamander_db.Bytes.{Bytes, codes, is_utf8}
use salamander_db.Errors.{Result, ok}
use salamander_db.Format.Types.{Id16, id_zero, event_type_new}
use salamander_db.Format.Checksum.{mixing}
use salamander_db.Format.Runs.{sample_envelope}
use salamander_db.Format.Frame.{encode, validate_flags, frame_crc}
use salamander_db.Format.Metadata.{validate_metadata_key, metadata_insert, metadata_get}
use salamander_db.Format.Envelope.Encode.{encode_envelope, encode_entries, encode_entry}
use salamander_db.Format.Cursor.{enforce_limit, write_short_bytes}
use salamander_db.Branch.{initial_catalog, get}
use salamander_db.Branch.Maps.{map_get}
use salamander_db.Commit.{manual, should_commit}
use salamander_db.Log.Record.{encode_kind, encode_enveloped}
use salamander_db.Log.Batch.{batch_control_payload, batch_control_envelope}
use salamander_db.Log.Segment.{create, append_batch, encode_batch, encode_events}
use salamander_db.Log.Store.{append_events, make_room, roll, head}
use salamander_db.Log.Store.Reopen.{fresh_log}
use salamander_db.Stream.{
  AppendRequest, AppendReceipt, any, flush, flushed, validate_request, revision, stream_id,
  event_digest, event_receipt, batch_receipt, idempotent,
}
use salamander_db.Stream.Keys.{pair_get}
use salamander_db.Stream.Rebuild.{empty_catalog, event_fingerprint, rebuild_streams, rebuild_events}
use salamander_db.Db.{Db, Event, commit, persist_core_catalog, validate_expected, load_core_catalog}
use salamander_db.Db.Digest.{derive_stream_id, timestamp_nanos}
use salamander_db.Db.Plan.{
  Env, plan_append, plan_write, plan_known, plan_new, build_events, event_envelope, digest_of,
  id_conflicts, find_original,
}
use salamander_db.Db.Append.{append_batch_with_id, settle, appended, recorded, receipt_of}
use salamander_db.Db.Cache.{open_catalog}
use salamander_db.Db.Cache.Reopened.{
  Call, append_call, commit_call, run_calls, open_catalog-run_calls,
}
use salamander_db.Db.Recovery.{NoKey}
use salamander_db.Db.Recovery.Rebuilt.{Recovered, append_batch_with_id-Recovered}
use salamander_db.Db.Outcome.{Outcome, append_batch_with_id-Outcome}
use salamander_db.Db.Retry.{append_batch_with_id-again}
mod Crashed

abbrev new_db : Db ℕ
new_db = record {
  log = fresh_log sample_envelope.event_id 4096;
  views = (codes "count", 0) ∷ [];
  policy = manual;
  pending_bytes = 0;
  pending_count = 0;
  catalog = empty_catalog;
  branches = initial_catalog;
  durable_head = 0;
  checkpoint =
      some (record { database_id = sample_envelope.event_id; head = 0; catalog = empty_catalog });
}

abbrev env_at : ℕ → Id16 → Env
env_at now id = record { timestamp_ms = now; elapsed = 0; batch_id = id; event_id = λ index. id }

abbrev order_request : AppendRequest Bytes
order_request = record {
  branch = id_zero;
  stream = codes "orders";
  expected = any;
  idempotency_key = some (codes "k");
  events =
      record {
        event_id = none;
        event_type = codes "placed";
        schema_version = 1;
        metadata = [];
        body = 7 ∷ [];
      }
      ∷ [];
  durability = flush;
}

abbrev count_event : Event Bytes → ℕ → ℕ
count_event e n = n + 1

abbrev plain : Bytes → Result Bytes
plain body = ok body

abbrev after_order : Db ℕ × Result AppendReceipt
after_order =
    append_batch_with_id count_event mixing plain (env_at 5 sample_envelope.event_id) order_request
      none new_db

abbrev order_receipt : AppendReceipt
order_receipt = record {
  batch_id = sample_envelope.event_id;
  first_position = 0;
  last_position = 0;
  stream_id = derive_stream_id sample_envelope.event_id id_zero (codes "orders");
  previous_revision = none;
  current_revision = 0;
  durability = flushed;
}

after_order_is : after_order ≡ (after_order.0, ok order_receipt)
unfolding append_batch_with_id plan_append plan_write plan_known plan_new build_events
    event_envelope digest_of id_conflicts find_original validate_expected validate_request revision
    stream_id event_digest event_receipt batch_receipt idempotent pair_get map_get get settle
    appended recorded receipt_of event_fingerprint timestamp_nanos append_events make_room roll
    append_batch encode_batch encode_events create encode_enveloped encode_kind
    batch_control_envelope batch_control_payload encode encode_envelope encode_entries encode_entry
    frame_crc enforce_limit write_short_bytes validate_metadata_key validate_flags event_type_new
    metadata_insert should_commit derive_stream_id
after_order_is = refl

append_batch_with_id-Outcome_example : Outcome order_request new_db after_order
append_batch_with_id-Outcome_example =
    append_batch_with_id-Outcome mixing plain count_event (env_at 5 sample_envelope.event_id)
      order_request none new_db

head_moved : ltb (head new_db.log) (head after_order.0.log) ≡ true
unfolding append_batch_with_id plan_append plan_write plan_known plan_new build_events
    event_envelope digest_of id_conflicts find_original validate_expected validate_request revision
    stream_id event_digest event_receipt batch_receipt idempotent pair_get map_get get settle
    appended recorded receipt_of event_fingerprint timestamp_nanos append_events make_room roll
    append_batch encode_batch encode_events create encode_enveloped encode_kind
    batch_control_envelope batch_control_payload encode encode_envelope encode_entries encode_entry
    frame_crc enforce_limit write_short_bytes validate_metadata_key validate_flags event_type_new
    metadata_insert should_commit derive_stream_id
head_moved = refl

append_batch_with_id-again_example :
    append_batch_with_id count_event mixing plain
      (env_at 9 id_zero)
      order_request
      (some id_zero)
      after_order.0
    ≡ (after_order.0, ok order_receipt)
append_batch_with_id-again_example =
    append_batch_with_id-again count_event mixing plain (env_at 5 sample_envelope.event_id)
      (env_at 9 id_zero) order_request none (some id_zero) new_db after_order.0 (codes "k")
      order_receipt refl after_order_is (ltb→lt _ _ head_moved)

abbrev order_calls : List (Call Bytes)
order_calls =
    append_call (env_at 5 sample_envelope.event_id) order_request none ∷ (commit_call ∷ [])

abbrev later_db : Db ℕ
later_db = run_calls count_event mixing plain order_calls new_db

opened_new :
    open_catalog mixing sample_envelope.event_id (head new_db.log) none []
    ≡ ok (new_db.catalog, new_db.checkpoint)
unfolding open_catalog load_core_catalog rebuild_streams rebuild_events create
opened_new = refl

opened_later :
    open_catalog mixing sample_envelope.event_id (head later_db.log) later_db.checkpoint []
    ≡ ok (later_db.catalog, later_db.checkpoint)
unfolding open_catalog load_core_catalog commit persist_core_catalog append_batch_with_id
    plan_append plan_write plan_known plan_new build_events event_envelope digest_of id_conflicts
    find_original validate_expected validate_request revision stream_id event_digest event_receipt
    batch_receipt idempotent pair_get map_get get settle appended recorded receipt_of
    event_fingerprint timestamp_nanos append_events make_room roll append_batch encode_batch
    encode_events create encode_enveloped encode_kind batch_control_envelope batch_control_payload
    encode encode_envelope encode_entries encode_entry frame_crc enforce_limit write_short_bytes
    validate_metadata_key validate_flags event_type_new metadata_insert should_commit
    derive_stream_id
opened_later = refl

open_catalog-run_calls_example :
    (later_db.catalog ≡ later_db.catalog) ⊎ (rebuild_streams mixing [] ≡ ok later_db.catalog)
open_catalog-run_calls_example =
    open_catalog-run_calls count_event mixing plain sample_envelope.event_id none
      later_db.checkpoint [] [] new_db order_calls later_db.catalog opened_new opened_later

order_utf8 : is_utf8 order_request.stream ≡ true
unfolding is_utf8
order_utf8 = refl

order_unkeyed : All (λ e. NoKey e.metadata) order_request.events
unfolding metadata_get
order_unkeyed = (refl, tt)

no_events : rebuild_streams mixing [] ≡ ok empty_catalog
unfolding rebuild_streams rebuild_events
no_events = refl

append_batch_with_id-Recovered_example : Recovered mixing [] new_db after_order.0 order_receipt
append_batch_with_id-Recovered_example =
    append_batch_with_id-Recovered mixing plain count_event (env_at 5 sample_envelope.event_id)
      order_request none new_db after_order.0 order_receipt [] empty_catalog order_utf8
      order_unkeyed no_events refl after_order_is (ltb→lt _ _ head_moved)
