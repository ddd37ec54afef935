-- ===== src/Db/Runs/Crashed.antt =====
-- Runs of salamander/src/db.rs: a synced append to a new database that stops after its first checkpoint.
use salamander_db.Prelude.{ℕ, ◌≡◌, refl, true, none, some, [], ◌∷◌, arith}
use salamander_db.Bytes.{Bytes, is_utf8}
use salamander_db.Errors.{Result, ok, err}
use salamander_db.Format.Types.{id_zero, event_type_new}
use salamander_db.Format.Checksum.{mixing}
use salamander_db.Format.Runs.{sample_envelope}
use salamander_db.Format.Frame.{encode, validate_flags, frame_crc}
use salamander_db.Format.Metadata.{validate_metadata_key, metadata_insert}
use salamander_db.Format.Envelope.Encode.{encode_envelope, encode_entries, encode_entry}
use salamander_db.Format.Cursor.{enforce_limit, write_short_bytes}
use salamander_db.Branch.{get, FromJson, rebuild, rebuild_from, branch_name_new}
use salamander_db.Branch.Maps.{map_get}
use salamander_db.Commit.{manual, should_commit}
use salamander_db.Log.Record.{encode_kind, encode_enveloped}
use salamander_db.Log.Batch.{batch_control_payload, batch_control_envelope}
use salamander_db.Log.Segment.{create, append_batch, encode_batch, encode_events}
use salamander_db.Log.Store.{append_events, make_room, roll, Log, disk_of}
use salamander_db.Log.Store.Reopen.{reopened_log, fresh_log-IsLog}
use salamander_db.Stream.{
  AppendRequest, validate_request, revision, stream_id, event_digest, event_receipt, batch_receipt,
  idempotent, sync,
}
use salamander_db.Stream.Keys.{pair_get}
use salamander_db.Stream.Rebuild.{event_fingerprint}
use salamander_db.Db.{Db, validate_expected}
use salamander_db.Db.Digest.{derive_stream_id, timestamp_nanos}
use salamander_db.Db.Plan.{
  Env, Prepared, plan_append, plan_write, plan_known, plan_new, build_events, event_envelope,
  digest_of, id_conflicts, find_original, Plan, answer, write, start,
}
use salamander_db.Db.Append.{append_batch_with_id, settle, appended, recorded, receipt_of, due}
use salamander_db.Log.Store.Appends.{accepted, IsLog, log_append, run_log, run_log-IsLog}
use salamander_db.Db.Crash.{interrupted, open_db-interrupted}
use salamander_db.Db.Open.{open_db}
use salamander_db.Log.Segment.Appends.{event_batch, IsValidAppend, all_events}
use salamander_db.Db.Runs.{new_db, env_at, order_request, count_event, plain}

abbrev sync_order : AppendRequest Bytes
sync_order = record order_request { durability = sync }

abbrev order_env : Env
order_env = env_at 5 sample_envelope.event_id

abbrev prepared_of : Prepared → Result Plan → Prepared
prepared_of p (ok (write q)) = q
prepared_of p (ok (answer receipt)) = p
prepared_of p (err e) = p

abbrev order_start : Prepared
order_start = start order_env sync_order none new_db [] 0

abbrev order_prepared : Prepared
order_prepared = prepared_of order_start (plan_append mixing plain order_env sync_order none new_db)

order_planned :
    plan_append mixing plain order_env sync_order none new_db ≡ ok (write order_prepared)
unfolding append_batch_with_id plan_append plan_write plan_known plan_new build_events
    event_envelope digest_of id_conflicts find_original validate_expected validate_request revision
    stream_id event_digest event_receipt batch_receipt idempotent pair_get map_get get settle
    appended recorded receipt_of event_fingerprint timestamp_nanos append_events make_room roll
    append_batch encode_batch encode_events create encode_enveloped encode_kind
    batch_control_envelope batch_control_payload encode encode_envelope encode_entries encode_entry
    frame_crc enforce_limit write_short_bytes validate_metadata_key validate_flags event_type_new
    metadata_insert should_commit derive_stream_id
order_planned = refl

abbrev order_log : Log
order_log = run_log mixing (event_batch order_prepared.stored ∷ []) new_db.log

order_taken : append_events mixing order_prepared.stored new_db.log ≡ (order_log, ok (0, 0))
unfolding run_log log_append append_batch_with_id plan_append plan_write plan_known plan_new
    build_events event_envelope digest_of id_conflicts find_original validate_expected
    validate_request revision stream_id event_digest event_receipt batch_receipt idempotent pair_get
    map_get get settle appended recorded receipt_of event_fingerprint timestamp_nanos append_events
    make_room roll append_batch encode_batch encode_events create encode_enveloped encode_kind
    batch_control_envelope batch_control_payload encode encode_envelope encode_entries encode_entry
    frame_crc enforce_limit write_short_bytes validate_metadata_key validate_flags event_type_new
    metadata_insert should_commit derive_stream_id
order_taken = refl

order_valid : IsValidAppend (event_batch order_prepared.stored)
unfolding is_utf8 append_batch_with_id plan_append plan_write plan_known plan_new build_events
    event_envelope digest_of id_conflicts find_original validate_expected validate_request revision
    stream_id event_digest event_receipt batch_receipt idempotent pair_get map_get get settle
    appended recorded receipt_of event_fingerprint timestamp_nanos append_events make_room roll
    append_batch encode_batch encode_events create encode_enveloped encode_kind
    batch_control_envelope batch_control_payload encode encode_envelope encode_entries encode_entry
    frame_crc enforce_limit write_short_bytes validate_metadata_key validate_flags event_type_new
    metadata_insert should_commit derive_stream_id
order_valid = (
  (
    record {
      event_id_len = refl;
      database_id_len = refl;
      branch_id_len = refl;
      stream_id_len = refl;
      revision_u64 = omega arith;
      timestamp_i64 = omega arith;
      event_type_text = refl;
      event_type_valid = refl;
      schema_u32 = omega arith;
      codec_u32 = omega arith;
      batch_id_len = refl;
      batch_index_u32 = omega arith;
      metadata_ordered = ((refl, (refl, tt)), ((refl, tt), (tt, tt)));
      metadata_text = (refl, (refl, (refl, tt)));
    },
    refl,
  ),
  tt,
)

order_held :
    IsLog mixing order_log
      (all_events 0 (accepted mixing (event_batch order_prepared.stored ∷ []) new_db.log))
unfolding create plan_append validate_request get map_get idempotent pair_get plan_write
    validate_expected build_events id_conflicts event_digest plan_new batch_receipt
order_held =
    (run_log-IsLog mixing (event_batch order_prepared.stored ∷ []) new_db.log []
      (fresh_log-IsLog mixing sample_envelope.event_id 4096) (order_valid, tt) (omega arith)).0

order_due :
    due order_env sync_order
      (appended count_event order_env sync_order order_prepared 0 order_log new_db)
    ≡ true
unfolding appended
order_due = refl

abbrev no_json : FromJson
no_json payload = none

no_systems : rebuild no_json [] ≡ ok new_db.branches
unfolding rebuild rebuild_from branch_name_new
no_systems = refl

order_unanchored : order_log.written.retention_anchor_checksum ≡ none
unfolding run_log log_append append_batch_with_id plan_append plan_write plan_known plan_new
    build_events event_envelope digest_of id_conflicts find_original validate_expected
    validate_request revision stream_id event_digest event_receipt batch_receipt idempotent pair_get
    map_get get settle appended recorded receipt_of event_fingerprint timestamp_nanos append_events
    make_room roll append_batch encode_batch encode_events create encode_enveloped encode_kind
    batch_control_envelope batch_control_payload encode encode_envelope encode_entries encode_entry
    frame_crc enforce_limit write_short_bytes validate_metadata_key validate_flags event_type_new
    metadata_insert should_commit derive_stream_id
order_unanchored = refl

abbrev interrupted_order : Db ℕ
interrupted_order =
    interrupted 1 count_event order_env sync_order order_prepared (0, 0) order_log new_db

open_db-interrupted_example :
    (opened : Db ℕ) × (open_db mixing no_json id_zero 4096 manual
        (disk_of interrupted_order.log)
        interrupted_order.checkpoint
        []
        []
      ≡ some (ok opened))
    × (opened.log ≡ reopened_log 4096 order_log)
    × (opened.catalog ≡ new_db.catalog)
    × (plan_append mixing plain (env_at 9 id_zero) order_request none opened
        ≡ plan_append mixing plain (env_at 9 id_zero) order_request none new_db)
    × (plan_append mixing plain order_env sync_order none opened ≡ ok (write order_prepared))
open_db-interrupted_example =
    open_db-interrupted count_event mixing plain no_json order_env (env_at 9 id_zero) sync_order
      order_request none none order_prepared (0, 0) order_log new_db 1 4096 id_zero manual _ [] []
      order_planned order_taken order_due (omega arith) (omega arith) order_held order_unanchored
      no_systems
