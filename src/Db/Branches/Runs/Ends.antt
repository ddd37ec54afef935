-- ===== src/Db/Branches/Runs/Ends.antt =====
-- Runs of `is_batch_boundary` of salamander/src/db.rs: at the end of the first of two batches.
use salamander_db.Prelude.{
  ℕ, ◌≡◌, refl, sym, none, List, [], ◌∷◌, All, arith, ◌≤◌, ◌-◌, ◌<◌, ◌^◌, false, length,
}
use std.Path.{subst}
use salamander_db.Errors.{ok}
use salamander_db.Format.Types.{RecordEnvelopeV2, Id16, IsEnvelope, id_zero, event_type_new}
use salamander_db.Format.Checksum.{mixing}
use salamander_db.Format.Runs.{sample_envelope, sample_envelope-IsEnvelope}
use salamander_db.Format.Frame.{encode, validate_flags, frame_crc}
use salamander_db.Format.Metadata.{validate_metadata_key, metadata_insert}
use salamander_db.Format.Envelope.Encode.{encode_envelope, encode_entries, encode_entry}
use salamander_db.Format.Cursor.{enforce_limit, write_short_bytes}
use salamander_db.Log.Record.{encode_kind, encode_enveloped}
use salamander_db.Log.Batch.{batch_control_payload, batch_control_envelope}
use salamander_db.Log.Segment.{create, append_enveloped, append_batch, encode_batch, encode_events}
use salamander_db.Log.Segment.Appends.{Append, one_event, event_batch, all_events, IsValidAppend}
use salamander_db.Log.Segment.Recovery.{total_positions}
use salamander_db.Log.Store.{head, append_event, append_events, make_room, roll}
use salamander_db.Log.Store.Appends.{log_append, run_log, accepted}
use salamander_db.Log.Store.Reopen.{fresh_log}
use salamander_db.Log.Store.History.{open_log-run_log}
use salamander_db.Db.{Db}
use salamander_db.Db.Recovery.Whole.{all_ok}
use salamander_db.Db.Branches.{is_batch_boundary}
use salamander_db.Db.Branches.Batches.{from_position}
use salamander_db.Db.Branches.Boundary.{batches_of, is_end, IsApart, is_batch_boundary-is_end}
use salamander_db.Db.Branches.Runs.{lone_db}

abbrev envelope_in : Id16 → ℕ → RecordEnvelopeV2
envelope_in id index = record sample_envelope { batch_id = id; batch_index = index }

envelope_in-IsEnvelope :
    (id : Id16) (index : ℕ) → length id ≡ 16 → index < 2 ^ 32 → IsEnvelope (envelope_in id index)
unfolding event_type_new
envelope_in-IsEnvelope id index size low = record {
  event_id_len = refl;
  database_id_len = refl;
  branch_id_len = refl;
  stream_id_len = refl;
  revision_u64 = omega arith;
  timestamp_i64 = omega arith;
  event_type_text = sample_envelope-IsEnvelope.event_type_text;
  event_type_valid = refl;
  schema_u32 = omega arith;
  codec_u32 = omega arith;
  batch_id_len = size;
  batch_index_u32 = low;
  metadata_ordered = sample_envelope-IsEnvelope.metadata_ordered;
  metadata_text = sample_envelope-IsEnvelope.metadata_text;
}

abbrev first_id : Id16
first_id = sample_envelope.event_id

-- A batch of two events and an event of another batch.
abbrev batches : List Append
batches =
    event_batch ((envelope_in first_id 0, 105 ∷ []) ∷ ((envelope_in first_id 1, 106 ∷ []) ∷ []))
    ∷ (one_event (envelope_in id_zero 0) (104 ∷ []) ∷ [])

batches-IsValidAppend : All IsValidAppend batches
batches-IsValidAppend = (
  (
    (envelope_in-IsEnvelope first_id 0 refl (omega arith), refl),
    ((envelope_in-IsEnvelope first_id 1 refl (omega arith), refl), tt),
  ),
  (envelope_in-IsEnvelope id_zero 0 refl (omega arith), tt),
)

abbrev batch_db : Db ℕ
batch_db = record lone_db { log = run_log mixing batches (fresh_log first_id 200) }

batches-accepted : accepted mixing batches (fresh_log first_id 200) ≡ batches
unfolding accepted log_append append_event append_events make_room roll append_enveloped
    append_batch encode_batch encode_events create encode_enveloped encode_kind
    batch_control_envelope batch_control_payload encode encode_envelope encode_entries encode_entry
    frame_crc enforce_limit write_short_bytes validate_metadata_key validate_flags event_type_new
    metadata_insert
batches-accepted = refl

batches-IsApart : IsApart none (batches_of (accepted mixing batches (fresh_log first_id 200)))
batches-IsApart =
    subst (λ a. IsApart none (batches_of a)) (sym batches-accepted)
      (refl, (refl, tt), (refl, tt, tt))

batch_head : 2 ≤ head batch_db.log
batch_head =
    let size =
      (open_log-run_log mixing first_id 200 false batches batches-IsValidAppend (omega arith)).1 in
    subst (λ n. 2 ≤ n) (sym size)
      (subst (λ a. 2 ≤ total_positions a) (sym batches-accepted) (omega arith))

is_batch_boundary-is_end_example :
    is_batch_boundary batch_db 2 (
      all_ok
        (from_position (2 - 1) (all_events 0 (accepted mixing batches (fresh_log first_id 200)))))
    ≡ ok (is_end 2 (batches_of (accepted mixing batches (fresh_log first_id 200))))
is_batch_boundary-is_end_example =
    is_batch_boundary-is_end mixing first_id 200 batches batch_db
      (all_events 0 (accepted mixing batches (fresh_log first_id 200))) 2 batches-IsValidAppend
      (omega arith) refl
      (open_log-run_log mixing first_id 200 false batches batches-IsValidAppend (omega arith)).0
      batches-IsApart batch_head
