-- ===== src/Log/Store/Runs.antt =====
-- Runs of salamander/src/log/mod.rs: a log that rolls between an event and a batch, one whose active
-- segment holds a system record alone, and the theorems of the log at these.
use salamander_db.Prelude.{
  ℕ, ◌+◌, ◌≤◌, ◌<◌, ◌≡◌, refl, ◌⊎◌, inr, false, some, List, [], ◌∷◌, ◌++◌, arith, leb→le, get_or,
  take, drop, All,
}
use salamander_db.Bytes.{Bytes}
use salamander_db.Errors.{Result, ok, err}
use salamander_db.Format.Types.{Id16, event_type_new, StoredRecord}
use salamander_db.Format.Checksum.{mixing}
use salamander_db.Format.Runs.{sample_envelope, sample_envelope-IsEnvelope}
use salamander_db.Format.Frame.{encode, validate_flags, frame_crc}
use salamander_db.Format.Metadata.{validate_metadata_key, metadata_insert}
use salamander_db.Format.Envelope.Encode.{encode_envelope, encode_entries, encode_entry}
use salamander_db.Format.Cursor.{enforce_limit, write_short_bytes}
use salamander_db.Log.Record.{encode_kind, encode_enveloped}
use salamander_db.Log.Batch.{batch_control_payload, batch_control_envelope}
use salamander_db.Log.Segment.{
  Segment, create, append_enveloped, append_system, append_batch, encode_batch, encode_events,
}
use salamander_db.Log.Segment.Appends.{
  Append, one_event, event_batch, system_record, apply_append, all_events, IsValidAppend,
}
use salamander_db.Log.Segment.Recovery.{total_positions}
use salamander_db.Log.Store.{
  Log, disk_of, append_event, append_events, append_system_record, make_room, roll, open_log,
  half_rolled, head,
}
use salamander_db.Log.Store.Chain.{Chain}
use salamander_db.Log.Store.Appends.{IsLog, log_append, run_log, accepted, run_log-IsLog}
use salamander_db.Log.Store.Reopen.{fresh_log, fresh_log-IsLog, reopened_log, disk_with}
use salamander_db.Log.Store.History.{
  scan_all, open_log-run_log, open_log-half_rolled_lem, open_log_crash,
}
use salamander_db.Log.Store.Retain.{retention_boundary, retain_from}
use salamander_db.Log.Store.Retain.Boundary.{IsBase, retention_boundary_lem}
use salamander_db.Log.Store.Retain.Reclaim.{retain_from-Chain, log_append-stuck}

abbrev log_id : Id16
log_id = sample_envelope.event_id

abbrev two_appends : List Append
two_appends =
    one_event sample_envelope (104 ∷ []) ∷ event_batch ((sample_envelope, 105 ∷ []) ∷ []) ∷ []

abbrev one_append : List Append
one_append = one_event sample_envelope (104 ∷ []) ∷ []

-- The first append fills its segment.
abbrev two_segments : Log
two_segments = run_log mixing two_appends (fresh_log log_id 200)

abbrev one_segment : Log
one_segment = run_log mixing one_append (fresh_log log_id 200)

abbrev full_of_system : Log
full_of_system = run_log mixing (system_record sample_envelope (1 ∷ []) ∷ []) (fresh_log log_id 200)

two_valid : All IsValidAppend two_appends
two_valid = (sample_envelope-IsEnvelope, (((sample_envelope-IsEnvelope, refl), tt), tt))

two_accepted : accepted mixing two_appends (fresh_log log_id 200) ≡ two_appends
unfolding accepted log_append append_event append_events make_room roll append_enveloped
    append_batch encode_batch encode_events create encode_enveloped encode_kind
    batch_control_envelope batch_control_payload encode encode_envelope encode_entries encode_entry
    frame_crc enforce_limit write_short_bytes validate_metadata_key validate_flags event_type_new
    metadata_insert
two_accepted = refl

open_log-run_log_example :
    (scan_all mixing (disk_of two_segments).segments
      ≡ some (ok (all_events 0 (accepted mixing two_appends (fresh_log log_id 200)))))
    × (head two_segments ≡ total_positions (accepted mixing two_appends (fresh_log log_id 200)))
    × (open_log mixing log_id 200 false (disk_of two_segments)
        ≡ some (ok (reopened_log 200 two_segments)))
open_log-run_log_example =
    open_log-run_log mixing log_id 200 false two_appends two_valid (omega arith)

abbrev one_rolled : Log
one_rolled = record one_segment {
  closed = (0, one_segment.active.file) ∷ [];
  active = create 1;
  manifest = record one_segment.manifest { active_segment_base = 1; next_offset = 1 };
  written = record one_segment.manifest { active_segment_base = 1; next_offset = 1 };
}

roll_one : roll one_segment ≡ ok one_rolled
unfolding run_log log_append append_event append_events make_room roll append_enveloped append_batch
    encode_batch encode_events create encode_enveloped encode_kind encode encode_envelope
    encode_entries encode_entry frame_crc enforce_limit write_short_bytes validate_metadata_key
    validate_flags event_type_new
roll_one = refl

open_log-half_rolled_lem_example :
    open_log mixing log_id 200 false (half_rolled one_segment)
    ≡ some (ok (reopened_log 200 one_segment))
open_log-half_rolled_lem_example =
    open_log-half_rolled_lem mixing log_id 200 false one_append one_rolled
      (sample_envelope-IsEnvelope, tt) (omega arith) roll_one

abbrev segment_or : Segment → Result Segment → Segment
segment_or s (ok s') = s'
segment_or s (err e) = s

-- The active segment with the batch, which a crash cuts.
abbrev with_batch : Segment
with_batch =
    segment_or (create 0)
      (apply_append mixing (event_batch ((sample_envelope, 105 ∷ []) ∷ [])) one_segment.active)

with_batch_is :
    apply_append mixing (event_batch ((sample_envelope, 105 ∷ []) ∷ [])) one_segment.active
    ≡ ok with_batch
unfolding run_log log_append append_event append_events make_room roll append_enveloped append_batch
    encode_batch encode_events create encode_enveloped encode_kind batch_control_envelope
    batch_control_payload encode encode_envelope encode_entries encode_entry frame_crc enforce_limit
    write_short_bytes validate_metadata_key validate_flags event_type_new metadata_insert
    apply_append
with_batch_is = refl

with_batch_bytes :
    with_batch.file
    ≡ one_segment.active.file
      ++ (take 500 (drop 201 with_batch.file)
          ++ (get_or (drop 201 with_batch.file) 500 0 ∷ drop 501 (drop 201 with_batch.file)))
unfolding run_log log_append append_event append_events make_room roll append_enveloped append_batch
    encode_batch encode_events create encode_enveloped encode_kind batch_control_envelope
    batch_control_payload encode encode_envelope encode_entries encode_entry frame_crc enforce_limit
    write_short_bytes validate_metadata_key validate_flags event_type_new metadata_insert
    apply_append
with_batch_bytes = refl

open_log_crash_example :
    open_log mixing log_id 200 false
      (disk_with one_segment (one_segment.active.file ++ take 500 (drop 201 with_batch.file)) [])
    ≡ some (ok (reopened_log 200 one_segment))
open_log_crash_example =
    open_log_crash mixing log_id 200 false one_append
      (event_batch ((sample_envelope, 105 ∷ []) ∷ [])) with_batch
      (take 500 (drop 201 with_batch.file)) (get_or (drop 201 with_batch.file) 500 0)
      (drop 501 (drop 201 with_batch.file)) (sample_envelope-IsEnvelope, tt)
      ((sample_envelope-IsEnvelope, refl), tt) (omega arith) with_batch_is with_batch_bytes

retention_boundary_lem_example :
    (two_segments.manifest.retention_floor ≤ (retention_boundary 1 two_segments).0)
    × (((retention_boundary 1 two_segments).0 ≡ two_segments.manifest.retention_floor)
        ⊎ (IsBase (retention_boundary 1 two_segments).0 (disk_of two_segments).segments
            × ((retention_boundary 1 two_segments).0 ≤ 1)))
    × All
        (λ file. (1 < file.0) ⊎ (file.0 ≤ (retention_boundary 1 two_segments).0))
        (disk_of two_segments).segments
retention_boundary_lem_example = retention_boundary_lem 1 two_segments

abbrev held : List StoredRecord
held = all_events 0 (accepted mixing two_appends (fresh_log log_id 200))

two_held : IsLog mixing two_segments held
unfolding create
two_held =
    (run_log-IsLog mixing two_appends (fresh_log log_id 200) [] (fresh_log-IsLog mixing log_id 200)
      two_valid (omega arith)).0

run_log-IsLog_example :
    IsLog mixing two_segments held
    × (head two_segments ≡ 0 + total_positions (accepted mixing two_appends (fresh_log log_id 200)))
unfolding create
run_log-IsLog_example =
    run_log-IsLog mixing two_appends (fresh_log log_id 200) [] (fresh_log-IsLog mixing log_id 200)
      two_valid (omega arith)

retain_from-Chain_example :
    (gone : List (ℕ × Bytes)) × (older : List StoredRecord) × (later : List StoredRecord)
    × (two_segments.closed
        ≡ gone ++ (retain_from two_segments.active.base_offset two_segments.closed).0)
    × (two_held.older ≡ older ++ later)
    × Chain mixing 0 gone two_segments.active.base_offset older
    × Chain mixing two_segments.active.base_offset
        (retain_from two_segments.active.base_offset two_segments.closed).0
        two_segments.active.base_offset
        later
retain_from-Chain_example =
    retain_from-Chain mixing two_segments.active.base_offset 0 two_segments.active.base_offset
      two_segments.closed two_held.older two_held.chain (omega arith) (inr refl)

log_append-stuck_example :
    log_append mixing (one_event sample_envelope (104 ∷ [])) full_of_system
    ≡ (full_of_system, false)
unfolding run_log log_append append_system_record make_room append_system create encode_enveloped
    encode_kind encode encode_envelope encode_entries encode_entry frame_crc enforce_limit
    write_short_bytes validate_metadata_key validate_flags event_type_new
log_append-stuck_example =
    log_append-stuck mixing (one_event sample_envelope (104 ∷ [])) full_of_system
      (leb→le 200 full_of_system.active.len_bytes refl) refl
