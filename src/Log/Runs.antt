-- ===== src/Log/Runs.antt =====
-- Runs of salamander/src/log/segment.rs: a segment with one event and one batch, and the theorems
-- of the segment at concrete inputs.
use salamander_db.Prelude.{◌≡◌, refl, some, [], ◌∷◌, ◌++◌, arith, get_or, take, drop}
use salamander_db.Bytes.{Bytes}
use salamander_db.Format.Types.{event_type_new}
use salamander_db.Log.Scan.{ScanResult, scan_records, clean_eof}
use salamander_db.Log.Segment.{
  Segment, create, append_enveloped, encode_events, encode_batch, append_batch, open_segment,
}
use salamander_db.Log.Segment.Appends.{
  Append, apply_append, run_appends, all_events, IsValidAppend, one_event, event_batch,
}
use salamander_db.Errors.{Result, ok}
use salamander_db.Format.Checksum.{mixing}
use salamander_db.Format.Runs.{sample_envelope, sample_envelope-IsEnvelope}
use salamander_db.Format.Frame.{encode, validate_flags, frame_crc}
use salamander_db.Format.Metadata.{validate_metadata_key, metadata_insert}
use salamander_db.Format.Envelope.Encode.{encode_envelope, encode_entries, encode_entry}
use salamander_db.Format.Cursor.{enforce_limit, write_short_bytes}
use salamander_db.Log.Record.{encode_kind, encode_enveloped}
use salamander_db.Log.Batch.{batch_control_payload, batch_control_envelope, parse_batch_control}
use salamander_db.Log.Scan.Rounds.{scan_records_total}
use salamander_db.Log.Scan.Contiguous.{IsScanned, scan_records-IsScanned}
use salamander_db.Log.Segment.Control.{parse_batch_control-batch_control_payload}
use salamander_db.Log.Segment.Recovery.{open_segment-run_appends, open_segment_crash}

abbrev event_append : Append
event_append = one_event sample_envelope (104 ∷ [])

abbrev batch_append : Append
batch_append = event_batch ((sample_envelope, 105 ∷ []) ∷ [])

abbrev event_bytes : Bytes
event_bytes =
    83 ∷ 68 ∷ 66 ∷ 50 ∷ 2 ∷ 0 ∷ 1 ∷ 0 ∷ 168 ∷ 0 ∷ 0 ∷ 0 ∷ 1 ∷ 0 ∷ 0 ∷ 0 ∷ 5 ∷ 0 ∷ 0 ∷ 0 ∷ 0 ∷ 0 ∷ 0
    ∷ 0 ∷ 80 ∷ 248 ∷ 187 ∷ 224 ∷ 0 ∷ 0 ∷ 0 ∷ 0 ∷ 1 ∷ 0 ∷ 1 ∷ 2 ∷ 3 ∷ 4 ∷ 5 ∷ 6 ∷ 7 ∷ 8 ∷ 9 ∷ 10 ∷ 11
    ∷ 12 ∷ 13 ∷ 14 ∷ 15 ∷ 255 ∷ 0 ∷ 0 ∷ 0 ∷ 0 ∷ 0 ∷ 0 ∷ 0 ∷ 0 ∷ 0 ∷ 0 ∷ 0 ∷ 0 ∷ 0 ∷ 0 ∷ 0 ∷ 0 ∷ 0
    ∷ 0 ∷ 0 ∷ 0 ∷ 0 ∷ 0 ∷ 0 ∷ 0 ∷ 0 ∷ 0 ∷ 0 ∷ 0 ∷ 0 ∷ 0 ∷ 0 ∷ 0 ∷ 1 ∷ 2 ∷ 3 ∷ 4 ∷ 5 ∷ 6 ∷ 7 ∷ 8 ∷ 9
    ∷ 10 ∷ 11 ∷ 12 ∷ 13 ∷ 14 ∷ 15 ∷ 255 ∷ 7 ∷ 0 ∷ 0 ∷ 0 ∷ 0 ∷ 0 ∷ 0 ∷ 0 ∷ 251 ∷ 255 ∷ 255 ∷ 255
    ∷ 255 ∷ 255 ∷ 255 ∷ 255 ∷ 12 ∷ 0 ∷ 111 ∷ 114 ∷ 100 ∷ 101 ∷ 114 ∷ 46 ∷ 112 ∷ 108 ∷ 97 ∷ 99 ∷ 101
    ∷ 100 ∷ 1 ∷ 0 ∷ 0 ∷ 0 ∷ 1 ∷ 0 ∷ 0 ∷ 128 ∷ 1 ∷ 2 ∷ 3 ∷ 4 ∷ 5 ∷ 6 ∷ 7 ∷ 8 ∷ 9 ∷ 10 ∷ 11 ∷ 12 ∷ 13
    ∷ 14 ∷ 15 ∷ 255 ∷ 0 ∷ 0 ∷ 0 ∷ 0 ∷ 2 ∷ 0 ∷ 5 ∷ 0 ∷ 97 ∷ 99 ∷ 116 ∷ 111 ∷ 114 ∷ 2 ∷ 0 ∷ 0 ∷ 0 ∷ 1
    ∷ 2 ∷ 22 ∷ 0 ∷ 115 ∷ 97 ∷ 108 ∷ 97 ∷ 109 ∷ 97 ∷ 110 ∷ 100 ∷ 101 ∷ 114 ∷ 46 ∷ 115 ∷ 116 ∷ 114
    ∷ 101 ∷ 97 ∷ 109 ∷ 95 ∷ 110 ∷ 97 ∷ 109 ∷ 101 ∷ 1 ∷ 0 ∷ 0 ∷ 0 ∷ 115 ∷ 104 ∷ []

abbrev batch_bytes : Bytes
batch_bytes =
    83 ∷ 68 ∷ 66 ∷ 50 ∷ 2 ∷ 0 ∷ 3 ∷ 0 ∷ 245 ∷ 0 ∷ 0 ∷ 0 ∷ 8 ∷ 0 ∷ 0 ∷ 0 ∷ 6 ∷ 0 ∷ 0 ∷ 0 ∷ 0 ∷ 0 ∷ 0
    ∷ 0 ∷ 7 ∷ 250 ∷ 152 ∷ 120 ∷ 0 ∷ 0 ∷ 0 ∷ 0 ∷ 1 ∷ 0 ∷ 1 ∷ 2 ∷ 3 ∷ 4 ∷ 5 ∷ 6 ∷ 7 ∷ 8 ∷ 9 ∷ 10 ∷ 11
    ∷ 12 ∷ 13 ∷ 14 ∷ 15 ∷ 255 ∷ 0 ∷ 0 ∷ 0 ∷ 0 ∷ 0 ∷ 0 ∷ 0 ∷ 0 ∷ 0 ∷ 0 ∷ 0 ∷ 0 ∷ 0 ∷ 0 ∷ 0 ∷ 0 ∷ 0
    ∷ 0 ∷ 0 ∷ 0 ∷ 0 ∷ 0 ∷ 0 ∷ 0 ∷ 0 ∷ 0 ∷ 0 ∷ 0 ∷ 0 ∷ 0 ∷ 0 ∷ 0 ∷ 1 ∷ 2 ∷ 3 ∷ 4 ∷ 5 ∷ 6 ∷ 7 ∷ 8 ∷ 9
    ∷ 10 ∷ 11 ∷ 12 ∷ 13 ∷ 14 ∷ 15 ∷ 255 ∷ 7 ∷ 0 ∷ 0 ∷ 0 ∷ 0 ∷ 0 ∷ 0 ∷ 0 ∷ 251 ∷ 255 ∷ 255 ∷ 255
    ∷ 255 ∷ 255 ∷ 255 ∷ 255 ∷ 24 ∷ 0 ∷ 115 ∷ 97 ∷ 108 ∷ 97 ∷ 109 ∷ 97 ∷ 110 ∷ 100 ∷ 101 ∷ 114 ∷ 46
    ∷ 98 ∷ 97 ∷ 116 ∷ 99 ∷ 104 ∷ 45 ∷ 99 ∷ 111 ∷ 110 ∷ 116 ∷ 114 ∷ 111 ∷ 108 ∷ 1 ∷ 0 ∷ 0 ∷ 0 ∷ 1 ∷ 0
    ∷ 0 ∷ 128 ∷ 1 ∷ 2 ∷ 3 ∷ 4 ∷ 5 ∷ 6 ∷ 7 ∷ 8 ∷ 9 ∷ 10 ∷ 11 ∷ 12 ∷ 13 ∷ 14 ∷ 15 ∷ 255 ∷ 1 ∷ 0 ∷ 0
    ∷ 0 ∷ 4 ∷ 0 ∷ 5 ∷ 0 ∷ 97 ∷ 99 ∷ 116 ∷ 111 ∷ 114 ∷ 2 ∷ 0 ∷ 0 ∷ 0 ∷ 1 ∷ 2 ∷ 22 ∷ 0 ∷ 115 ∷ 97
    ∷ 108 ∷ 97 ∷ 109 ∷ 97 ∷ 110 ∷ 100 ∷ 101 ∷ 114 ∷ 46 ∷ 98 ∷ 97 ∷ 116 ∷ 99 ∷ 104 ∷ 95 ∷ 99 ∷ 111
    ∷ 117 ∷ 110 ∷ 116 ∷ 4 ∷ 0 ∷ 0 ∷ 0 ∷ 1 ∷ 0 ∷ 0 ∷ 0 ∷ 23 ∷ 0 ∷ 115 ∷ 97 ∷ 108 ∷ 97 ∷ 109 ∷ 97
    ∷ 110 ∷ 100 ∷ 101 ∷ 114 ∷ 46 ∷ 98 ∷ 97 ∷ 116 ∷ 99 ∷ 104 ∷ 95 ∷ 100 ∷ 105 ∷ 103 ∷ 101 ∷ 115 ∷ 116
    ∷ 4 ∷ 0 ∷ 0 ∷ 0 ∷ 19 ∷ 63 ∷ 207 ∷ 120 ∷ 22 ∷ 0 ∷ 115 ∷ 97 ∷ 108 ∷ 97 ∷ 109 ∷ 97 ∷ 110 ∷ 100
    ∷ 101 ∷ 114 ∷ 46 ∷ 115 ∷ 116 ∷ 114 ∷ 101 ∷ 97 ∷ 109 ∷ 95 ∷ 110 ∷ 97 ∷ 109 ∷ 101 ∷ 1 ∷ 0 ∷ 0 ∷ 0
    ∷ 115 ∷ 1 ∷ 0 ∷ 0 ∷ 0 ∷ 19 ∷ 63 ∷ 207 ∷ 120 ∷ 83 ∷ 68 ∷ 66 ∷ 50 ∷ 2 ∷ 0 ∷ 1 ∷ 0 ∷ 168 ∷ 0 ∷ 0
    ∷ 0 ∷ 1 ∷ 0 ∷ 0 ∷ 0 ∷ 6 ∷ 0 ∷ 0 ∷ 0 ∷ 0 ∷ 0 ∷ 0 ∷ 0 ∷ 210 ∷ 153 ∷ 29 ∷ 149 ∷ 0 ∷ 0 ∷ 0 ∷ 0 ∷ 1
    ∷ 0 ∷ 1 ∷ 2 ∷ 3 ∷ 4 ∷ 5 ∷ 6 ∷ 7 ∷ 8 ∷ 9 ∷ 10 ∷ 11 ∷ 12 ∷ 13 ∷ 14 ∷ 15 ∷ 255 ∷ 0 ∷ 0 ∷ 0 ∷ 0 ∷ 0
    ∷ 0 ∷ 0 ∷ 0 ∷ 0 ∷ 0 ∷ 0 ∷ 0 ∷ 0 ∷ 0 ∷ 0 ∷ 0 ∷ 0 ∷ 0 ∷ 0 ∷ 0 ∷ 0 ∷ 0 ∷ 0 ∷ 0 ∷ 0 ∷ 0 ∷ 0 ∷ 0 ∷ 0
    ∷ 0 ∷ 0 ∷ 0 ∷ 1 ∷ 2 ∷ 3 ∷ 4 ∷ 5 ∷ 6 ∷ 7 ∷ 8 ∷ 9 ∷ 10 ∷ 11 ∷ 12 ∷ 13 ∷ 14 ∷ 15 ∷ 255 ∷ 7 ∷ 0 ∷ 0
    ∷ 0 ∷ 0 ∷ 0 ∷ 0 ∷ 0 ∷ 251 ∷ 255 ∷ 255 ∷ 255 ∷ 255 ∷ 255 ∷ 255 ∷ 255 ∷ 12 ∷ 0 ∷ 111 ∷ 114 ∷ 100
    ∷ 101 ∷ 114 ∷ 46 ∷ 112 ∷ 108 ∷ 97 ∷ 99 ∷ 101 ∷ 100 ∷ 1 ∷ 0 ∷ 0 ∷ 0 ∷ 1 ∷ 0 ∷ 0 ∷ 128 ∷ 1 ∷ 2 ∷ 3
    ∷ 4 ∷ 5 ∷ 6 ∷ 7 ∷ 8 ∷ 9 ∷ 10 ∷ 11 ∷ 12 ∷ 13 ∷ 14 ∷ 15 ∷ 255 ∷ 0 ∷ 0 ∷ 0 ∷ 0 ∷ 2 ∷ 0 ∷ 5 ∷ 0 ∷ 97
    ∷ 99 ∷ 116 ∷ 111 ∷ 114 ∷ 2 ∷ 0 ∷ 0 ∷ 0 ∷ 1 ∷ 2 ∷ 22 ∷ 0 ∷ 115 ∷ 97 ∷ 108 ∷ 97 ∷ 109 ∷ 97 ∷ 110
    ∷ 100 ∷ 101 ∷ 114 ∷ 46 ∷ 115 ∷ 116 ∷ 114 ∷ 101 ∷ 97 ∷ 109 ∷ 95 ∷ 110 ∷ 97 ∷ 109 ∷ 101 ∷ 1 ∷ 0
    ∷ 0 ∷ 0 ∷ 115 ∷ 105 ∷ 83 ∷ 68 ∷ 66 ∷ 50 ∷ 2 ∷ 0 ∷ 4 ∷ 0 ∷ 245 ∷ 0 ∷ 0 ∷ 0 ∷ 8 ∷ 0 ∷ 0 ∷ 0 ∷ 6
    ∷ 0 ∷ 0 ∷ 0 ∷ 0 ∷ 0 ∷ 0 ∷ 0 ∷ 200 ∷ 59 ∷ 9 ∷ 255 ∷ 0 ∷ 0 ∷ 0 ∷ 0 ∷ 1 ∷ 0 ∷ 1 ∷ 2 ∷ 3 ∷ 4 ∷ 5 ∷ 6
    ∷ 7 ∷ 8 ∷ 9 ∷ 10 ∷ 11 ∷ 12 ∷ 13 ∷ 14 ∷ 15 ∷ 255 ∷ 0 ∷ 0 ∷ 0 ∷ 0 ∷ 0 ∷ 0 ∷ 0 ∷ 0 ∷ 0 ∷ 0 ∷ 0 ∷ 0
    ∷ 0 ∷ 0 ∷ 0 ∷ 0 ∷ 0 ∷ 0 ∷ 0 ∷ 0 ∷ 0 ∷ 0 ∷ 0 ∷ 0 ∷ 0 ∷ 0 ∷ 0 ∷ 0 ∷ 0 ∷ 0 ∷ 0 ∷ 0 ∷ 1 ∷ 2 ∷ 3 ∷ 4
    ∷ 5 ∷ 6 ∷ 7 ∷ 8 ∷ 9 ∷ 10 ∷ 11 ∷ 12 ∷ 13 ∷ 14 ∷ 15 ∷ 255 ∷ 7 ∷ 0 ∷ 0 ∷ 0 ∷ 0 ∷ 0 ∷ 0 ∷ 0 ∷ 251
    ∷ 255 ∷ 255 ∷ 255 ∷ 255 ∷ 255 ∷ 255 ∷ 255 ∷ 24 ∷ 0 ∷ 115 ∷ 97 ∷ 108 ∷ 97 ∷ 109 ∷ 97 ∷ 110 ∷ 100
    ∷ 101 ∷ 114 ∷ 46 ∷ 98 ∷ 97 ∷ 116 ∷ 99 ∷ 104 ∷ 45 ∷ 99 ∷ 111 ∷ 110 ∷ 116 ∷ 114 ∷ 111 ∷ 108 ∷ 1
    ∷ 0 ∷ 0 ∷ 0 ∷ 1 ∷ 0 ∷ 0 ∷ 128 ∷ 1 ∷ 2 ∷ 3 ∷ 4 ∷ 5 ∷ 6 ∷ 7 ∷ 8 ∷ 9 ∷ 10 ∷ 11 ∷ 12 ∷ 13 ∷ 14 ∷ 15
    ∷ 255 ∷ 1 ∷ 0 ∷ 0 ∷ 0 ∷ 4 ∷ 0 ∷ 5 ∷ 0 ∷ 97 ∷ 99 ∷ 116 ∷ 111 ∷ 114 ∷ 2 ∷ 0 ∷ 0 ∷ 0 ∷ 1 ∷ 2 ∷ 22
    ∷ 0 ∷ 115 ∷ 97 ∷ 108 ∷ 97 ∷ 109 ∷ 97 ∷ 110 ∷ 100 ∷ 101 ∷ 114 ∷ 46 ∷ 98 ∷ 97 ∷ 116 ∷ 99 ∷ 104
    ∷ 95 ∷ 99 ∷ 111 ∷ 117 ∷ 110 ∷ 116 ∷ 4 ∷ 0 ∷ 0 ∷ 0 ∷ 1 ∷ 0 ∷ 0 ∷ 0 ∷ 23 ∷ 0 ∷ 115 ∷ 97 ∷ 108 ∷ 97
    ∷ 109 ∷ 97 ∷ 110 ∷ 100 ∷ 101 ∷ 114 ∷ 46 ∷ 98 ∷ 97 ∷ 116 ∷ 99 ∷ 104 ∷ 95 ∷ 100 ∷ 105 ∷ 103 ∷ 101
    ∷ 115 ∷ 116 ∷ 4 ∷ 0 ∷ 0 ∷ 0 ∷ 19 ∷ 63 ∷ 207 ∷ 120 ∷ 22 ∷ 0 ∷ 115 ∷ 97 ∷ 108 ∷ 97 ∷ 109 ∷ 97
    ∷ 110 ∷ 100 ∷ 101 ∷ 114 ∷ 46 ∷ 115 ∷ 116 ∷ 114 ∷ 101 ∷ 97 ∷ 109 ∷ 95 ∷ 110 ∷ 97 ∷ 109 ∷ 101 ∷ 1
    ∷ 0 ∷ 0 ∷ 0 ∷ 115 ∷ 1 ∷ 0 ∷ 0 ∷ 0 ∷ 19 ∷ 63 ∷ 207 ∷ 120 ∷ []

abbrev one_segment : Segment
one_segment = record { file = event_bytes; base_offset = 5; len_bytes = 201; next_offset = 6 }

abbrev full_segment : Segment
full_segment = record {
  file = event_bytes ++ batch_bytes;
  base_offset = 5;
  len_bytes = 972;
  next_offset = 7;
}

run_event : run_appends mixing (event_append ∷ []) (create 5) ≡ ok one_segment
unfolding run_appends apply_append append_enveloped append_batch encode_batch encode_events create
    encode_enveloped encode_kind batch_control_envelope batch_control_payload encode encode_envelope
    encode_entries encode_entry frame_crc enforce_limit write_short_bytes validate_metadata_key
    validate_flags event_type_new metadata_insert
run_event = refl

run_batch : apply_append mixing batch_append one_segment ≡ ok full_segment
unfolding apply_append append_enveloped append_batch encode_batch encode_events create
    encode_enveloped encode_kind batch_control_envelope batch_control_payload encode encode_envelope
    encode_entries encode_entry frame_crc enforce_limit write_short_bytes validate_metadata_key
    validate_flags event_type_new metadata_insert
run_batch = refl

run_both : run_appends mixing (event_append ∷ batch_append ∷ []) (create 5) ≡ ok full_segment
unfolding run_appends apply_append append_enveloped append_batch encode_batch encode_events create
    encode_enveloped encode_kind batch_control_envelope batch_control_payload encode encode_envelope
    encode_entries encode_entry frame_crc enforce_limit write_short_bytes validate_metadata_key
    validate_flags event_type_new metadata_insert
run_both = refl

batch_valid : IsValidAppend batch_append
batch_valid = ((sample_envelope-IsEnvelope, refl), tt)

open_segment-run_appends_example :
    (scan_records mixing full_segment.file 5
      ≡ some (
          ok (record {
            records = all_events 5 (event_append ∷ batch_append ∷ []);
            system_records = [];
            valid_bytes = 972;
            next_offset = 7;
            stop = clean_eof;
          })))
    × (open_segment mixing 5 full_segment.file ≡ some (ok full_segment))
open_segment-run_appends_example =
    open_segment-run_appends mixing 5 (event_append ∷ batch_append ∷ []) full_segment
      (sample_envelope-IsEnvelope, (batch_valid, tt)) (omega arith) run_both

open_segment_crash_example :
    open_segment mixing 5 (event_bytes ++ take 500 batch_bytes) ≡ some (ok one_segment)
open_segment_crash_example =
    open_segment_crash mixing 5 (event_append ∷ []) batch_append one_segment full_segment
      (take 500 batch_bytes) (get_or batch_bytes 500 0) (drop 501 batch_bytes)
      (sample_envelope-IsEnvelope, tt) batch_valid (omega arith) run_event run_batch refl

scan_records_total_example :
    (r : Result ScanResult) × (scan_records mixing (take 250 (event_bytes ++ batch_bytes)) 5
      ≡ some r)
scan_records_total_example = scan_records_total mixing (take 250 (event_bytes ++ batch_bytes)) 5

both_scanned :
    scan_records mixing full_segment.file 5
    ≡ some (
        ok (record {
          records = all_events 5 (event_append ∷ batch_append ∷ []);
          system_records = [];
          valid_bytes = 972;
          next_offset = 7;
          stop = clean_eof;
        }))
both_scanned =
    (open_segment-run_appends mixing 5 (event_append ∷ batch_append ∷ []) full_segment
      (sample_envelope-IsEnvelope, (batch_valid, tt)) (omega arith) run_both).0

scan_records-IsScanned_example : IsScanned 5 full_segment.file (record {
  records = all_events 5 (event_append ∷ batch_append ∷ []);
  system_records = [];
  valid_bytes = 972;
  next_offset = 7;
  stop = clean_eof;
})
scan_records-IsScanned_example = scan_records-IsScanned mixing full_segment.file 5 _ both_scanned

parse_batch_control-batch_control_payload_example :
    parse_batch_control (batch_control_payload 3 4096) ≡ ok (3, 4096)
parse_batch_control-batch_control_payload_example =
    parse_batch_control-batch_control_payload 3 4096 (omega arith) (omega arith) (omega arith)
