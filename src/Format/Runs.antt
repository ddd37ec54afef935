-- ===== src/Format/Runs.antt =====
-- Runs of the codec of salamander/src/format/mod.rs, and its theorems at concrete inputs.
use salamander_db.Prelude.{
  ◌≤◌, ◌≡◌, refl, ◌≢◌, none, some, [], ◌∷◌, ◌++◌, arith, length, get_or, take, drop,
}
use salamander_db.Bytes.{Bytes, from_le_bytes, slice, codes, is_utf8, negsuc}
use salamander_db.Errors.{ok, err, corrupt}
use salamander_db.Format.Types.{
  frame_header_len, Id16, id_zero, codec_rust_bincode_v1, event_type_new, RecordEnvelopeV2,
  StoredRecord, default_limits, IsLimits, IsEnvelope, IsStored, event,
}
use salamander_db.Format.Frame.{validate_flags, frame_crc, encode, frame_total_len, decode}
use salamander_db.Format.Cursor.{enforce_limit, write_short_bytes}
use salamander_db.Format.Metadata.{validate_metadata_key}
use salamander_db.Format.Envelope.Encode.{encode_entry, encode_entries, encode_envelope}
use salamander_db.Format.Checksum.{mixing}
use salamander_db.Format.Frame.RoundTrip.{decode-encode}
use salamander_db.Format.Frame.Torn.{decode_torn, decode_damaged}
use salamander_db.Format.Frame.Probe.{frame_total_len-decode, decode-append}
use salamander_db.Format.Envelope.Decode.{decode_envelope}
use salamander_db.Format.Envelope.RoundTrip.{decode_envelope-encode_envelope}

abbrev some_id : Id16
some_id = 1 ∷ 2 ∷ 3 ∷ 4 ∷ 5 ∷ 6 ∷ 7 ∷ 8 ∷ 9 ∷ 10 ∷ 11 ∷ 12 ∷ 13 ∷ 14 ∷ 15 ∷ 255 ∷ []

abbrev pub sample_envelope : RecordEnvelopeV2
sample_envelope = record {
  event_id = some_id;
  database_id = id_zero;
  branch_id = id_zero;
  stream_id = some_id;
  stream_revision = 7;
  timestamp_unix_nanos = negsuc 4;
  event_type = codes "order.placed";
  schema_version = 1;
  codec = codec_rust_bincode_v1;
  batch_id = some_id;
  batch_index = 0;
  metadata = (codes "actor", 1 ∷ 2 ∷ []) ∷ (codes "salamander.stream_name", codes "s") ∷ [];
}

abbrev pub sample : StoredRecord
sample = record {
  kind = event;
  flags = 0;
  position = 300;
  envelope = sample_envelope;
  payload = 104 ∷ 105 ∷ [];
}

pub default_limits-IsLimits : IsLimits default_limits
default_limits-IsLimits = omega arith

pub sample_envelope-IsEnvelope : IsEnvelope sample_envelope
unfolding is_utf8 event_type_new
sample_envelope-IsEnvelope = record {
  event_id_len = refl;
  database_id_len = refl;
  branch_id_len = refl;
  stream_id_len = refl;
  revision_u64 = omega arith;
  timestamp_i64 = omega arith;
  event_type_text = refl;
  event_type_valid = refl;
  schema_u32 = omega arith;
  codec_u32 = omega arith;
  batch_id_len = refl;
  batch_index_u32 = omega arith;
  metadata_ordered = ((refl, tt), (tt, tt));
  metadata_text = (refl, (refl, tt));
}

pub sample-IsStored : IsStored sample
sample-IsStored = record { position_u64 = omega arith; envelope_valid = sample_envelope-IsEnvelope }

-- The bytes of the sample's envelope and frame.
abbrev envelope_bytes : Bytes
envelope_bytes =
    1 ∷ 0 ∷ 1 ∷ 2 ∷ 3 ∷ 4 ∷ 5 ∷ 6 ∷ 7 ∷ 8 ∷ 9 ∷ 10 ∷ 11 ∷ 12 ∷ 13 ∷ 14 ∷ 15 ∷ 255 ∷ 0 ∷ 0 ∷ 0 ∷ 0
    ∷ 0 ∷ 0 ∷ 0 ∷ 0 ∷ 0 ∷ 0 ∷ 0 ∷ 0 ∷ 0 ∷ 0 ∷ 0 ∷ 0 ∷ 0 ∷ 0 ∷ 0 ∷ 0 ∷ 0 ∷ 0 ∷ 0 ∷ 0 ∷ 0 ∷ 0 ∷ 0 ∷ 0
    ∷ 0 ∷ 0 ∷ 0 ∷ 0 ∷ 1 ∷ 2 ∷ 3 ∷ 4 ∷ 5 ∷ 6 ∷ 7 ∷ 8 ∷ 9 ∷ 10 ∷ 11 ∷ 12 ∷ 13 ∷ 14 ∷ 15 ∷ 255 ∷ 7 ∷ 0
    ∷ 0 ∷ 0 ∷ 0 ∷ 0 ∷ 0 ∷ 0 ∷ 251 ∷ 255 ∷ 255 ∷ 255 ∷ 255 ∷ 255 ∷ 255 ∷ 255 ∷ 12 ∷ 0 ∷ 111 ∷ 114
    ∷ 100 ∷ 101 ∷ 114 ∷ 46 ∷ 112 ∷ 108 ∷ 97 ∷ 99 ∷ 101 ∷ 100 ∷ 1 ∷ 0 ∷ 0 ∷ 0 ∷ 1 ∷ 0 ∷ 0 ∷ 128 ∷ 1
    ∷ 2 ∷ 3 ∷ 4 ∷ 5 ∷ 6 ∷ 7 ∷ 8 ∷ 9 ∷ 10 ∷ 11 ∷ 12 ∷ 13 ∷ 14 ∷ 15 ∷ 255 ∷ 0 ∷ 0 ∷ 0 ∷ 0 ∷ 2 ∷ 0 ∷ 5
    ∷ 0 ∷ 97 ∷ 99 ∷ 116 ∷ 111 ∷ 114 ∷ 2 ∷ 0 ∷ 0 ∷ 0 ∷ 1 ∷ 2 ∷ 22 ∷ 0 ∷ 115 ∷ 97 ∷ 108 ∷ 97 ∷ 109
    ∷ 97 ∷ 110 ∷ 100 ∷ 101 ∷ 114 ∷ 46 ∷ 115 ∷ 116 ∷ 114 ∷ 101 ∷ 97 ∷ 109 ∷ 95 ∷ 110 ∷ 97 ∷ 109 ∷ 101
    ∷ 1 ∷ 0 ∷ 0 ∷ 0 ∷ 115 ∷ []

abbrev frame_bytes : Bytes
frame_bytes =
    83 ∷ 68 ∷ 66 ∷ 50 ∷ 2 ∷ 0 ∷ 1 ∷ 0 ∷ 168 ∷ 0 ∷ 0 ∷ 0 ∷ 2 ∷ 0 ∷ 0 ∷ 0 ∷ 44 ∷ 1 ∷ 0 ∷ 0 ∷ 0 ∷ 0 ∷ 0
    ∷ 0 ∷ 243 ∷ 148 ∷ 212 ∷ 68 ∷ 0 ∷ 0 ∷ 0 ∷ 0 ∷ 1 ∷ 0 ∷ 1 ∷ 2 ∷ 3 ∷ 4 ∷ 5 ∷ 6 ∷ 7 ∷ 8 ∷ 9 ∷ 10 ∷ 11
    ∷ 12 ∷ 13 ∷ 14 ∷ 15 ∷ 255 ∷ 0 ∷ 0 ∷ 0 ∷ 0 ∷ 0 ∷ 0 ∷ 0 ∷ 0 ∷ 0 ∷ 0 ∷ 0 ∷ 0 ∷ 0 ∷ 0 ∷ 0 ∷ 0 ∷ 0
    ∷ 0 ∷ 0 ∷ 0 ∷ 0 ∷ 0 ∷ 0 ∷ 0 ∷ 0 ∷ 0 ∷ 0 ∷ 0 ∷ 0 ∷ 0 ∷ 0 ∷ 0 ∷ 1 ∷ 2 ∷ 3 ∷ 4 ∷ 5 ∷ 6 ∷ 7 ∷ 8 ∷ 9
    ∷ 10 ∷ 11 ∷ 12 ∷ 13 ∷ 14 ∷ 15 ∷ 255 ∷ 7 ∷ 0 ∷ 0 ∷ 0 ∷ 0 ∷ 0 ∷ 0 ∷ 0 ∷ 251 ∷ 255 ∷ 255 ∷ 255
    ∷ 255 ∷ 255 ∷ 255 ∷ 255 ∷ 12 ∷ 0 ∷ 111 ∷ 114 ∷ 100 ∷ 101 ∷ 114 ∷ 46 ∷ 112 ∷ 108 ∷ 97 ∷ 99 ∷ 101
    ∷ 100 ∷ 1 ∷ 0 ∷ 0 ∷ 0 ∷ 1 ∷ 0 ∷ 0 ∷ 128 ∷ 1 ∷ 2 ∷ 3 ∷ 4 ∷ 5 ∷ 6 ∷ 7 ∷ 8 ∷ 9 ∷ 10 ∷ 11 ∷ 12 ∷ 13
    ∷ 14 ∷ 15 ∷ 255 ∷ 0 ∷ 0 ∷ 0 ∷ 0 ∷ 2 ∷ 0 ∷ 5 ∷ 0 ∷ 97 ∷ 99 ∷ 116 ∷ 111 ∷ 114 ∷ 2 ∷ 0 ∷ 0 ∷ 0 ∷ 1
    ∷ 2 ∷ 22 ∷ 0 ∷ 115 ∷ 97 ∷ 108 ∷ 97 ∷ 109 ∷ 97 ∷ 110 ∷ 100 ∷ 101 ∷ 114 ∷ 46 ∷ 115 ∷ 116 ∷ 114
    ∷ 101 ∷ 97 ∷ 109 ∷ 95 ∷ 110 ∷ 97 ∷ 109 ∷ 101 ∷ 1 ∷ 0 ∷ 0 ∷ 0 ∷ 115 ∷ 104 ∷ 105 ∷ []

encode_sample_envelope : encode_envelope sample_envelope default_limits ≡ ok envelope_bytes
unfolding encode_envelope encode_entries encode_entry enforce_limit write_short_bytes
    validate_metadata_key
encode_sample_envelope = refl

encode-sample : encode mixing sample default_limits ≡ ok frame_bytes
unfolding encode encode_envelope encode_entries encode_entry frame_crc enforce_limit
    write_short_bytes validate_metadata_key validate_flags
encode-sample = refl

decode-sample :
    decode mixing (frame_bytes ++ (9 ∷ 9 ∷ [])) default_limits
    ≡ ok (some (sample, length frame_bytes))
decode-sample =
    decode-encode mixing default_limits sample frame_bytes (9 ∷ 9 ∷ []) default_limits-IsLimits
      sample-IsStored encode-sample

decode-encode_example :
    decode mixing (frame_bytes ++ (9 ∷ 9 ∷ [])) default_limits
    ≡ ok (some (sample, length frame_bytes))
decode-encode_example =
    decode-encode mixing default_limits sample frame_bytes (9 ∷ 9 ∷ []) default_limits-IsLimits
      sample-IsStored encode-sample

decode_envelope-encode_envelope_example :
    decode_envelope envelope_bytes default_limits ≡ ok sample_envelope
decode_envelope-encode_envelope_example =
    decode_envelope-encode_envelope default_limits sample_envelope envelope_bytes
      default_limits-IsLimits sample_envelope-IsEnvelope encode_sample_envelope

decode_torn_example : decode mixing (take 40 frame_bytes) default_limits ≡ ok none
decode_torn_example =
    decode_torn mixing default_limits sample frame_bytes (take 40 frame_bytes)
      (get_or frame_bytes 40 0) (drop 41 frame_bytes) default_limits-IsLimits encode-sample refl

frame_total_len-decode_example :
    (frame_total_len (frame_bytes ++ (9 ∷ 9 ∷ [])) default_limits ≡ ok (some (length frame_bytes)))
    × (length frame_bytes ≤ length (frame_bytes ++ (9 ∷ 9 ∷ [])))
    × (frame_header_len ≤ length frame_bytes)
    × (from_le_bytes (slice (frame_bytes ++ (9 ∷ 9 ∷ [])) 24 28)
        ≡ frame_crc mixing (take (length frame_bytes) (frame_bytes ++ (9 ∷ 9 ∷ []))))
frame_total_len-decode_example =
    frame_total_len-decode mixing default_limits (frame_bytes ++ (9 ∷ 9 ∷ [])) sample
      (length frame_bytes) decode-sample

decode-append_example :
    decode mixing ((frame_bytes ++ (9 ∷ 9 ∷ [])) ++ (1 ∷ [])) default_limits
    ≡ ok (some (sample, length frame_bytes))
decode-append_example =
    decode-append mixing default_limits (frame_bytes ++ (9 ∷ 9 ∷ [])) (1 ∷ []) sample
      (length frame_bytes) decode-sample

-- The sample with the last byte of its payload changed.
abbrev damaged_body : Bytes
damaged_body = envelope_bytes ++ (104 ∷ 106 ∷ [])

damaged_checksum_differs :
    frame_crc mixing (take frame_header_len frame_bytes ++ damaged_body)
    ≢ frame_crc mixing frame_bytes
unfolding frame_crc
damaged_checksum_differs = λ e. absurd (omega (arith, e))

decode_damaged_example :
    decode mixing (take frame_header_len frame_bytes ++ (damaged_body ++ [])) default_limits
    ≡ err (corrupt 300 "v2 crc mismatch: stored {stored_crc:#010x}, computed {computed_crc:#010x}")
decode_damaged_example =
    decode_damaged mixing default_limits sample frame_bytes envelope_bytes damaged_body []
      default_limits-IsLimits (omega arith) encode-sample encode_sample_envelope (omega arith)
      damaged_checksum_differs
