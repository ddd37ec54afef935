-- ===== src/Format/Envelope/Decode.antt =====
-- salamander/src/format/mod.rs: `decode_envelope`.
use salamander_db.Prelude.{
  ℕ, zero, suc, Bool, true, false, not, Option, none, some, [], ◌==◌, if◌then◌else◌,
}
use salamander_db.Bytes.{Bytes, is_empty, is_utf8}
use salamander_db.Errors.{Result, ok, err, fail_if, invalid_format}
use salamander_db.Format.Types.{
  envelope_version, event_type_new, Metadata, RecordEnvelopeV2, FormatLimits,
}
use salamander_db.Format.Metadata.{validate_metadata_key, metadata_get, metadata_insert}
use salamander_db.Format.Cursor.{
  Cursor, ◌>>=◌, ◌>>◌, pure, lift, enforce_limit, cursor_take, cursor_u16, cursor_u32, cursor_u64,
  cursor_i64, cursor_short_bytes,
}

unfoldable pub decode_entry : FormatLimits → Cursor (Bytes × Bytes)
decode_entry limits = do
  key ← cursor_short_bytes limits.max_metadata_key_bytes
  lift (fail_if (not (is_utf8 key)) (invalid_format "metadata key is not UTF-8"))
  lift (validate_metadata_key key)
  value_len ← cursor_u32
  lift (enforce_limit "metadata value bytes" value_len limits.max_metadata_value_bytes)
  value ← cursor_take value_len
  pure (key, value)

abbrev pub is_some {ℓ} : {A : Type ℓ} → Option A → Bool
is_some none = false
is_some (some a) = true

-- The loop: `count` entries are still to come, `metadata` is the map so far.
unfoldable pub decode_entries : FormatLimits → ℕ → Metadata → Cursor Metadata
decode_entries limits zero metadata = pure metadata
decode_entries limits (suc count) metadata = do
  entry ← decode_entry limits
  lift (fail_if (is_some (metadata_get entry.0 metadata)) (invalid_format "duplicate metadata key"))
  decode_entries limits count (metadata_insert entry.0 entry.1 metadata)

unfoldable pub decode_fields : FormatLimits → Cursor RecordEnvelopeV2
decode_fields limits = do
  version ← cursor_u16
  lift (
      fail_if (not (version == envelope_version))
        (invalid_format "unsupported envelope version {version}"))
  event_id ← cursor_take 16
  database_id ← cursor_take 16
  branch_id ← cursor_take 16
  stream_id ← cursor_take 16
  stream_revision ← cursor_u64
  timestamp_unix_nanos ← cursor_i64
  event_type_bytes ← cursor_short_bytes limits.max_event_type_bytes
  lift (fail_if (not (is_utf8 event_type_bytes)) (invalid_format "event type is not UTF-8"))
  event_type ← lift (event_type_new event_type_bytes)
  schema_version ← cursor_u32
  codec ← cursor_u32
  batch_id ← cursor_take 16
  batch_index ← cursor_u32
  metadata_count ← cursor_u16
  lift (enforce_limit "metadata entries" metadata_count limits.max_metadata_entries)
  metadata ← decode_entries limits metadata_count []
  pure (record {
    event_id = event_id;
    database_id = database_id;
    branch_id = branch_id;
    stream_id = stream_id;
    stream_revision = stream_revision;
    timestamp_unix_nanos = timestamp_unix_nanos;
    event_type = event_type;
    schema_version = schema_version;
    codec = codec;
    batch_id = batch_id;
    batch_index = batch_index;
    metadata = metadata;
  })

-- `if !cursor.is_empty()` after the fields.
abbrev finish : Result (RecordEnvelopeV2 × Bytes) → Result RecordEnvelopeV2
finish (ok (envelope, remaining)) =
    if is_empty remaining then ok envelope else err (invalid_format "trailing bytes in v2 envelope")
finish (err e) = err e

unfoldable pub decode_envelope : Bytes → FormatLimits → Result RecordEnvelopeV2
decode_envelope buf limits = finish (decode_fields limits buf)
