-- ===== src/Format/Envelope/Encode.antt =====
-- salamander/src/format/mod.rs: `encode_envelope`. `out.extend_from_slice` is an append.
use salamander_db.Prelude.{◌%◌, ◌^◌, [], ◌∷◌, ◌++◌, length}
use salamander_db.Bytes.{Bytes, to_le_bytes, i64_bits}
use salamander_db.Errors.{Result, ok, ◌>>=◌, ◌>>◌}
use salamander_db.Format.Types.{envelope_version, Metadata, RecordEnvelopeV2, FormatLimits}
use salamander_db.Format.Metadata.{validate_metadata_key}
use salamander_db.Format.Cursor.{enforce_limit, write_short_bytes}

-- The body of the loop over the metadata: what it appends for one entry.
unfoldable pub encode_entry : FormatLimits → Bytes → Bytes → Result Bytes
encode_entry limits key value = do
  validate_metadata_key key
  enforce_limit "metadata key bytes" (length key) limits.max_metadata_key_bytes
  enforce_limit "metadata value bytes" (length value) limits.max_metadata_value_bytes
  short ← write_short_bytes key
  ok (short ++ (to_le_bytes 4 (length value % 2 ^ 32) ++ value))

unfoldable pub encode_entries : FormatLimits → Metadata → Result Bytes
encode_entries limits [] = ok []
encode_entries limits ((key, value) ∷ metadata) = do
  entry ← encode_entry limits key value
  rest ← encode_entries limits metadata
  ok (entry ++ rest)

-- The bytes before the metadata entries; `event_type` is what `write_short_bytes` wrote.
abbrev pub envelope_fields : RecordEnvelopeV2 → Bytes → Bytes → Bytes
envelope_fields e event_type entries =
    to_le_bytes 2 envelope_version
    ++ (e.event_id
        ++ (e.database_id
            ++ (e.branch_id
                ++ (e.stream_id
                    ++ (to_le_bytes 8 e.stream_revision
                        ++ (to_le_bytes 8 (i64_bits e.timestamp_unix_nanos)
                            ++ (event_type
                                ++ (to_le_bytes 4 e.schema_version
                                    ++ (to_le_bytes 4 e.codec
                                        ++ (e.batch_id
                                            ++ (to_le_bytes 4 e.batch_index
                                                ++ (to_le_bytes 2 (length e.metadata % 2 ^ 16)
                                                    ++ entries))))))))))))

unfoldable pub encode_envelope : RecordEnvelopeV2 → FormatLimits → Result Bytes
encode_envelope e limits = do
  enforce_limit "event type bytes" (length e.event_type) limits.max_event_type_bytes
  enforce_limit "metadata entries" (length e.metadata) limits.max_metadata_entries
  event_type ← write_short_bytes e.event_type
  entries ← encode_entries limits e.metadata
  ok (envelope_fields e event_type entries)
