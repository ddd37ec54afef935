-- ===== src/Log/Batch.antt =====
-- salamander/src/log/segment.rs: the control frames of a batch.
use salamander_db.Prelude.{ℕ, not, ◌++◌, ◌==◌, length, take, drop}
use salamander_db.Bytes.{Bytes, to_le_bytes, from_le_bytes, codes}
use salamander_db.Errors.{Result, ok, fail_if, invalid_format, ◌>>=◌, ◌>>◌}
use salamander_db.Format.Types.{event_type_new, RecordEnvelopeV2}
use salamander_db.Format.Metadata.{metadata_insert}

unfoldable pub batch_control_payload : ℕ → ℕ → Bytes
batch_control_payload count digest = to_le_bytes 4 count ++ to_le_bytes 4 digest

unfoldable pub parse_batch_control : Bytes → Result (ℕ × ℕ)
parse_batch_control payload = do
  fail_if (not (length payload == 8)) (invalid_format "batch control payload must be eight bytes")
  let count = from_le_bytes (take 4 payload)
  let digest = from_le_bytes (drop 4 payload)
  fail_if (count == 0) (invalid_format "batch control count must be nonzero")
  ok (count, digest)

unfoldable pub batch_control_envelope : RecordEnvelopeV2 → ℕ → ℕ → Result RecordEnvelopeV2
batch_control_envelope first count digest = do
  event_type ← event_type_new (codes "salamander.batch-control")
  ok (record first {
    event_type = event_type;
    batch_index = count;
    metadata =
        metadata_insert (codes "salamander.batch_digest") (to_le_bytes 4 digest)
          (metadata_insert (codes "salamander.batch_count") (to_le_bytes 4 count) first.metadata);
  })
