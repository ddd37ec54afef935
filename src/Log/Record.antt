-- ===== src/Log/Record.antt =====
-- salamander/src/log/record.rs: framing with the default limits.
use salamander_db.Prelude.{ℕ, Option}
use salamander_db.Bytes.{Bytes}
use salamander_db.Errors.{Result}
use salamander_db.Format.Types.{FrameKind, RecordEnvelopeV2, StoredRecord, default_limits, event}
use salamander_db.Format.Checksum.{Crc32c}
use salamander_db.Format.Frame.{encode, decode}

-- `encode_kind`, the bytes that it appends to `out`.
unfoldable pub encode_kind : Crc32c → FrameKind → ℕ → RecordEnvelopeV2 → Bytes → Result Bytes
encode_kind crc kind offset envelope payload =
    encode crc
      (record { kind = kind; flags = 0; position = offset; envelope = envelope; payload = payload })
      default_limits

unfoldable pub encode_enveloped : Crc32c → ℕ → RecordEnvelopeV2 → Bytes → Result Bytes
encode_enveloped crc = encode_kind crc event

unfoldable pub decode_owned : Crc32c → Bytes → Result (Option (StoredRecord × ℕ))
decode_owned crc buf = decode crc buf default_limits
