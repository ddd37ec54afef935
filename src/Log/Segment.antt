-- ===== src/Log/Segment.antt =====
-- salamander/src/log/segment.rs: `Segment`, with the bytes of its file as its state. A write of the
-- file succeeds and goes to its end; a failing operating system is not modelled.
pub mod Sound
pub mod Open
pub mod Batch
pub mod Cut
pub mod Control
pub mod Whole
pub mod Appends
pub mod Recovery
use salamander_db.Prelude.{
  ℕ, ◌+◌, ◌-◌, ◌%◌, ◌^◌, not, Option, none, some, List, [], ◌∷◌, ◌++◌, ltb, ◌==◌, length, take,
}
use salamander_db.Bytes.{Bytes}
use salamander_db.Errors.{
  Result, ok, err, fail_if, invalid_argument, invalid_format, resource_limit, ◌>>=◌, ◌>>◌,
}
use salamander_db.Format.Types.{RecordEnvelopeV2, event, system, batch_begin, batch_commit}
use salamander_db.Format.Checksum.{Crc32c}
use salamander_db.Log.Record.{encode_kind, encode_enveloped}
use salamander_db.Log.Batch.{batch_control_payload, batch_control_envelope}
use salamander_db.Log.Scan.{ScanResult, scan_records}

pub record Segment : Type 0 where
  pub file : Bytes
  pub base_offset : ℕ
  pub len_bytes : ℕ
  pub next_offset : ℕ

unfoldable pub create : ℕ → Segment
create base_offset = record {
  file = [];
  base_offset = base_offset;
  len_bytes = 0;
  next_offset = base_offset;
}

-- `self.file.write_all(&buf)?; self.len_bytes += buf.len() as u64;`
abbrev pub write_all : Segment → Bytes → ℕ → Segment
write_all s buf records = record s {
  file = s.file ++ buf;
  len_bytes = s.len_bytes + length buf;
  next_offset = s.next_offset + records;
}

unfoldable pub append_enveloped : Crc32c → RecordEnvelopeV2 → Bytes → Segment → Result (ℕ × Segment)
append_enveloped crc envelope payload s = do
  buf ← encode_enveloped crc s.next_offset envelope payload
  ok (s.next_offset, write_all s buf 1)

unfoldable pub append_system : Crc32c → RecordEnvelopeV2 → Bytes → Segment → Result Segment
append_system crc envelope payload s = do
  buf ← encode_kind crc system s.next_offset envelope payload
  ok (write_all s buf 0)

-- The loop over the events of a batch, from index `index` on.
unfoldable pub encode_events : Crc32c → ℕ → ℕ → List (RecordEnvelopeV2 × Bytes) → Result Bytes
encode_events crc first index [] = ok []
encode_events crc first index ((envelope, payload) ∷ events) = do
  fail_if (not (envelope.batch_index == index % 2 ^ 32))
      (invalid_format "batch index {} does not match event order {index}")
  frame ← encode_kind crc event (first + index) envelope payload
  rest ← encode_events crc first (index + 1) events
  ok (frame ++ rest)

-- The bytes of a whole batch, its control frames included.
unfoldable pub encode_batch :
    Crc32c → ℕ → RecordEnvelopeV2 → List (RecordEnvelopeV2 × Bytes) → Result Bytes
encode_batch crc first envelope events = do
  fail_if (ltb (2 ^ 32 - 1) (length events))
      (resource_limit "batch event count" (length events) (2 ^ 32 - 1))
  encoded_events ← encode_events crc first 0 events
  let digest = crc.crc32c encoded_events
  let control_payload = batch_control_payload (length events) digest
  control_envelope ← batch_control_envelope envelope (length events) digest
  begin_frame ← encode_kind crc batch_begin first control_envelope control_payload
  commit_frame ← encode_kind crc batch_commit first control_envelope control_payload
  ok (begin_frame ++ (encoded_events ++ commit_frame))

unfoldable pub append_batch :
    Crc32c → List (RecordEnvelopeV2 × Bytes) → Segment → Result ((ℕ × ℕ) × Segment)
append_batch crc [] s = err (invalid_argument "storage batch must not be empty")
append_batch crc ((envelope, payload) ∷ events) s = do
  encoded ← encode_batch crc s.next_offset envelope ((envelope, payload) ∷ events)
  let s' = write_all s encoded (length ((envelope, payload) ∷ events))
  ok ((s.next_offset, s'.next_offset - 1), s')

-- `Segment::open` on the bytes of a file: recovery, with the truncation of what is not valid.
abbrev reopened : Bytes → ℕ → ScanResult → Segment
reopened buf base_offset scanned = record {
  file = take scanned.valid_bytes buf;
  base_offset = base_offset;
  len_bytes = scanned.valid_bytes;
  next_offset = scanned.next_offset;
}

unfoldable pub open_segment : Crc32c → ℕ → Bytes → Option (Result Segment)
open_segment crc base_offset buf = elim (scan_records crc buf base_offset) [
  | none ↦ none
  | some (err e) ↦ some (err e)
  | some (ok scanned) ↦ some (ok (reopened buf base_offset scanned))
]
