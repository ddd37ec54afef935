-- ===== src/Log/Scan.antt =====
-- salamander/src/log/segment.rs: `scan_records`, the one walk over the frames of a segment that
-- recovery uses. A step is one round of the loop; positions and counts are unbounded numbers, since
-- a 64-bit counter of records or bytes does not wrap in practice.
pub mod Rounds
pub mod Frames
pub mod Contiguous
use salamander_db.Prelude.{
  ℕ, zero, suc, ◌+◌, ◌%◌, ◌^◌, min, Bool, not, ◌&&◌, ◌||◌, Option, none, some, List, [], ◌∷◌, ◌++◌,
  leb, ◌==◌, if◌then◌else◌, length, drop,
}
use salamander_db.Bytes.{Bytes, slice, bytes_eq, pos}
use salamander_db.Errors.{SalamanderError, Result, ok, err, corrupt}
use salamander_db.Format.Types.{
  Id16, FrameKind, StoredRecord, event, system, batch_begin, batch_commit,
}
use salamander_db.Format.Checksum.{Crc32c}
use salamander_db.Log.Record.{decode_owned}
use salamander_db.Log.Batch.{parse_batch_control}

pub data ScanStop : Type 0 where
  clean_eof torn_tail crc_error offset_mismatch batch_mismatch : ScanStop

pub record PendingBatch : Type 0 where
  pub start_byte : ℕ
  pub first_position : ℕ
  pub batch_id : Id16
  pub count : ℕ
  pub digest : ℕ
  pub event_bytes : Bytes
  pub events : List StoredRecord

-- The loop's variables.
pub record ScanState : Type 0 where
  pub pos : ℕ
  pub valid_bytes : ℕ
  pub next_offset : ℕ
  pub records : List StoredRecord
  pub system_records : List StoredRecord
  pub pending : Option PendingBatch

pub record ScanResult : Type 0 where
  pub records : List StoredRecord
  pub system_records : List StoredRecord
  pub valid_bytes : ℕ
  pub next_offset : ℕ
  pub stop : ScanStop

-- One round goes on, breaks with the reason, or returns an error.
pub data Round : Type 0 where
  again : ScanState → Round
  break_with : ScanState → ScanStop → Round
  return_err : SalamanderError → Round

abbrev pub scan_start : ℕ → ScanState
scan_start base_offset = record {
  pos = 0;
  valid_bytes = 0;
  next_offset = base_offset;
  records = [];
  system_records = [];
  pending = none;
}

-- `if let Some(batch) = pending.take() { pos = batch.start_byte; }`
unfoldable pub rewound : ScanState → Option PendingBatch → ScanState
rewound s none = s
rewound s (some batch) = record s { pos = batch.start_byte; pending = none }

abbrev pub rewind : ScanState → ScanState
rewind s = rewound s s.pending

-- `FrameKind::BatchBegin`; `s.pos` is already behind the frame.
unfoldable pub scan_begin : ScanState → ℕ → StoredRecord → Option PendingBatch → Round
scan_begin s frame_start rec (some batch) = break_with s offset_mismatch
scan_begin s frame_start rec none =
    if not (rec.position == s.next_offset)
    then break_with s offset_mismatch
    else elim (parse_batch_control rec.payload) [
      | err e ↦ return_err e
      | ok (count, digest) ↦ again (record s {
        pending = some (record {
          start_byte = frame_start;
          first_position = rec.position;
          batch_id = rec.envelope.batch_id;
          count = count;
          digest = digest;
          event_bytes = [];
          events = [];
        });
      })
    ]

unfoldable pub scan_event : ScanState → Bytes → StoredRecord → Option PendingBatch → Round
scan_event s frame rec (some batch) =
    let index : ℕ = length batch.events in
    if not (rec.position == batch.first_position + index)
      || not (bytes_eq rec.envelope.batch_id batch.batch_id)
      || not (rec.envelope.batch_index == index % 2 ^ 32)
      || leb batch.count index
    then break_with (record s { pos = batch.start_byte }) batch_mismatch
    else again (record s {
      pending = some (record batch {
        event_bytes = batch.event_bytes ++ frame;
        events = batch.events ++ (rec ∷ []);
      });
    })
scan_event s frame rec none =
    if rec.position == s.next_offset
    then again (record s {
      valid_bytes = s.pos;
      next_offset = s.next_offset + 1;
      records = s.records ++ (rec ∷ []);
    })
    else break_with s offset_mismatch

-- The conjunction `valid` of `FrameKind::BatchCommit`.
unfoldable pub commit_matches : Crc32c → StoredRecord → PendingBatch → ℕ → ℕ → Bool
commit_matches crc rec batch count digest =
    rec.position == batch.first_position
    && bytes_eq rec.envelope.batch_id batch.batch_id
    && count == batch.count
    && digest == batch.digest
    && length batch.events == batch.count
    && crc.crc32c batch.event_bytes == batch.digest

unfoldable pub scan_commit : Crc32c → ScanState → StoredRecord → Option PendingBatch → Round
scan_commit crc s rec none = break_with s batch_mismatch
scan_commit crc s rec (some batch) = elim (parse_batch_control rec.payload) [
  | err e ↦ return_err e
  | ok (count, digest) ↦
      if not (commit_matches crc rec batch count digest)
      then break_with (record s { pos = batch.start_byte; pending = none }) batch_mismatch
      else again (record s {
        valid_bytes = s.pos;
        next_offset = s.next_offset + batch.count;
        records = s.records ++ batch.events;
        pending = none;
      })
]

unfoldable pub scan_system : ScanState → StoredRecord → Option PendingBatch → Round
scan_system s rec (some batch) = break_with s offset_mismatch
scan_system s rec none =
    if rec.position == s.next_offset
    then again (record s { valid_bytes = s.pos; system_records = s.system_records ++ (rec ∷ []) })
    else break_with s offset_mismatch

-- The match on the kind of a decoded frame; `frame` is `buf[frame_start..pos]`.
unfoldable pub scan_frame : Crc32c → ScanState → Bytes → StoredRecord → ℕ → FrameKind → Round
scan_frame crc s frame rec consumed batch_begin =
    scan_begin (record s { pos = s.pos + consumed }) s.pos rec s.pending
scan_frame crc s frame rec consumed event =
    scan_event (record s { pos = s.pos + consumed }) frame rec s.pending
scan_frame crc s frame rec consumed batch_commit =
    scan_commit crc (record s { pos = s.pos + consumed }) rec s.pending
scan_frame crc s frame rec consumed system =
    scan_system (record s { pos = s.pos + consumed }) rec s.pending

unfoldable pub scan_end : Bytes → ScanState → Round
scan_end buf s = break_with s (if s.pos == length buf then clean_eof else torn_tail)

unfoldable pub scan_error : ScanState → SalamanderError → Round
scan_error s (corrupt offset reason) = break_with (rewind s) crc_error
scan_error s e = return_err e

-- The arms of the match on what was decoded.
unfoldable pub scan_decoded :
    Crc32c → Bytes → ScanState → Result (Option (StoredRecord × ℕ)) → Round
scan_decoded crc buf s (ok none) = scan_end buf (rewind s)
scan_decoded crc buf s (ok (some (rec, consumed))) =
    scan_frame crc s (slice buf s.pos (s.pos + consumed)) rec consumed rec.kind
scan_decoded crc buf s (err e) = scan_error s e

-- One round of `loop { match record::decode_owned(&buf[pos..]) … }`.
unfoldable pub scan_round : Crc32c → Bytes → ScanState → Round
scan_round crc buf s = scan_decoded crc buf s (decode_owned crc (drop s.pos buf))

abbrev pub scan_result : ScanState → ScanStop → ScanResult
scan_result s stop = record {
  records = s.records;
  system_records = s.system_records;
  valid_bytes = min s.valid_bytes s.pos;
  next_offset = s.next_offset;
  stop = stop;
}

-- The loop on fuel; `none` means that the fuel ran out.
unfoldable pub scan_loop : Crc32c → Bytes → ℕ → ScanState → Option (Result ScanResult)
scan_loop crc buf zero s = none
scan_loop crc buf (suc fuel) s = elim (scan_round crc buf s) [
  | again s' ↦ scan_loop crc buf fuel s'
  | break_with s' stop ↦ some (ok (scan_result s' stop))
  | return_err e ↦ some (err e)
]

-- Each round takes a byte at least.
unfoldable pub scan_records : Crc32c → Bytes → ℕ → Option (Result ScanResult)
unfolding scan_loop
scan_records crc buf base_offset = scan_loop crc buf (suc (length buf)) (scan_start base_offset)
