-- ===== src/Log/Segment/Open.antt =====
-- salamander/src/log/segment.rs: `Segment::open` on the file of a sound segment, and on such a file
-- with a part of one more write behind it.
use salamander_db.Prelude.{
  ℕ, zero, suc, ◌+◌, ◌≤◌, ◌<◌, min, ◌≡◌, refl, ap, ◌∙◌, some, List, [], ◌∷◌, ◌++◌, append-nil,
  arith, ◌==◌, if◌then◌else◌, length, take-append_length,
}
use salamander_db.Bytes.{Bytes}
use salamander_db.Errors.{ok}
use salamander_db.Format.Types.{FrameKind, RecordEnvelopeV2, StoredRecord}
use salamander_db.Log.Scan.{
  ScanStop, ScanState, scan_start, scan_end, scan_round, scan_result, scan_loop, scan_records,
  clean_eof, torn_tail, break_with,
}
use salamander_db.Log.Scan.Rounds.{Reaches, Reaches-append, scan_loop-break_with, scan_loop-Reaches}
use salamander_db.Log.Scan.Frames.{Frame, scan_round_torn, rewound_idle, scan_round_eof}
use salamander_db.Log.Segment.{Segment, open_segment}
use salamander_db.Log.Segment.Sound.{IsSound}
use mathlib.Core.Path.{subst}
use salamander_db.Format.Checksum.{Crc32c}

-- The scan, once its rounds reach `t` and the next round breaks.
pub scan_records-Reaches :
    (crc : Crc32c) (buf : Bytes) (base_offset : ℕ) (t u : ScanState) (stop : ScanStop)
    → Reaches crc buf (scan_start base_offset) t
    → scan_round crc buf t ≡ break_with u stop
    → scan_records crc buf base_offset ≡ some (ok (scan_result u stop))
unfolding scan_records
scan_records-Reaches crc buf base_offset t u stop walk e =
    let (left, more, inside, eq) =
      scan_loop-Reaches (suc (length buf)) walk (omega arith) (omega arith) in
    eq ∙ go left more inside
  where
    go :
        (left : ℕ)
        → length buf < t.pos + left
        → t.pos ≤ length buf
        → scan_loop crc buf left t ≡ some (ok (scan_result u stop))
    go zero more inside = absurd (omega arith)
    go (suc left) more inside = scan_loop-break_with crc buf left t u stop e

-- What a scan recovered is the segment: nothing of its file is cut and its counters are the same.
abbrev pub Recovers :
    Crc32c → Segment → Bytes → List StoredRecord → List StoredRecord → ScanStop → Type 0
Recovers crc seg buf records system_records stop =
    (scan_records crc buf seg.base_offset
      ≡ some (
          ok (record {
            records = records;
            system_records = system_records;
            valid_bytes = length seg.file;
            next_offset = seg.next_offset;
            stop = stop;
          })))
    × (open_segment crc seg.base_offset buf ≡ some (ok seg))

-- The scan of `seg.file` with some more bytes stops in a state that has kept what counts.
pub record StopsAt (crc : Crc32c) (seg : Segment) (t : ScanState) (buf : Bytes) : Type 0 where
  pub last : ScanState
  pub final : ScanState
  pub stop : ScanStop
  pub walk : Reaches crc buf (scan_start seg.base_offset) last
  pub ends : scan_round crc buf last ≡ break_with final stop
  pub same_records : final.records ≡ t.records
  pub same_system : final.system_records ≡ t.system_records
  pub same_next : final.next_offset ≡ seg.next_offset
  pub same_valid : min final.valid_bytes final.pos ≡ length seg.file

pub StopsAt-Recovers :
    (crc : Crc32c) (seg : Segment) (t : ScanState) (more : Bytes)
    → seg.len_bytes ≡ length seg.file
    → (s : StopsAt crc seg t (seg.file ++ more))
    → Recovers crc seg (seg.file ++ more) t.records t.system_records s.stop
unfolding open_segment
StopsAt-Recovers crc seg t more counted s =
    let scanned =
      scan_records-Reaches crc (seg.file ++ more) seg.base_offset s.last s.final s.stop s.walk
        s.ends
      ∙ (λ i. some (
          ok (record {
            records = s.same_records i;
            system_records = s.same_system i;
            valid_bytes = s.same_valid i;
            next_offset = s.same_next i;
            stop = s.stop;
          }))) in
    (
      scanned,
      rw (scanned, open_segment, take-append_length seg.file more) (ground (arith, counted)),
    )

-- Opening the file of a sound segment gives the segment back, with the records of its state.
pub IsSound-Recovers :
    (crc : Crc32c) (seg : Segment) (t : ScanState)
    → IsSound crc seg t
    → Recovers crc seg seg.file t.records t.system_records clean_eof
unfolding scan_end
IsSound-Recovers crc seg t sound =
    let n : length (seg.file ++ []) ≡ length seg.file = ap length (append-nil seg.file) in
    subst (λ buf. Recovers crc seg buf t.records t.system_records clean_eof) (append-nil seg.file)
      (StopsAt-Recovers crc seg t [] sound.counted (record {
        last = t;
        final = t;
        stop = clean_eof;
        walk = Reaches-append [] sound.walk;
        ends =
            scan_round_eof crc seg.file t sound.at_end
            ∙ ap (scan_end (seg.file ++ [])) (rewound_idle t sound.idle)
            ∙ ground (arith, n, sound.at_end);
        same_records = refl;
        same_system = refl;
        same_next = sound.next_same;
        same_valid = omega (arith, sound.at_end, sound.all_valid);
      }))

-- With a proper prefix of the next frame behind it, the scan stops where it was.
pub torn-StopsAt :
    (crc : Crc32c) (seg : Segment) (t : ScanState) (part : Bytes) {kind : FrameKind} {offset : ℕ}
    {envelope : RecordEnvelopeV2} {payload out : Bytes} (x : ℕ) (back : Bytes)
    → IsSound crc seg t
    → Frame crc kind offset envelope payload out
    → out ≡ part ++ (x ∷ back)
    → StopsAt crc seg t (seg.file ++ part)
unfolding scan_end
torn-StopsAt crc seg t part x back sound f cut = record {
  last = t;
  final = t;
  stop = if t.pos == length (seg.file ++ part) then clean_eof else torn_tail;
  walk = Reaches-append part sound.walk;
  ends =
      scan_round_torn f seg.file part x back t sound.at_end cut
      ∙ ap (scan_end (seg.file ++ part)) (rewound_idle t sound.idle);
  same_records = refl;
  same_system = refl;
  same_next = sound.next_same;
  same_valid = omega (arith, sound.at_end, sound.all_valid);
}
