-- ===== src/Log/Store/History.antt =====
-- salamander/src/log/mod.rs: what a log holds over all its segments, reopened and after a crash.
use salamander_db.Prelude.{
  ℕ, ◌+◌, ◌^◌, ◌≤◌, ◌<◌, ◌≡◌, refl, sym, ap, ◌∙◌, Bool, true, false, Option, some, List, [], ◌∷◌,
  ◌++◌, append_assoc, append-nil, arith, if◌then◌else◌, All,
}
use salamander_db.Bytes.{Bytes}
use salamander_db.Errors.{Result, ok}
use salamander_db.Format.Types.{Id16, StoredRecord}
use salamander_db.Format.Checksum.{Crc32c}
use salamander_db.Log.Scan.{ScanState, scan_records}
use salamander_db.Log.Segment.{Segment, create}
use salamander_db.Log.Segment.Sound.{IsSound}
use salamander_db.Log.Segment.Open.{IsSound-Recovers}
use salamander_db.Log.Segment.Appends.{
  Append, apply_append, positions, all_events, IsValidAppend, apply_append-Wrote,
}
use salamander_db.Log.Segment.Recovery.{Wrote-Appended, total_positions, append_cancel}
use salamander_db.Log.Store.{Log, disk_of, and_then, open_log, half_rolled, roll, head}
use salamander_db.Log.Store.Chain.{Chain}
use salamander_db.Log.Store.Appends.{IsLog, log_append, run_log, accepted, run_log-IsLog}
use salamander_db.Log.Store.Reopen.{
  fresh_log, fresh_log-IsLog, reopened_log, disk_with, open_log-disk_of, open_log-half_rolled,
  open_log-torn,
}

-- Everything that the files of a directory hold, scanned file by file.
abbrev pub scan_all : Crc32c → List (ℕ × Bytes) → Option (Result (List StoredRecord))
scan_all crc [] = some (ok [])
scan_all crc (file ∷ files) =
    and_then (scan_records crc file.1 file.0)
      (λ scanned. and_then (scan_all crc files) (λ later. some (ok (scanned.records ++ later))))

scan_all_sound :
    (crc : Crc32c) (seg : Segment) (t : ScanState) (files : List (ℕ × Bytes))
    (later : List StoredRecord)
    → IsSound crc seg t
    → scan_all crc files ≡ some (ok later)
    → scan_all crc ((seg.base_offset, seg.file) ∷ files) ≡ some (ok (t.records ++ later))
scan_all_sound crc seg t files later s e = rw ((IsSound-Recovers crc seg t s).0, e) refl

scan_all-Chain :
    (crc : Crc32c) (files rest : List (ℕ × Bytes)) (n m : ℕ) (records later : List StoredRecord)
    → Chain crc n files m records
    → scan_all crc rest ≡ some (ok later)
    → scan_all crc (files ++ rest) ≡ some (ok (records ++ later))
scan_all-Chain crc [] rest n m records later h e = e ∙ ap (λ r. some (ok (r ++ later))) (sym h.1)
scan_all-Chain crc (file ∷ files) rest n m records later (c, after, same, h) e =
    (λ i. scan_all crc (((c.key_same ∙ sym c.base_same) i, sym c.bytes_same i) ∷ (files ++ rest)))
    ∙ scan_all_sound crc c.seg c.state (files ++ rest) (after ++ later) c.sound
        (scan_all-Chain crc files rest c.seg.next_offset m after later h e)
    ∙ ap (λ r. some (ok r))
        (sym (append_assoc c.state.records after later) ∙ (λ i. sym same i ++ later))

scan_all-IsLog :
    (crc : Crc32c) (log : Log) (records : List StoredRecord)
    → IsLog crc log records
    → scan_all crc (disk_of log).segments ≡ some (ok records)
scan_all-IsLog crc log records v =
    scan_all-Chain crc log.closed ((log.active.base_offset, log.active.file) ∷ []) 0
      log.active.base_offset v.older (v.state.records ++ []) v.chain
      (scan_all_sound crc log.active v.state [] [] v.sound refl)
    ∙ ap (λ r. some (ok r)) (ap (λ r. v.older ++ r) (append-nil v.state.records) ∙ sym v.split)

total-accepted :
    (crc : Crc32c) (appends : List Append) (log : Log)
    → total_positions (accepted crc appends log) ≤ total_positions appends
unfolding accepted
total-accepted crc [] log = omega arith
total-accepted crc (a ∷ appends) log =
    go (accepted crc appends (log_append crc a log).0) (log_append crc a log).1
      (total-accepted crc appends (log_append crc a log).0)
  where
    go :
        (later : List Append) (k : Bool)
        → total_positions later ≤ total_positions appends
        → total_positions (if k then a ∷ later else later) ≤ positions a + total_positions appends
    go later true h = omega (arith, h)
    go later false h = omega (arith, h)

-- A log is an append-only list of events. After any appends to a new log, of which some may fail,
-- with envelopes that are valid, batches that name one batch, and positions below 2^64: the
-- files of its directory hold exactly the events of the appends that succeeded, at the positions from 0
-- on, over all segments; the head is their number; and opening the directory gives the log back.
pub open_log-run_log :
    (crc : Crc32c) (id : Id16) (max : ℕ) (b : Bool) (appends : List Append)
    → All IsValidAppend appends
    → total_positions appends < 2 ^ 64
    → (scan_all crc (disk_of (run_log crc appends (fresh_log id max))).segments
        ≡ some (ok (all_events 0 (accepted crc appends (fresh_log id max)))))
      × (head (run_log crc appends (fresh_log id max))
          ≡ total_positions (accepted crc appends (fresh_log id max)))
      × (open_log crc id max b (disk_of (run_log crc appends (fresh_log id max)))
          ≡ some (ok (reopened_log max (run_log crc appends (fresh_log id max)))))
unfolding create
open_log-run_log crc id max b appends va room =
    let (v, h) =
      run_log-IsLog crc appends (fresh_log id max) [] (fresh_log-IsLog crc id max) va
        (omega (arith, room)) in
    (
      scan_all-IsLog crc (run_log crc appends (fresh_log id max)) _ v,
      omega (arith, h),
      open_log-disk_of crc id max b (run_log crc appends (fresh_log id max)) _ v,
    )

-- A crash inside a roll, after the new segment was created and before the manifest was written,
-- loses nothing: opening the directory deletes the empty file and gives the log before the roll. The
-- log has come about by valid appends to a new one.
pub open_log-half_rolled_lem :
    (crc : Crc32c) (id : Id16) (max : ℕ) (b : Bool) (appends : List Append) (rolled : Log)
    → All IsValidAppend appends
    → total_positions appends < 2 ^ 64
    → roll (run_log crc appends (fresh_log id max)) ≡ ok rolled
    → open_log crc id max b (half_rolled (run_log crc appends (fresh_log id max)))
      ≡ some (ok (reopened_log max (run_log crc appends (fresh_log id max))))
unfolding create
open_log-half_rolled_lem crc id max b appends rolled va room h =
    let (v, e) =
      run_log-IsLog crc appends (fresh_log id max) [] (fresh_log-IsLog crc id max) va
        (omega (arith, room)) in
    open_log-half_rolled crc id max b (run_log crc appends (fresh_log id max)) _ v rolled h

-- A crash while one more append writes to the active segment loses that append only: when a proper
-- prefix of its bytes reached the file, opening the directory gives the log before it. The log has
-- come about by valid appends to a new one, the new append is valid and positions stay below 2^64.
pub open_log_crash :
    (crc : Crc32c) (id : Id16) (max : ℕ) (b : Bool) (appends : List Append) (a : Append)
    (s : Segment) (part : Bytes) (x : ℕ) (back : Bytes)
    → All IsValidAppend appends
    → IsValidAppend a
    → total_positions appends + positions a < 2 ^ 64
    → apply_append crc a (run_log crc appends (fresh_log id max)).active ≡ ok s
    → s.file ≡ (run_log crc appends (fresh_log id max)).active.file ++ (part ++ (x ∷ back))
    → open_log crc id max b (
        disk_with
          (run_log crc appends (fresh_log id max))
          ((run_log crc appends (fresh_log id max)).active.file ++ part)
          [])
      ≡ some (ok (reopened_log max (run_log crc appends (fresh_log id max))))
unfolding create
open_log_crash crc id max b appends a s part x back va v1 room k e =
    let log = run_log crc appends (fresh_log id max) in
    let (v, h) =
      run_log-IsLog crc appends (fresh_log id max) [] (fresh_log-IsLog crc id max) va
        (omega (arith, room)) in
    let (out, w) = apply_append-Wrote crc a log.active s k in
    let fits = total-accepted crc appends (fresh_log id max) in
    let one =
      Wrote-Appended crc log.active s v.state a out v.sound v1 (omega (arith, room, h, fits)) w in
    open_log-torn crc id max b log _ v part (
      one.cut part x back
        (append_cancel log.active.file out (part ++ (x ∷ back)) (sym one.file_same ∙ e)))
