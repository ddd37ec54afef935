-- ===== src/Log/Scan/Rounds.antt =====
-- salamander/src/log/segment.rs: the rounds of the scan. Each takes a frame that is there, so the
-- loop ends, and the rounds made on some bytes are made alike when more bytes follow.
use salamander_db.Prelude.{
  ℕ, zero, suc, ◌+◌, ◌≤◌, ◌<◌, ◌≡◌, refl, ◌∙◌, ◌≢◌, Option, none, some, ◌++◌, arith, length, drop,
  length-drop, drop-append_le,
}
use salamander_db.Bytes.{Bytes, slice, slice-append_le}
use salamander_db.Errors.{SalamanderError, Result, ok, err, corrupt}
use salamander_db.Format.Types.{
  FrameKind, StoredRecord, default_limits, event, system, batch_begin, batch_commit,
}
use salamander_db.Log.Scan.{
  ScanStop, ScanState, ScanResult, Round, scan_start, scan_begin, scan_event, scan_commit,
  scan_system, scan_frame, scan_end, scan_error, scan_decoded, scan_round, scan_result, scan_loop,
  scan_records, again, break_with, return_err,
}
use salamander_db.Format.Checksum.{Crc32c}
use salamander_db.Format.Frame.Probe.{decode_size, decode-append}
use salamander_db.Log.Record.{decode_owned}

-- The frame that a round took.
pub record Took (crc : Crc32c) (buf : Bytes) (s t : ScanState) : Type 0 where
  pub rec : StoredRecord
  pub consumed : ℕ
  pub decoded : decode_owned crc (drop s.pos buf) ≡ ok (some (rec, consumed))
  pub ran : scan_frame crc s (slice buf s.pos (s.pos + consumed)) rec consumed rec.kind ≡ again t

scan_error_ends : (s t : ScanState) (e : SalamanderError) → scan_error s e ≢ again t
unfolding scan_error
scan_error_ends s t (corrupt offset reason) h = cc
scan_error_ends s t _ h = cc

pub scan_round-Took :
    (crc : Crc32c) (buf : Bytes) (s t : ScanState)
    → scan_round crc buf s ≡ again t
    → Took crc buf s t
unfolding scan_round scan_decoded scan_end
scan_round-Took crc buf s t h = go (decode_owned crc (drop s.pos buf)) refl
  where
    go :
        (d : Result (Option (StoredRecord × ℕ)))
        → decode_owned crc (drop s.pos buf) ≡ d
        → Took crc buf s t
    go (ok none) e = absurd (cc (rw e at h))
    go (ok (some (rec, consumed))) e = record {
      rec = rec;
      consumed = consumed;
      decoded = e;
      ran = rw e at h;
    }
    go (err x) e = absurd (scan_error_ends s t x (rw e at h))

pub pos-scan_frame :
    (crc : Crc32c) (s t : ScanState) (frame : Bytes) (rec : StoredRecord) (consumed : ℕ)
    (k : FrameKind)
    → scan_frame crc s frame rec consumed k ≡ again t
    → t.pos ≡ s.pos + consumed
unfolding scan_frame scan_begin scan_event scan_commit scan_system
pos-scan_frame crc s t frame rec consumed batch_begin h = ground arith
pos-scan_frame crc s t frame rec consumed event h = ground arith
pos-scan_frame crc s t frame rec consumed batch_commit h = ground arith
pos-scan_frame crc s t frame rec consumed system h = ground arith

-- A round that goes on moves over at least a header, and stays within the bytes.
pub scan_round_moves :
    (crc : Crc32c) (buf : Bytes) (s t : ScanState)
    → scan_round crc buf s ≡ again t
    → (s.pos + 32 ≤ t.pos) × (t.pos ≤ length buf)
unfolding decode_owned
scan_round_moves crc buf s t h =
    let took = scan_round-Took crc buf s t h in
    let (lo, hi) =
      decode_size crc default_limits (drop s.pos buf) took.rec took.consumed took.decoded in
    let at =
      pos-scan_frame crc s t (slice buf s.pos (s.pos + took.consumed)) took.rec took.consumed
        took.rec.kind took.ran in
    (omega (arith, lo, at), omega (arith, lo, hi, at, length-drop s.pos buf))

-- Bytes added at the end do not change a round that goes on.
pub scan_round-append :
    (crc : Crc32c) (buf more : Bytes) (s t : ScanState)
    → scan_round crc buf s ≡ again t
    → scan_round crc (buf ++ more) s ≡ again t
unfolding scan_round scan_decoded decode_owned
scan_round-append crc buf more s t h =
    let took = scan_round-Took crc buf s t h in
    let (lo, hi) =
      decode_size crc default_limits (drop s.pos buf) took.rec took.consumed took.decoded in
    let room : s.pos + took.consumed ≤ length buf = omega (arith, lo, hi, length-drop s.pos buf) in
    let decoded =
      decode-append crc default_limits (drop s.pos buf) more took.rec took.consumed took.decoded in
    rw
      (
        drop-append_le s.pos buf more (omega arith),
        decoded,
        slice-append_le buf more s.pos (s.pos + took.consumed) room (omega arith),
      )
      took.ran

-- Rounds made one after the other.
pub data Reaches (crc : Crc32c) (buf : Bytes) : ScanState → ScanState → Type 0 where
  here : {s : ScanState} → Reaches crc buf s s
  round :
      {s t u : ScanState}
      → scan_round crc buf s ≡ again t
      → Reaches crc buf t u
      → Reaches crc buf s u

pub Reaches-trans :
    {crc : Crc32c} {buf : Bytes} {s t u : ScanState}
    → Reaches crc buf s t
    → Reaches crc buf t u
    → Reaches crc buf s u
Reaches-trans here k = k
Reaches-trans (round e r) k = round e (Reaches-trans r k)

pub Reaches-append :
    {crc : Crc32c} {buf : Bytes} (more : Bytes) {s t : ScanState}
    → Reaches crc buf s t
    → Reaches crc (buf ++ more) s t
Reaches-append more here = here
Reaches-append {crc} {buf} more (round {s} {t} e r) =
    round (scan_round-append crc buf more s t e) (Reaches-append more r)

-- The loop by the outcome of its round.
module _ (crc : Crc32c) (buf : Bytes) (fuel : ℕ) (s : ScanState) where
  pub scan_loop-again :
      (t : ScanState)
      → scan_round crc buf s ≡ again t
      → scan_loop crc buf (suc fuel) s ≡ scan_loop crc buf fuel t
  unfolding scan_loop
  scan_loop-again t e = rw (e, scan_loop)

  pub scan_loop-break_with :
      (t : ScanState) (stop : ScanStop)
      → scan_round crc buf s ≡ break_with t stop
      → scan_loop crc buf (suc fuel) s ≡ some (ok (scan_result t stop))
  unfolding scan_loop
  scan_loop-break_with t stop e = rw (e, scan_loop)

  pub scan_loop-return_err :
      (x : SalamanderError)
      → scan_round crc buf s ≡ return_err x
      → scan_loop crc buf (suc fuel) s ≡ some (err x)
  unfolding scan_loop
  scan_loop-return_err x e = rw (e, scan_loop)

-- The loop, wherever it is, still has fuel for the bytes that are left.
pub scan_loop-Reaches :
    {crc : Crc32c} {buf : Bytes} {s t : ScanState} (fuel : ℕ)
    → Reaches crc buf s t
    → s.pos ≤ length buf
    → length buf < s.pos + fuel
    → (left : ℕ) × (length buf < t.pos + left)
      × (t.pos ≤ length buf)
      × (scan_loop crc buf fuel s ≡ scan_loop crc buf left t)
scan_loop-Reaches fuel here le lt = (fuel, lt, le, refl)
scan_loop-Reaches zero (round e r) le lt = absurd (omega arith)
scan_loop-Reaches {crc} {buf} (suc fuel) (round {s} {t} e r) le lt =
    let (up, in_range) = scan_round_moves crc buf s t e in
    let (left, more, inside, eq) = scan_loop-Reaches fuel r in_range (omega (arith, up, lt)) in
    (left, more, inside, scan_loop-again crc buf fuel s t e ∙ eq)

scan_loop_total :
    (crc : Crc32c) (buf : Bytes) (fuel : ℕ) (s : ScanState)
    → s.pos ≤ length buf
    → length buf < s.pos + fuel
    → (r : Result ScanResult) × (scan_loop crc buf fuel s ≡ some r)
scan_loop_total crc buf zero s le lt = absurd (omega arith)
scan_loop_total crc buf (suc fuel) s le lt =
    go (scan_round crc buf s) refl (scan_loop_total crc buf fuel)
  where
    go :
        (o : Round)
        → scan_round crc buf s ≡ o
        → ((t : ScanState)
            → t.pos ≤ length buf
            → length buf < t.pos + fuel
            → (r : Result ScanResult) × (scan_loop crc buf fuel t ≡ some r))
        → (r : Result ScanResult) × (scan_loop crc buf (suc fuel) s ≡ some r)
    go (again t) e ih =
        let (up, in_range) = scan_round_moves crc buf s t e in
        let (r, eq) = ih t in_range (omega (arith, up, lt)) in
        (r, scan_loop-again crc buf fuel s t e ∙ eq)
    go (break_with t stop) e ih =
        (ok (scan_result t stop), scan_loop-break_with crc buf fuel s t stop e)
    go (return_err x) e ih = (err x, scan_loop-return_err crc buf fuel s x e)

-- The scan returns on every input: its fuel is enough.
pub scan_records_total :
    (crc : Crc32c) (buf : Bytes) (base_offset : ℕ)
    → (r : Result ScanResult) × (scan_records crc buf base_offset ≡ some r)
unfolding scan_records
scan_records_total crc buf base_offset =
    scan_loop_total crc buf (suc (length buf)) (scan_start base_offset) (omega arith) (omega arith)
