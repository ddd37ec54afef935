-- ===== src/Log/Segment/Sound.antt =====
-- salamander/src/log/segment.rs: a segment whose file the scan walks to its end, and the appends of
-- single records that keep it so.
use salamander_db.Prelude.{
  ℕ, ◌+◌, ◌≡◌, refl, ◌∙◌, none, [], ◌∷◌, ◌++◌, append-nil, arith, length, length-append,
}
use salamander_db.Bytes.{Bytes}
use salamander_db.Format.Types.{FrameKind, RecordEnvelopeV2, StoredRecord, event, system}
use salamander_db.Log.Scan.{ScanState, scan_start, scan_event, scan_system, scan_frame, again}
use salamander_db.Log.Scan.Rounds.{Reaches, Reaches-trans, Reaches-append, here, round}
use salamander_db.Log.Scan.Frames.{stored, Frame, scan_round-frame}
use salamander_db.Log.Segment.{Segment, create, write_all}
use salamander_db.Format.Checksum.{Crc32c}

-- The scan reaches the state `t` at the end of the file, with nothing pending and nothing to cut.
pub record IsSound (crc : Crc32c) (seg : Segment) (t : ScanState) : Type 0 where
  pub walk : Reaches crc seg.file (scan_start seg.base_offset) t
  pub at_end : t.pos ≡ length seg.file
  pub all_valid : t.valid_bytes ≡ length seg.file
  pub next_same : t.next_offset ≡ seg.next_offset
  pub idle : t.pending ≡ none
  pub counted : seg.len_bytes ≡ length seg.file

pub create-IsSound :
    (crc : Crc32c) (base_offset : ℕ) → IsSound crc (create base_offset) (scan_start base_offset)
unfolding create
create-IsSound crc base_offset = record {
  walk = here;
  at_end = refl;
  all_valid = refl;
  next_same = refl;
  idle = refl;
  counted = refl;
}

-- One more frame, one more round.
pub Reaches-Frame :
    {crc : Crc32c} {kind : FrameKind} {offset : ℕ} {envelope : RecordEnvelopeV2}
    {payload out : Bytes} (f : Frame crc kind offset envelope payload out) (file rest : Bytes)
    (s t u : ScanState)
    → Reaches crc file s t
    → t.pos ≡ length file
    → scan_frame crc t out (stored kind offset envelope payload) (length out) kind ≡ again u
    → Reaches crc (file ++ (out ++ rest)) s u
Reaches-Frame {out} f file rest s t u walk at e =
    Reaches-trans (Reaches-append (out ++ rest) walk)
      (round (scan_round-frame f file rest t at ∙ e) here)

abbrev pub after_event : ScanState → StoredRecord → ℕ → ScanState
after_event t rec n = record t {
  pos = t.pos + n;
  valid_bytes = t.pos + n;
  next_offset = t.next_offset + 1;
  records = t.records ++ (rec ∷ []);
}

abbrev pub after_system : ScanState → StoredRecord → ℕ → ScanState
after_system t rec n = record t {
  pos = t.pos + n;
  valid_bytes = t.pos + n;
  system_records = t.system_records ++ (rec ∷ []);
}

module _ {crc : Crc32c} {envelope : RecordEnvelopeV2} {payload out : Bytes} (seg : Segment)
    (t : ScanState) (sound : IsSound crc seg t) where
  pub event-IsSound :
      Frame crc event seg.next_offset envelope payload out
      → IsSound crc
          (write_all seg out 1)
          (after_event t (stored event seg.next_offset envelope payload) (length out))
  unfolding scan_frame scan_event
  event-IsSound f =
      let u = after_event t (stored event seg.next_offset envelope payload) (length out) in
      let walk : Reaches crc (seg.file ++ (out ++ [])) (scan_start seg.base_offset) u =
        Reaches-Frame f seg.file [] (scan_start seg.base_offset) t u sound.walk sound.at_end
          (ground (arith, sound.idle, sound.next_same)) in
      record {
        walk = rw (append-nil out) at walk;
        at_end = omega (arith, sound.at_end, length-append seg.file out);
        all_valid = omega (arith, sound.at_end, length-append seg.file out);
        next_same = omega (arith, sound.next_same);
        idle = sound.idle;
        counted = omega (arith, sound.counted, length-append seg.file out);
      }

  pub system-IsSound :
      Frame crc system seg.next_offset envelope payload out
      → IsSound crc
          (write_all seg out 0)
          (after_system t (stored system seg.next_offset envelope payload) (length out))
  unfolding scan_frame scan_system
  system-IsSound f =
      let u = after_system t (stored system seg.next_offset envelope payload) (length out) in
      let walk : Reaches crc (seg.file ++ (out ++ [])) (scan_start seg.base_offset) u =
        Reaches-Frame f seg.file [] (scan_start seg.base_offset) t u sound.walk sound.at_end
          (ground (arith, sound.idle, sound.next_same)) in
      record {
        walk = rw (append-nil out) at walk;
        at_end = omega (arith, sound.at_end, length-append seg.file out);
        all_valid = omega (arith, sound.at_end, length-append seg.file out);
        next_same = omega (arith, sound.next_same);
        idle = sound.idle;
        counted = omega (arith, sound.counted, length-append seg.file out);
      }
