-- ===== src/Log/Segment/Cut.antt =====
-- salamander/src/log/segment.rs: the scan on a batch that was cut somewhere after its first frame.
use salamander_db.Prelude.{
  ℕ, ◌+◌, ◌^◌, ◌≤◌, ◌≡◌, refl, sym, ap, ◌∙◌, inl, inr, List, [], ◌∷◌, ◌++◌, append_assoc, arith,
  leb, leb→le, Bool-cases, length, length-append,
}
use salamander_db.Bytes.{Bytes}
use salamander_db.Errors.{ok, ok-injective}
use salamander_db.Format.Types.{FrameKind, RecordEnvelopeV2, event}
use salamander_db.Log.Scan.{PendingBatch, ScanState, rewind, scan_end, scan_round}
use salamander_db.Log.Scan.Rounds.{Reaches, here, round}
use salamander_db.Log.Scan.Frames.{stored, Frame, scan_round_torn}
use salamander_db.Log.Segment.{encode_events}
use salamander_db.Log.Segment.Batch.{
  within, grown, AllInBatch, event_round, first_event, scan_round_at,
}
use salamander_db.Format.Checksum.{Crc32c}
use salamander_db.Format.Frame.Torn.{append-split, append-split_lt}
use mathlib.Core.Path.{subst}

-- The scan stops inside the pending batch and goes back to where the batch starts.
pub record StopsWithin (crc : Crc32c) (buf : Bytes) (s : ScanState) (p : ℕ) (b : PendingBatch)
    : Type 0 where
  pub last_pos : ℕ
  pub last_batch : PendingBatch
  pub start_same : last_batch.start_byte ≡ b.start_byte
  pub walk : Reaches crc buf (within s p b) (within s last_pos last_batch)
  pub ends :
      scan_round crc buf (within s last_pos last_batch)
      ≡ scan_end buf (rewind (within s last_pos last_batch))

pub cut_events :
    (crc : Crc32c) (first index : ℕ) (events : List (RecordEnvelopeV2 × Bytes))
    (bytes front part : Bytes) (x : ℕ) (back : Bytes) (s : ScanState) (p : ℕ) (b : PendingBatch)
    {kind : FrameKind} {offset : ℕ} {envelope : RecordEnvelopeV2} {payload commit_frame : Bytes}
    → Frame crc kind offset envelope payload commit_frame
    → encode_events crc first index events ≡ ok bytes
    → AllInBatch b.batch_id events
    → first + index + length events ≤ 2 ^ 64
    → b.first_position ≡ first
    → length b.events ≡ index
    → index + length events ≤ b.count
    → p ≡ length front
    → bytes ++ commit_frame ≡ part ++ (x ∷ back)
    → StopsWithin crc (front ++ part) s p b
cut_events crc first index [] bytes front part x back s p b {commit_frame} c h all room fs cs fit at
      cut =
    let e : bytes ≡ [] = unfold encode_events in sym (ok-injective h) in
    record {
      last_pos = p;
      last_batch = b;
      start_same = refl;
      walk = here;
      ends =
          scan_round_torn c front part x back (within s p b) at
            (ap (λ (o : Bytes). o ++ commit_frame) (sym e) ∙ cut);
    }
cut_events crc first index ((env, pay) ∷ events) bytes front part x back s p b {commit_frame} c h
      all room fs cs fit at cut =
    let w = first_event crc first index env pay events bytes h in
    let rec = stored event (first + index) env pay in
    let f : Frame crc event (first + index) env pay w.frame = record {
      written = w.written;
      offset_u64 = omega (arith, room);
      valid = all.0.0;
    } in
    let b' = grown b w.frame (rec ∷ []) in
    let whole : part ++ (x ∷ back) ≡ w.frame ++ (w.others ++ commit_frame) =
      sym cut
      ∙ ap (λ (o : Bytes). o ++ commit_frame) w.shape
      ∙ append_assoc w.frame w.others commit_frame in
    elim (Bool-cases (leb (length w.frame) (length part))) [
      | inl fits ↦
          let (t, p1, p2) =
            append-split w.frame (w.others ++ commit_frame) part (x ∷ back) whole
              (leb→le _ _ fits) in
          let go =
            cut_events crc first (index + 1) events w.others (front ++ w.frame) t x back s
              (p + length w.frame) b' c w.others_written all.1 (omega (arith, room)) fs
              (omega (arith, cs, length-append b.events (rec ∷ []))) (omega (arith, fit))
              (omega (arith, at, length-append front w.frame)) (sym p2) in
          let there : (front ++ w.frame) ++ t ≡ front ++ part =
            append_assoc front w.frame t ∙ ap (λ (o : Bytes). front ++ o) (sym p1) in
          let moved : StopsWithin crc (front ++ part) s (p + length w.frame) b' =
            subst (λ o. StopsWithin crc o s (p + length w.frame) b') there go in
          record {
            last_pos = moved.last_pos;
            last_batch = moved.last_batch;
            start_same = moved.start_same;
            walk =
                round
                  (scan_round_at crc (within s p b) (ap (λ (o : Bytes). front ++ o) (sym p1)) (
                    event_round f front t s p b at fs all.0.1 cs w.index_same (omega (arith, fit))))
                  moved.walk;
            ends = moved.ends;
          }
      | inr short ↦
          let (y, others, inside) =
            append-split_lt w.frame (w.others ++ commit_frame) part (x ∷ back) (sym whole)
              (ground (arith, short)) in
          record {
            last_pos = p;
            last_batch = b;
            start_same = refl;
            walk = here;
            ends = scan_round_torn f front part y others (within s p b) at inside;
          }
    ]
