-- ===== src/Log/Segment/Whole.antt =====
-- salamander/src/log/segment.rs: a whole batch behind a sound segment, and a batch cut anywhere.
use salamander_db.Prelude.{
  ℕ, suc, ◌+◌, ◌^◌, ◌≤◌, ◌<◌, ◌≡◌, refl, sym, ap, ◌∙◌, inl, inr, none, List, [], ◌∷◌, ◌++◌,
  append_assoc, append-nil, arith, leb, ◌==◌, if◌then◌else◌, leb→le, Bool-cases, length,
  length-append,
}
use salamander_db.Bytes.{Bytes, bytes_eq_self}
use salamander_db.Errors.{ok}
use salamander_db.Format.Types.{
  RecordEnvelopeV2, StoredRecord, IsEnvelope, batch_begin, batch_commit,
}
use salamander_db.Log.Scan.{
  PendingBatch, ScanState, scan_start, rewound, rewind, scan_begin, commit_matches, scan_commit,
  scan_frame, scan_end, scan_round, clean_eof, torn_tail, again,
}
use salamander_db.Log.Scan.Rounds.{Reaches, Reaches-trans, Reaches-append, here, round}
use salamander_db.Log.Scan.Frames.{Frame, scan_round-frame}
use salamander_db.Log.Segment.{Segment}
use salamander_db.Log.Segment.Sound.{IsSound}
use salamander_db.Log.Segment.Open.{StopsAt, torn-StopsAt}
use salamander_db.Log.Segment.Batch.{
  within, grown, batch_records, AllInBatch, Reaches-subst, scan_round_at, walk_events,
}
use salamander_db.Log.Segment.Cut.{StopsWithin, cut_events}
use salamander_db.Log.Segment.Control.{
  parse_batch_control-batch_control_payload, batch_control_envelope-IsEnvelope, BatchWritten,
}
use salamander_db.Format.Checksum.{Crc32c}
use salamander_db.Format.Frame.Torn.{append-split, append-split_lt}
use salamander_db.Log.Batch.{batch_control_payload, parse_batch_control}
use mathlib.Core.Path.{subst}

abbrev pub after_batch : ScanState → List StoredRecord → ℕ → ℕ → ScanState
after_batch t recs count n = record t {
  pos = t.pos + n;
  valid_bytes = t.pos + n;
  next_offset = t.next_offset + count;
  records = t.records ++ recs;
  pending = none;
}

length-batch_records :
    (first index : ℕ) (events : List (RecordEnvelopeV2 × Bytes))
    → length (batch_records first index events) ≡ length events
length-batch_records first index [] = refl
length-batch_records first index ((e, p) ∷ events) =
    ap suc (length-batch_records first (index + 1) events)

module _ (crc : Crc32c) (seg : Segment) (t : ScanState) (sound : IsSound crc seg t)
    (first_env : RecordEnvelopeV2) (events : List (RecordEnvelopeV2 × Bytes)) {out : Bytes}
    (w : BatchWritten crc seg.next_offset first_env events out) (valid : IsEnvelope first_env)
    (all : AllInBatch first_env.batch_id events) (some_events : 0 < length events)
    (room : seg.next_offset + length events ≤ 2 ^ 64) where
  digest : ℕ
  digest = crc.crc32c w.encoded

  control_valid : IsEnvelope w.control × (w.control.batch_id ≡ first_env.batch_id)
  unfolding digest
  control_valid =
      batch_control_envelope-IsEnvelope first_env w.control (length events) digest w.count_u32 valid
        w.control_made

  parsed :
      parse_batch_control (batch_control_payload (length events) digest)
      ≡ ok (length events, digest)
  unfolding digest
  parsed =
      parse_batch_control-batch_control_payload (length events) digest some_events w.count_u32
        (crc.crc32c-lt w.encoded)

  begin_Frame :
      Frame crc batch_begin seg.next_offset w.control
        (batch_control_payload (length events) digest)
        w.begin_frame
  unfolding digest
  begin_Frame = record {
    written = w.begin_written;
    offset_u64 = omega (arith, room, some_events);
    valid = control_valid.0;
  }

  commit_Frame :
      Frame crc batch_commit seg.next_offset w.control
        (batch_control_payload (length events) digest)
        w.commit_frame
  unfolding digest
  commit_Frame = record {
    written = w.commit_written;
    offset_u64 = omega (arith, room, some_events);
    valid = control_valid.0;
  }

  -- The pending batch behind the begin frame.
  opened : PendingBatch
  opened = record {
    start_byte = t.pos;
    first_position = seg.next_offset;
    batch_id = w.control.batch_id;
    count = length events;
    digest = digest;
    event_bytes = [];
    events = [];
  }

  begin_round :
      (rest : Bytes)
      → scan_round crc (seg.file ++ (w.begin_frame ++ rest)) t
        ≡ again (within t (t.pos + length w.begin_frame) opened)
  unfolding scan_frame scan_begin opened
  begin_round rest =
      scan_round-frame begin_Frame seg.file rest t sound.at_end
      ∙ ground (arith, sound.idle, sound.next_same, parsed)

  in_opened : AllInBatch w.control.batch_id events
  in_opened = subst (λ i. AllInBatch i events) (sym control_valid.1) all

  -- The batch with all its events, before the commit frame.
  full : PendingBatch
  full = grown opened w.encoded (batch_records seg.next_offset 0 events)

  commit_round :
      (front rest : Bytes) (p : ℕ)
      → p ≡ length front
      → scan_round crc (front ++ (w.commit_frame ++ rest)) (within t p full)
        ≡ again (record t {
          pos = p + length w.commit_frame;
          valid_bytes = p + length w.commit_frame;
          next_offset = t.next_offset + length events;
          records = t.records ++ batch_records seg.next_offset 0 events;
          pending = none;
        })
  unfolding scan_frame scan_commit commit_matches full opened digest
  commit_round front rest p at =
      scan_round-frame commit_Frame front rest (within t p full) at
      ∙ ground (
        arith,
        parsed,
        bytes_eq_self w.control.batch_id,
        length-batch_records seg.next_offset 0 events,
      )

  -- The scan takes the whole batch.
  pub batch_walk :
      Reaches crc
        (seg.file ++ out)
        (scan_start seg.base_offset)
        (after_batch t (batch_records seg.next_offset 0 events) (length events) (length out))
  unfolding opened full
  batch_walk =
      let f1 : Bytes = seg.file ++ w.begin_frame in
      let f2 : Bytes = f1 ++ w.encoded in
      let p1 : ℕ = t.pos + length w.begin_frame in
      let p2 : ℕ = p1 + length w.encoded in
      let rest : Bytes = w.encoded ++ w.commit_frame in
      let whole : seg.file ++ (w.begin_frame ++ rest) ≡ seg.file ++ out =
        ap (λ (o : Bytes). seg.file ++ o) (sym w.shape) in
      let at1 : p1 ≡ length f1 =
        omega (arith, sound.at_end, length-append seg.file w.begin_frame) in
      let at2 : p2 ≡ length f2 = omega (arith, at1, length-append f1 w.encoded) in
      let n : length out ≡ length w.begin_frame + (length w.encoded + length w.commit_frame) =
        ap length w.shape
        ∙ length-append w.begin_frame rest
        ∙ ap (λ (k : ℕ). length w.begin_frame + k) (length-append w.encoded w.commit_frame) in
      let same1 : f1 ++ rest ≡ seg.file ++ out = append_assoc seg.file w.begin_frame rest ∙ whole in
      let same2 : f2 ++ (w.commit_frame ++ []) ≡ seg.file ++ out =
        append_assoc f1 w.encoded (w.commit_frame ++ [])
        ∙ ap (λ (o : Bytes). f1 ++ (w.encoded ++ o)) (append-nil w.commit_frame)
        ∙ same1 in
      let inside =
        walk_events crc seg.next_offset 0 events w.encoded f1 w.commit_frame t p1 opened
          w.events_written in_opened (omega (arith, room)) refl refl (omega arith) at1 in
      Reaches-trans (Reaches-append out sound.walk) (
        round (scan_round_at crc t whole (begin_round rest)) (
          Reaches-trans (Reaches-subst same1 refl inside) (
            round (scan_round_at crc _ same2 (commit_round f2 [] p2 at2))
              (Reaches-subst refl (ground (arith, n)) here))))

  -- The scan of a cut batch goes back to where the batch starts.
  pub batch_cut :
      (part : Bytes) (x : ℕ) (back : Bytes)
      → out ≡ part ++ (x ∷ back)
      → StopsAt crc seg t (seg.file ++ part)
  unfolding opened scan_end rewound
  batch_cut part x back cut = elim (Bool-cases (leb (length w.begin_frame) (length part))) [
    | inl fits ↦
        let f1 : Bytes = seg.file ++ w.begin_frame in
        let p1 : ℕ = t.pos + length w.begin_frame in
        let (r, front, behind) =
          append-split w.begin_frame (w.encoded ++ w.commit_frame) part (x ∷ back)
            (sym cut ∙ w.shape) (leb→le _ _ fits) in
        let at1 : p1 ≡ length f1 =
          omega (arith, sound.at_end, length-append seg.file w.begin_frame) in
        let c =
          cut_events crc seg.next_offset 0 events w.encoded f1 r x back t p1 opened commit_Frame
            w.events_written in_opened (omega (arith, room)) refl refl (omega arith) at1
            (sym behind) in
        let there : f1 ++ r ≡ seg.file ++ part =
          append_assoc seg.file w.begin_frame r ∙ ap (λ (o : Bytes). seg.file ++ o) (sym front) in
        let moved : StopsWithin crc (seg.file ++ part) t p1 opened =
          subst (λ o. StopsWithin crc o t p1 opened) there c in
        record {
          last = within t moved.last_pos moved.last_batch;
          final = rewind (within t moved.last_pos moved.last_batch);
          stop =
              if moved.last_batch.start_byte == length (seg.file ++ part)
              then clean_eof
              else torn_tail;
          walk = Reaches-trans (Reaches-append part sound.walk) (
              round
                (scan_round_at crc t (ap (λ (o : Bytes). seg.file ++ o) (sym front))
                  (begin_round r))
                moved.walk);
          ends = moved.ends;
          same_records = refl;
          same_system = refl;
          same_next = sound.next_same;
          same_valid = omega (arith, sound.at_end, sound.all_valid, moved.start_same);
        }
    | inr short ↦
        let (y, others, inside) =
          append-split_lt w.begin_frame (w.encoded ++ w.commit_frame) part (x ∷ back)
            (sym w.shape ∙ cut) (ground (arith, short)) in
        torn-StopsAt crc seg t part y others sound begin_Frame inside
  ]
