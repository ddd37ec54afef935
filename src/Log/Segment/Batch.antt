-- ===== src/Log/Segment/Batch.antt =====
-- salamander/src/log/segment.rs: the scan inside a batch that `append_batch` wrote, complete or cut.
use salamander_db.Prelude.{
  ℕ, ◌+◌, ◌%◌, ◌^◌, ◌≤◌, ◌<◌, ◌≡◌, refl, sym, ap, ◌∙◌, Bool, true, false, not, some, List, [], ◌∷◌,
  ◌++◌, append_assoc, append-nil, arith, ◌==◌, length, All, length-append,
}
use salamander_db.Bytes.{Bytes, bytes_eq_self}
use salamander_db.Errors.{SalamanderError, ok, fail_if, bind-eq-ok, ok-injective}
use salamander_db.Format.Types.{Id16, RecordEnvelopeV2, StoredRecord, IsEnvelope, event}
use salamander_db.Log.Scan.{
  PendingBatch, ScanState, Round, scan_event, scan_frame, scan_round, again,
}
use salamander_db.Log.Scan.Rounds.{Reaches, here, round}
use salamander_db.Log.Scan.Frames.{stored, Frame, scan_round-frame}
use salamander_db.Log.Segment.{encode_events}
use salamander_db.Format.Checksum.{Crc32c}
use salamander_db.Log.Record.{encode_kind}
use mathlib.Core.Path.{subst, subst₂}

-- A scan at byte `p` with the batch `b` pending.
abbrev pub within : ScanState → ℕ → PendingBatch → ScanState
within s p b = record s { pos = p; pending = some b }

abbrev pub grown : PendingBatch → Bytes → List StoredRecord → PendingBatch
grown b frames recs = record b { event_bytes = b.event_bytes ++ frames; events = b.events ++ recs }

-- The records of the events of a batch.
abbrev pub batch_records : ℕ → ℕ → List (RecordEnvelopeV2 × Bytes) → List StoredRecord
batch_records first index [] = []
batch_records first index ((envelope, payload) ∷ events) =
    stored event (first + index) envelope payload ∷ batch_records first (index + 1) events

-- Every event is valid and names the batch.
abbrev pub AllInBatch : Id16 → List (RecordEnvelopeV2 × Bytes) → Type 0
AllInBatch batch_id = All (λ e. IsEnvelope e.0 × (e.0.batch_id ≡ batch_id))

pub event_round :
    {crc : Crc32c} {envelope : RecordEnvelopeV2} {payload out : Bytes} {first index : ℕ}
    (f : Frame crc event (first + index) envelope payload out) (front rest : Bytes) (s : ScanState)
    (p : ℕ) (b : PendingBatch)
    → p ≡ length front
    → b.first_position ≡ first
    → envelope.batch_id ≡ b.batch_id
    → length b.events ≡ index
    → (envelope.batch_index == index % 2 ^ 32) ≡ true
    → index < b.count
    → scan_round crc (front ++ (out ++ rest)) (within s p b)
      ≡ again (
          within s
            (p + length out)
            (grown b out (stored event (first + index) envelope payload ∷ [])))
unfolding scan_frame scan_event
event_round {envelope} f front rest s p b at first_same id_same count_same index_same room =
    scan_round-frame f front rest (within s p b) at
    ∙ ground (arith, first_same, id_same, bytes_eq_self b.batch_id, count_same, index_same, room)

-- What a successful `encode_events` wrote for its first event.
pub record FirstEvent (crc : Crc32c) (first index : ℕ) (envelope : RecordEnvelopeV2)
    (payload : Bytes) (events : List (RecordEnvelopeV2 × Bytes)) (bytes : Bytes) : Type 0 where
  pub frame : Bytes
  pub others : Bytes
  pub index_same : (envelope.batch_index == index % 2 ^ 32) ≡ true
  pub written : encode_kind crc event (first + index) envelope payload ≡ ok frame
  pub others_written : encode_events crc first (index + 1) events ≡ ok others
  pub shape : bytes ≡ frame ++ others

pub first_event :
    (crc : Crc32c) (first index : ℕ) (envelope : RecordEnvelopeV2) (payload : Bytes)
    (events : List (RecordEnvelopeV2 × Bytes)) (bytes : Bytes)
    → encode_events crc first index ((envelope, payload) ∷ events) ≡ ok bytes
    → FirstEvent crc first index envelope payload events bytes
unfolding encode_events
first_event crc first index envelope payload events bytes h =
    let (u, ix, h1) = bind-eq-ok (fail_if (not (envelope.batch_index == index % 2 ^ 32)) _) _ h in
    let (frame, hf, h2) =
      bind-eq-ok (encode_kind crc event (first + index) envelope payload) _ h1 in
    let (others, ho, h3) = bind-eq-ok (encode_events crc first (index + 1) events) _ h2 in
    record {
      frame = frame;
      others = others;
      index_same = passed (envelope.batch_index == index % 2 ^ 32) _ ix;
      written = hf;
      others_written = ho;
      shape = sym (ok-injective h3);
    }
  where
    passed : (c : Bool) (e : SalamanderError) {w : Unit {0}} → fail_if (not c) e ≡ ok w → c ≡ true
    passed true e k = refl
    passed false e k = cc

pub Reaches-subst :
    {crc : Crc32c} {buf buf' : Bytes} {s t t' : ScanState}
    → buf ≡ buf'
    → t ≡ t'
    → Reaches crc buf s t
    → Reaches crc buf' s t'
Reaches-subst {crc} {s} p q r = subst₂ (λ b u. Reaches crc b s u) p q r

pub scan_round_at :
    (crc : Crc32c) (s : ScanState) {buf buf' : Bytes} {o : Round}
    → buf ≡ buf'
    → scan_round crc buf s ≡ o
    → scan_round crc buf' s ≡ o
scan_round_at crc s {o} p e = subst (λ b. scan_round crc b s ≡ o) p e

pub regroup :
    (front frame others rest : Bytes)
    → (front ++ frame) ++ (others ++ rest) ≡ front ++ ((frame ++ others) ++ rest)
regroup front frame others rest =
    append_assoc front frame (others ++ rest)
    ∙ ap (λ (t : Bytes). front ++ t) (sym (append_assoc frame others rest))

-- The scan takes all the events of a batch into the pending batch.
pub walk_events :
    (crc : Crc32c) (first index : ℕ) (events : List (RecordEnvelopeV2 × Bytes))
    (bytes front rest : Bytes) (s : ScanState) (p : ℕ) (b : PendingBatch)
    → encode_events crc first index events ≡ ok bytes
    → AllInBatch b.batch_id events
    → first + index + length events ≤ 2 ^ 64
    → b.first_position ≡ first
    → length b.events ≡ index
    → index + length events ≤ b.count
    → p ≡ length front
    → Reaches crc
        (front ++ (bytes ++ rest))
        (within s p b)
        (within s (p + length bytes) (grown b bytes (batch_records first index events)))
walk_events crc first index [] bytes front rest s p b h all room fs cs fit at =
    let e : bytes ≡ [] = unfold encode_events in sym (ok-injective h) in
    Reaches-subst refl (ground (arith, e, append-nil b.event_bytes, append-nil b.events)) here
walk_events crc first index ((envelope, payload) ∷ events) bytes front rest s p b h all room fs cs
      fit at =
    let w = first_event crc first index envelope payload events bytes h in
    let rec = stored event (first + index) envelope payload in
    let f : Frame crc event (first + index) envelope payload w.frame = record {
      written = w.written;
      offset_u64 = omega (arith, room);
      valid = all.0.0;
    } in
    let b' = grown b w.frame (rec ∷ []) in
    let go =
      walk_events crc first (index + 1) events w.others (front ++ w.frame) rest s
        (p + length w.frame) b' w.others_written all.1 (omega (arith, room)) fs
        (omega (arith, cs, length-append b.events (rec ∷ []))) (omega (arith, fit))
        (omega (arith, at, length-append front w.frame)) in
    let recs = batch_records first (index + 1) events in
    Reaches-subst
      (regroup front w.frame w.others rest ∙ ap (λ (o : Bytes). front ++ (o ++ rest)) (sym w.shape))
      (ground (
        arith,
        w.shape,
        length-append w.frame w.others,
        append_assoc b.event_bytes w.frame w.others,
        append_assoc b.events (rec ∷ []) recs,
      ))
      (round
        (scan_round_at crc _ (sym (append_assoc front w.frame (w.others ++ rest))) (
          event_round f front (w.others ++ rest) s p b at fs all.0.1 cs w.index_same
            (omega (arith, fit))))
        go)
