-- ===== src/Log/Segment/Appends.antt =====
-- salamander/src/log/segment.rs: the three appends as one operation, and runs of them.
use salamander_db.Prelude.{ℕ, ◌+◌, ◌≡◌, refl, sym, List, [], ◌∷◌, ◌++◌, length}
use salamander_db.Bytes.{Bytes}
use salamander_db.Errors.{Result, ok, err, ◌>>=◌, bind-eq-ok, ok-injective}
use salamander_db.Format.Types.{RecordEnvelopeV2, StoredRecord, IsEnvelope, event, system}
use salamander_db.Log.Scan.Frames.{stored}
use salamander_db.Log.Segment.{
  Segment, write_all, append_enveloped, append_system, encode_batch, append_batch,
}
use salamander_db.Log.Segment.Batch.{batch_records, AllInBatch}
use salamander_db.Format.Checksum.{Crc32c}
use salamander_db.Log.Record.{encode_kind, encode_enveloped}

pub data Append : Type 0 where
  one_event system_record : RecordEnvelopeV2 → Bytes → Append
  event_batch : List (RecordEnvelopeV2 × Bytes) → Append

abbrev new_segment : {A : Type 0} → Result (A × Segment) → Result Segment
new_segment (ok (a, s)) = ok s
new_segment (err e) = err e

unfoldable pub apply_append : Crc32c → Append → Segment → Result Segment
apply_append crc (one_event envelope payload) s =
    new_segment (append_enveloped crc envelope payload s)
apply_append crc (system_record envelope payload) s = append_system crc envelope payload s
apply_append crc (event_batch events) s = new_segment (append_batch crc events s)

unfoldable pub run_appends : Crc32c → List Append → Segment → Result Segment
run_appends crc [] s = ok s
run_appends crc (a ∷ appends) s = do s' ← apply_append crc a s; run_appends crc appends s'

-- How many positions an append takes.
abbrev pub positions : Append → ℕ
positions (one_event envelope payload) = 1
positions (system_record envelope payload) = 0
positions (event_batch events) = length events

-- The records that an append adds at position `next`: of events, and of the system.
abbrev pub event_records : ℕ → Append → List StoredRecord
event_records next (one_event envelope payload) = stored event next envelope payload ∷ []
event_records next (system_record envelope payload) = []
event_records next (event_batch events) = batch_records next 0 events

abbrev pub system_records_of : ℕ → Append → List StoredRecord
system_records_of next (system_record envelope payload) = stored system next envelope payload ∷ []
system_records_of next (one_event envelope payload) = []
system_records_of next (event_batch events) = []

abbrev pub all_events : ℕ → List Append → List StoredRecord
all_events next [] = []
all_events next (a ∷ appends) = event_records next a ++ all_events (next + positions a) appends

abbrev pub all_system : ℕ → List Append → List StoredRecord
all_system next [] = []
all_system next (a ∷ appends) = system_records_of next a ++ all_system (next + positions a) appends

-- Envelopes are valid, and the events of a batch name one batch.
abbrev pub IsValidAppend : Append → Type 0
IsValidAppend (one_event envelope payload) = IsEnvelope envelope
IsValidAppend (system_record envelope payload) = IsEnvelope envelope
IsValidAppend (event_batch []) = Unit
IsValidAppend (event_batch ((envelope, payload) ∷ events)) =
    AllInBatch envelope.batch_id ((envelope, payload) ∷ events)

-- What a successful append wrote at the end of the file.
pub data Wrote (crc : Crc32c) (s s' : Segment) : Append → Bytes → Type 0 where
  event_written :
      {envelope : RecordEnvelopeV2} {payload out : Bytes}
      → encode_kind crc event s.next_offset envelope payload ≡ ok out
      → s' ≡ write_all s out 1
      → Wrote crc s s' (one_event envelope payload) out
  system_written :
      {envelope : RecordEnvelopeV2} {payload out : Bytes}
      → encode_kind crc system s.next_offset envelope payload ≡ ok out
      → s' ≡ write_all s out 0
      → Wrote crc s s' (system_record envelope payload) out
  batch_written :
      {envelope : RecordEnvelopeV2} {payload : Bytes} {events : List (RecordEnvelopeV2 × Bytes)}
      {out : Bytes}
      → encode_batch crc s.next_offset envelope ((envelope, payload) ∷ events) ≡ ok out
      → s' ≡ write_all s out (length {A = RecordEnvelopeV2 × Bytes} ((envelope, payload) ∷ events))
      → Wrote crc s s' (event_batch ((envelope, payload) ∷ events)) out

pub apply_append-Wrote :
    (crc : Crc32c) (a : Append) (s s' : Segment)
    → apply_append crc a s ≡ ok s'
    → (out : Bytes) × Wrote crc s s' a out
unfolding apply_append append_enveloped append_system append_batch encode_enveloped
apply_append-Wrote crc (one_event envelope payload) s s' h =
    go (encode_kind crc event s.next_offset envelope payload) refl
  where
    go :
        (r : Result Bytes)
        → encode_kind crc event s.next_offset envelope payload ≡ r
        → (out : Bytes) × Wrote crc s s' (one_event envelope payload) out
    go (ok out) e = (out, event_written e (sym (ok-injective (rw e at h))))
    go (err x) e = absurd (cc (rw e at h))
apply_append-Wrote crc (system_record envelope payload) s s' h =
    let (out, e, k) = bind-eq-ok (encode_kind crc system s.next_offset envelope payload) _ h in
    (out, system_written e (sym (ok-injective k)))
apply_append-Wrote crc (event_batch []) s s' h = absurd (cc h)
apply_append-Wrote crc (event_batch ((envelope, payload) ∷ events)) s s' h =
    go (encode_batch crc s.next_offset envelope ((envelope, payload) ∷ events)) refl
  where
    go :
        (r : Result Bytes)
        → encode_batch crc s.next_offset envelope ((envelope, payload) ∷ events) ≡ r
        → (out : Bytes) × Wrote crc s s' (event_batch ((envelope, payload) ∷ events)) out
    go (ok out) e = (out, batch_written e (sym (ok-injective (rw e at h))))
    go (err x) e = absurd (cc (rw e at h))
