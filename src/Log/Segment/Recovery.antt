-- ===== src/Log/Segment/Recovery.antt =====
-- salamander/src/log/segment.rs: what `Segment::open` recovers after any appends and after a crash.
use salamander_db.Prelude.{
  ℕ, ◌+◌, ◌^◌, ◌≤◌, ◌<◌, ◌≡◌, refl, sym, ◌∙◌, some, List, [], ◌∷◌, ◌++◌, append_assoc, append-nil,
  arith, length, All, length-append,
}
use salamander_db.Bytes.{Bytes}
use salamander_db.Errors.{ok, bind-eq-ok, ok-injective}
use salamander_db.Format.Types.{RecordEnvelopeV2, event, system}
use salamander_db.Log.Scan.{ScanState, scan_start, scan_records, clean_eof}
use salamander_db.Log.Scan.Frames.{stored, Frame}
use salamander_db.Log.Segment.{Segment, create, open_segment}
use salamander_db.Log.Segment.Sound.{
  IsSound, create-IsSound, after_event, after_system, event-IsSound, system-IsSound,
}
use salamander_db.Log.Segment.Open.{StopsAt, StopsAt-Recovers, IsSound-Recovers, torn-StopsAt}
use salamander_db.Log.Segment.Batch.{batch_records}
use salamander_db.Log.Segment.Control.{encode_batch-BatchWritten}
use salamander_db.Log.Segment.Whole.{after_batch, batch_walk, batch_cut}
use salamander_db.Log.Segment.Appends.{
  Append, apply_append, run_appends, positions, event_records, system_records_of, all_events,
  all_system, IsValidAppend, Wrote, apply_append-Wrote, one_event, system_record, event_batch,
  event_written, system_written, batch_written,
}
use salamander_db.Format.Checksum.{Crc32c}
use mathlib.Core.Path.{subst}

pub append_cancel {ℓ} : {A : Type ℓ} (xs ys zs : List A) → xs ++ ys ≡ xs ++ zs → ys ≡ zs
append_cancel [] ys zs e = e
append_cancel (x ∷ xs) ys zs e = append_cancel xs ys zs (cc e)

-- What one append does to a sound segment.
pub record Appended (crc : Crc32c) (seg seg' : Segment) (t : ScanState) (a : Append) (out : Bytes)
    : Type 0 where
  pub after : ScanState
  pub sound : IsSound crc seg' after
  pub file_same : seg'.file ≡ seg.file ++ out
  pub base_same : seg'.base_offset ≡ seg.base_offset
  pub next_moved : seg'.next_offset ≡ seg.next_offset + positions a
  pub records_added : after.records ≡ t.records ++ event_records seg.next_offset a
  pub system_added : after.system_records ≡ t.system_records ++ system_records_of seg.next_offset a
  pub cut :
      (part : Bytes) (x : ℕ) (back : Bytes)
      → out ≡ part ++ (x ∷ back)
      → StopsAt crc seg t (seg.file ++ part)

pub Wrote-Appended :
    (crc : Crc32c) (seg seg' : Segment) (t : ScanState) (a : Append) (out : Bytes)
    → IsSound crc seg t
    → IsValidAppend a
    → seg.next_offset + positions a < 2 ^ 64
    → Wrote crc seg seg' a out
    → Appended crc seg seg' t a out
Wrote-Appended crc seg seg' t (one_event envelope payload) out s v room (event_written e shape) =
    let f : Frame crc event seg.next_offset envelope payload out = record {
      written = e;
      offset_u64 = omega (arith, room);
      valid = v;
    } in
    subst (λ g. Appended crc seg g t (one_event envelope payload) out) (sym shape)
      (record {
        after = after_event t (stored event seg.next_offset envelope payload) (length out);
        sound = event-IsSound seg t s f;
        file_same = refl;
        base_same = refl;
        next_moved = refl;
        records_added = refl;
        system_added = sym (append-nil t.system_records);
        cut = λ part x back e'. torn-StopsAt crc seg t part x back s f e';
      })
Wrote-Appended crc seg seg' t (system_record envelope payload) out s v room
      (system_written e shape) =
    let f : Frame crc system seg.next_offset envelope payload out = record {
      written = e;
      offset_u64 = omega (arith, room);
      valid = v;
    } in
    subst (λ g. Appended crc seg g t (system_record envelope payload) out) (sym shape)
      (record {
        after = after_system t (stored system seg.next_offset envelope payload) (length out);
        sound = system-IsSound seg t s f;
        file_same = refl;
        base_same = refl;
        next_moved = refl;
        records_added = sym (append-nil t.records);
        system_added = refl;
        cut = λ part x back e'. torn-StopsAt crc seg t part x back s f e';
      })
Wrote-Appended crc seg seg' t (event_batch ((envelope, payload) ∷ events)) out s v room
      (batch_written e shape) =
    let all : List (RecordEnvelopeV2 × Bytes) = (envelope, payload) ∷ events in
    let w = encode_batch-BatchWritten crc seg.next_offset envelope all out e in
    let some_events : 0 < length all = omega arith in
    let fits : seg.next_offset + length all ≤ 2 ^ 64 = omega (arith, room) in
    subst (λ g. Appended crc seg g t (event_batch all) out) (sym shape)
      (record {
        after = after_batch t (batch_records seg.next_offset 0 all) (length all) (length out);
        sound = record {
          walk = batch_walk crc seg t s envelope all w v.0.0 v some_events fits;
          at_end = omega (arith, s.at_end, length-append seg.file out);
          all_valid = omega (arith, s.at_end, length-append seg.file out);
          next_same = omega (arith, s.next_same);
          idle = refl;
          counted = omega (arith, s.counted, length-append seg.file out);
        };
        file_same = refl;
        base_same = refl;
        next_moved = refl;
        records_added = refl;
        system_added = sym (append-nil t.system_records);
        cut = λ part x back e'.
            batch_cut crc seg t s envelope all w v.0.0 v some_events fits part x back e';
      })
Wrote-Appended crc seg seg' t (event_batch []) out s v room w = elim w [ ]

abbrev pub total_positions : List Append → ℕ
total_positions [] = 0
total_positions (a ∷ appends) = positions a + total_positions appends

-- A run of appends to a sound segment.
pub record Ran (crc : Crc32c) (seg seg' : Segment) (t : ScanState) (appends : List Append)
    : Type 0 where
  after : ScanState
  sound : IsSound crc seg' after
  base_same : seg'.base_offset ≡ seg.base_offset
  next_moved : seg'.next_offset ≡ seg.next_offset + total_positions appends
  records_added : after.records ≡ t.records ++ all_events seg.next_offset appends
  system_added : after.system_records ≡ t.system_records ++ all_system seg.next_offset appends

run_appends-Ran :
    (crc : Crc32c) (appends : List Append) (seg seg' : Segment) (t : ScanState)
    → IsSound crc seg t
    → All IsValidAppend appends
    → seg.next_offset + total_positions appends < 2 ^ 64
    → run_appends crc appends seg ≡ ok seg'
    → Ran crc seg seg' t appends
unfolding run_appends
run_appends-Ran crc [] seg seg' t s v room h =
    subst (λ g. Ran crc seg g t []) (ok-injective h)
      (record {
        after = t;
        sound = s;
        base_same = refl;
        next_moved = omega arith;
        records_added = sym (append-nil t.records);
        system_added = sym (append-nil t.system_records);
      })
run_appends-Ran crc (a ∷ appends) seg seg' t s v room h =
    let (mid, e, k) = bind-eq-ok (apply_append crc a seg) _ h in
    let (out, w) = apply_append-Wrote crc a seg mid e in
    let one = Wrote-Appended crc seg mid t a out s v.0 (omega (arith, room)) w in
    let rest =
      run_appends-Ran crc appends mid seg' one.after one.sound v.1
        (omega (arith, room, one.next_moved)) k in
    record {
      after = rest.after;
      sound = rest.sound;
      base_same = rest.base_same ∙ one.base_same;
      next_moved = omega (arith, rest.next_moved, one.next_moved);
      records_added =
          rest.records_added
          ∙ (λ i. one.records_added i ++ all_events (one.next_moved i) appends)
          ∙ append_assoc t.records (event_records seg.next_offset a)
              (all_events (seg.next_offset + positions a) appends);
      system_added =
          rest.system_added
          ∙ (λ i. one.system_added i ++ all_system (one.next_moved i) appends)
          ∙ append_assoc t.system_records (system_records_of seg.next_offset a)
              (all_system (seg.next_offset + positions a) appends);
    }

-- From a new segment on, after any appends that succeeded, of valid envelopes and of batches whose
-- events name one batch, with positions below 2^64: the scan of the file stops at its clean end with
-- exactly the appended records, in order and with the positions that were assigned, and opening
-- the file gives the segment that the appends left.
pub open_segment-run_appends :
    (crc : Crc32c) (base_offset : ℕ) (appends : List Append) (seg : Segment)
    → All IsValidAppend appends
    → base_offset + total_positions appends < 2 ^ 64
    → run_appends crc appends (create base_offset) ≡ ok seg
    → (scan_records crc seg.file base_offset
        ≡ some (
            ok (record {
              records = all_events base_offset appends;
              system_records = all_system base_offset appends;
              valid_bytes = length seg.file;
              next_offset = seg.next_offset;
              stop = clean_eof;
            })))
      × (open_segment crc base_offset seg.file ≡ some (ok seg))
unfolding create
open_segment-run_appends crc base_offset appends seg v room h =
    let r =
      run_appends-Ran crc appends (create base_offset) seg (scan_start base_offset)
        (create-IsSound crc base_offset) v room h in
    let (scanned, opened) = IsSound-Recovers crc seg r.after r.sound in
    (
      subst
          (λ b.
            scan_records crc seg.file b
            ≡ some (
                ok (record {
                  records = all_events base_offset appends;
                  system_records = all_system base_offset appends;
                  valid_bytes = length seg.file;
                  next_offset = seg.next_offset;
                  stop = clean_eof;
                })))
          r.base_same
          (scanned ∙ (λ i. some (
            ok (record {
              records = r.records_added i;
              system_records = r.system_added i;
              valid_bytes = length seg.file;
              next_offset = seg.next_offset;
              stop = clean_eof;
            })))),
      subst (λ b. open_segment crc b seg.file ≡ some (ok seg)) r.base_same opened,
    )

-- A crash during an append loses that append and nothing else: when only a proper prefix of what the
-- append writes has reached the file, be it a single record, a system record or a whole batch,
-- opening the file gives the segment before the append. The appends before it succeeded on a new
-- segment, envelopes are valid, the events of a batch name one batch, and positions stay below 2^64.
pub open_segment_crash :
    (crc : Crc32c) (base_offset : ℕ) (appends : List Append) (a : Append) (seg seg' : Segment)
    (part : Bytes) (x : ℕ) (back : Bytes)
    → All IsValidAppend appends
    → IsValidAppend a
    → base_offset + total_positions appends + positions a < 2 ^ 64
    → run_appends crc appends (create base_offset) ≡ ok seg
    → apply_append crc a seg ≡ ok seg'
    → seg'.file ≡ seg.file ++ (part ++ (x ∷ back))
    → open_segment crc base_offset (seg.file ++ part) ≡ some (ok seg)
unfolding create
open_segment_crash crc base_offset appends a seg seg' part x back v va room h k e =
    let r =
      run_appends-Ran crc appends (create base_offset) seg (scan_start base_offset)
        (create-IsSound crc base_offset) v (omega (arith, room)) h in
    let (out, w) = apply_append-Wrote crc a seg seg' k in
    let next : seg.next_offset ≡ base_offset + total_positions appends = r.next_moved in
    let one = Wrote-Appended crc seg seg' r.after a out r.sound va (omega (arith, room, next)) w in
    let stops =
      one.cut part x back
        (append_cancel seg.file out (part ++ (x ∷ back)) (sym one.file_same ∙ e)) in
    let (scanned, opened) = StopsAt-Recovers crc seg r.after part r.sound.counted stops in
    subst (λ b. open_segment crc b (seg.file ++ part) ≡ some (ok seg)) r.base_same opened
