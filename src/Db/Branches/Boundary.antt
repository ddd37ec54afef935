-- ===== src/Db/Branches/Boundary.antt =====
-- salamander/src/db.rs: which positions of a log `is_batch_boundary` accepts.
use salamander_db.Prelude.{
  ℕ, suc, ◌+◌, ◌-◌, ◌^◌, ◌≤◌, ◌<◌, ◌≡◌, refl, sym, ap, ◌∙◌, inl, inr, Bool, true, false, not, ◌&&◌,
  ◌||◌, Option, none, some, List, [], ◌∷◌, ◌++◌, arith, ltb, leb, ◌==◌, ==_iff, Bool-cases, length,
  All,
}
use salamander_db.Bytes.{Bytes, bytes_eq}
use salamander_db.Errors.{Result, ok, ok-injective}
use salamander_db.Format.Types.{Id16, RecordEnvelopeV2, StoredRecord, event}
use salamander_db.Log.Segment.Batch.{batch_records}
use salamander_db.Format.Checksum.{Crc32c}
use salamander_db.Log.Scan.Frames.{stored}
use salamander_db.Log.Segment.Appends.{
  Append, one_event, system_record, event_batch, all_events, IsValidAppend,
}
use salamander_db.Log.Segment.Recovery.{total_positions}
use salamander_db.Log.Store.{head, disk_of}
use salamander_db.Log.Store.Reopen.{fresh_log}
use salamander_db.Log.Store.Appends.{run_log, accepted}
use salamander_db.Log.Store.History.{scan_all, open_log-run_log}
use salamander_db.Db.{Db}
use salamander_db.Db.Recovery.Whole.{all_ok}
use salamander_db.Db.Branches.{boundary_loop, is_batch_boundary}
use salamander_db.Db.Branches.Batches.{
  Events, from_position, from_position-all_ok, step_at, skip_batch, end_batch, inside_batch,
}

-- The batches of events that appends leave in a log, those without events left out: an event that is
-- appended alone is a batch of its own, and a record of the system belongs to none.
abbrev pub batches_of : List Append → List Events
batches_of [] = []
batches_of (one_event e x ∷ appends) = ((e, x) ∷ []) ∷ batches_of appends
batches_of (system_record e x ∷ appends) = batches_of appends
batches_of (event_batch [] ∷ appends) = batches_of appends
batches_of (event_batch (y ∷ events) ∷ appends) = (y ∷ events) ∷ batches_of appends

-- The position is the end of some number of the first batches.
abbrev pub is_end : ℕ → List Events → Bool
is_end at [] = at == 0
is_end at (b ∷ bs) =
    let rest : Bool = is_end (at - length b) bs in at == 0 || (leb (length b) at && rest)

abbrev pub opens : Option Id16 → Id16 → Bool
opens none id = true
opens (some last) id = not (bytes_eq last id)

-- A batch has events, which name one batch, and the batch before names another.
abbrev pub IsApart : Option Id16 → List Events → Type 0
IsApart last [] = Unit
IsApart last ([] ∷ bs) = ⊥
IsApart last (((e, x) ∷ events) ∷ bs) =
    (opens last e.batch_id ≡ true)
    × All (λ y. y.0.batch_id ≡ e.batch_id) events
    × IsApart (some e.batch_id) bs

-- The records of batches, from a position on, and their number.
abbrev laid_out : ℕ → List Events → List StoredRecord
laid_out first [] = []
laid_out first (b ∷ bs) = batch_records first 0 b ++ laid_out (first + length b) bs

abbrev total : List Events → ℕ
total [] = 0
total (b ∷ bs) = length b + total bs

all_events-batches_of :
    (appends : List Append) (next : ℕ)
    → all_events next appends ≡ laid_out next (batches_of appends)
all_events-batches_of [] next = refl
all_events-batches_of (one_event e x ∷ appends) next =
    let zero_more : next ≡ next + 0 = omega arith in
    (λ i. stored event (zero_more i) e x ∷ all_events-batches_of appends (next + 1) i)
all_events-batches_of (system_record e x ∷ appends) next =
    let zero_more : next + 0 ≡ next = omega arith in
    ap (λ n. all_events n appends) zero_more ∙ all_events-batches_of appends next
all_events-batches_of (event_batch [] ∷ appends) next =
    let zero_more : next + 0 ≡ next = omega arith in
    ap (λ n. all_events n appends) zero_more ∙ all_events-batches_of appends next
all_events-batches_of (event_batch (y ∷ events) ∷ appends) next =
    ap (λ rs. batch_records next 0 (y ∷ events) ++ rs)
      (all_events-batches_of appends (next + length (y ∷ events)))

total-batches_of : (appends : List Append) → total_positions appends ≡ total (batches_of appends)
total-batches_of [] = refl
total-batches_of (one_event e x ∷ appends) = ap (λ n. 1 + n) (total-batches_of appends)
total-batches_of (system_record e x ∷ appends) = omega (arith, total-batches_of appends)
total-batches_of (event_batch [] ∷ appends) = omega (arith, total-batches_of appends)
total-batches_of (event_batch (y ∷ events) ∷ appends) =
    ap (λ n. length (y ∷ events) + n) (total-batches_of appends)

is_end-total : (bs : List Events) → is_end (total bs) bs ≡ true
is_end-total [] = refl
is_end-total (b ∷ bs) =
    let back : length b + total bs - length b ≡ total bs = omega arith in
    let enough : leb (length b) (length b + total bs) ≡ true = ground arith in
    let last : is_end (length b + total bs - length b) bs ≡ true =
      ap (λ n. is_end n bs) back ∙ is_end-total bs in
    rw (enough, last) (Bool-cases-or (length b + total bs == 0))
  where
    Bool-cases-or : (b : Bool) → (b || true) ≡ true
    Bool-cases-or true = refl
    Bool-cases-or false = refl

is_end-zero : (bs : List Events) → is_end 0 bs ≡ true
is_end-zero [] = refl
is_end-zero (b ∷ bs) = refl

module _ (at first : ℕ) (e : RecordEnvelopeV2) (x : Bytes) (events : Events)
    (bs : List Events) where
  is_end-inside :
      first < at
      → at < first + length ((e, x) ∷ events)
      → is_end (at - first) (((e, x) ∷ events) ∷ bs) ≡ false
  is_end-inside lo hi =
      let some_left : (at - first == 0) ≡ false = ground (arith, lo) in
      let short : leb (suc (length events)) (at - first) ≡ false = ground (arith, lo, hi) in
      rw (some_left, short) refl

  is_end-behind :
      first + length ((e, x) ∷ events) ≤ at
      → is_end (at - first) (((e, x) ∷ events) ∷ bs)
        ≡ is_end (at - (first + length ((e, x) ∷ events))) bs
  is_end-behind h =
      let some_left : (at - first == 0) ≡ false = ground (arith, h) in
      let enough : leb (suc (length events)) (at - first) ≡ true = ground (arith, h) in
      let less : at - first - suc (length events) ≡ at - (first + suc (length events)) =
        omega (arith, h) in
      rw (some_left, enough, less) refl

-- The loop at the start of a batch that names another than the batch before.
loop-start :
    (at : ℕ) (id : Id16) (bs : List Events)
    → IsApart (some id) bs
    → 0 < total bs
    → boundary_loop at (some id) (all_ok (laid_out at bs)) ≡ ok true
loop-start at id [] apart some_left = absurd (omega (arith, some_left))
loop-start at id ([] ∷ bs) apart some_left = elim apart [ ]
loop-start at id (((e, x) ∷ events) ∷ bs) apart some_left =
    step_at at (some id) _
      (all_ok (batch_records at 1 events ++ laid_out (at + suc (length events)) bs)) (omega arith)
    ∙ ap ok apart.0

loop-laid_out :
    (bs : List Events) (at first : ℕ) (last before : Option Id16)
    → IsApart last bs
    → first < at
    → at < first + total bs
    → boundary_loop at before (all_ok (laid_out first bs)) ≡ ok (is_end (at - first) bs)
loop-laid_out [] at first last before apart lo hi = absurd (omega (arith, lo, hi))
loop-laid_out ([] ∷ bs) at first last before apart lo hi = elim apart [ ]
loop-laid_out (((e, x) ∷ events) ∷ bs) at first last before apart lo hi =
    let here : ℕ = first + suc (length events) in
    let rest : List StoredRecord = laid_out here bs in
    elim (Bool-cases (ltb at here)) [
      | inl t ↦
          inside_batch at first rest e x events e.batch_id 0 before refl apart.1 (omega (arith, lo))
            (ground (arith, t))
          ∙ ap ok (sym (is_end-inside at first e x events bs lo (ground (arith, t))))
      | inr f ↦ elim (Bool-cases (at == here)) [
        | inl u ↦
            let same : at ≡ here = (==_iff _ _).0 u in
            end_batch at first rest e x events e.batch_id 0 before refl apart.1
              (omega (arith, same))
            ∙ ap (λ n. boundary_loop at (some e.batch_id) (all_ok (laid_out n bs))) (sym same)
            ∙ loop-start at e.batch_id bs apart.2 (omega (arith, same, hi))
            ∙ ap ok (
                sym (
                  is_end-behind at first e x events bs (omega (arith, same))
                  ∙ ap (λ n. is_end n bs) (omega (arith, same))
                  ∙ is_end-zero bs))
        | inr n ↦
            let past : here < at = ground (arith, f, n) in
            skip_batch at first rest ((e, x) ∷ events) 0 before (omega (arith, past))
            ∙ loop-laid_out bs at here (some e.batch_id) before apart.2 past (omega (arith, hi))
            ∙ ap ok (sym (is_end-behind at first e x events bs (omega (arith, past))))
      ]
    ]

-- The loop at any position up to the head.
is_batch_boundary-laid_out :
    {V : Type 0} (db : Db V) (bs : List Events) (at : ℕ)
    → IsApart none bs
    → head db.log ≡ total bs
    → at ≤ head db.log
    → is_batch_boundary db at (all_ok (from_position (at - 1) (laid_out 0 bs))) ≡ ok (is_end at bs)
unfolding is_batch_boundary
is_batch_boundary-laid_out db bs at apart size low = elim (Bool-cases (at == 0)) [
  | inl z ↦ rw z (ap ok (sym (ap (λ n. is_end n bs) ((==_iff _ _).0 z) ∙ is_end-zero bs)))
  | inr p ↦ elim (Bool-cases (at == head db.log)) [
    | inl t ↦
        rw (p, t) (ap ok (sym (ap (λ n. is_end n bs) ((==_iff _ _).0 t ∙ size) ∙ is_end-total bs)))
    | inr f ↦
        let up : 0 < at = ground (arith, p) in
        let inside : at < 0 + total bs = ground (arith, size, low, f) in
        rw (p, f)
          (from_position-all_ok at (laid_out 0 bs) none up
            ∙ loop-laid_out bs at 0 none none apart up inside
            ∙ ap (λ n. ok (is_end n bs)) (omega arith))
  ]
]

-- A position is where a batch ends. Let the log have come about by appends to a new one, with envelopes
-- that are valid, batches that name one batch, and positions below 2^64, and let the batches of the appends
-- that succeeded, left to right, each name another batch than the one before. For the records
-- that a scan of its files gives from position `at - 1` on, `is_batch_boundary` accepts a position up to the head
-- exactly when it is the end of some number of the first batches, 0 and the head among them; it never fails.
pub is_batch_boundary-is_end :
    {V : Type 0} (crc : Crc32c) (id : Id16) (max : ℕ) (appends : List Append) (db : Db V)
    (records : List StoredRecord) (at : ℕ)
    → All IsValidAppend appends
    → total_positions appends < 2 ^ 64
    → db.log ≡ run_log crc appends (fresh_log id max)
    → scan_all crc (disk_of db.log).segments ≡ some (ok records)
    → IsApart none (batches_of (accepted crc appends (fresh_log id max)))
    → at ≤ head db.log
    → is_batch_boundary db at (all_ok (from_position (at - 1) records))
      ≡ ok (is_end at (batches_of (accepted crc appends (fresh_log id max))))
is_batch_boundary-is_end crc id max appends db records at va room made scanned apart low =
    let taken : List Append = accepted crc appends (fresh_log id max) in
    let (files, size, again) = open_log-run_log crc id max true appends va room in
    let read : some (ok records) ≡ some (ok (all_events 0 taken)) =
      sym scanned ∙ ap (λ l. scan_all crc (disk_of l).segments) made ∙ files in
    let inner : ◌≡◌ {A = Result (List StoredRecord)} (ok records) (ok (all_events 0 taken)) =
      cc read in
    let whole : records ≡ laid_out 0 (batches_of taken) =
      ok-injective inner ∙ all_events-batches_of taken 0 in
    ap (λ rs. is_batch_boundary db at (all_ok (from_position (at - 1) rs))) whole
    ∙ is_batch_boundary-laid_out db (batches_of taken) at apart
        (ap head made ∙ size ∙ total-batches_of taken) low
