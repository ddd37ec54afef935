-- ===== src/Log/Store/Appends.antt =====
-- salamander/src/log/mod.rs: the appends of a log with their rolls, and what they keep.
use salamander_db.Prelude.{
  ℕ, ◌+◌, ◌^◌, ◌≤◌, ◌<◌, ◌≡◌, refl, sym, ap, ◌∙◌, ◌≢◌, inl, inr, Bool, true, false, List, [], ◌∷◌,
  ◌++◌, append_assoc, append-nil, arith, leb, if◌then◌else◌, ==_iff, Bool-cases, All,
}
use salamander_db.Bytes.{Bytes}
use salamander_db.Errors.{Result, ok, err, ok-injective}
use salamander_db.Format.Types.{StoredRecord}
use salamander_db.Format.Checksum.{Crc32c}
use salamander_db.Log.Scan.{ScanState, scan_start}
use salamander_db.Log.Segment.{Segment, create, append_enveloped, append_system, append_batch}
use salamander_db.Log.Segment.Sound.{IsSound, create-IsSound}
use salamander_db.Log.Segment.Appends.{
  Append, one_event, system_record, event_batch, apply_append, positions, event_records, all_events,
  IsValidAppend, apply_append-Wrote,
}
use salamander_db.Log.Segment.Recovery.{Wrote-Appended, total_positions}
use salamander_db.Log.Store.{
  Log, roll, make_room, on_active, after_room, after_write, with_unit, append_event, append_events,
  append_system_record, head, has_base, storage_format_version, payload_format_version,
}
use salamander_db.Log.Store.Chain.{IsClosed, Chain, Chain-snoc}
use mathlib.Core.Path.{subst}

-- The log holds these records: the closed segments first, then the active one; both manifests
-- are fit to open it.
pub record IsLog (crc : Crc32c) (log : Log) (records : List StoredRecord) : Type 0 where
  pub older : List StoredRecord
  pub chain : Chain crc 0 log.closed log.active.base_offset older
  pub state : ScanState
  pub sound : IsSound crc log.active state
  pub split : records ≡ older ++ state.records
  pub forward : log.active.base_offset ≤ log.active.next_offset
  pub points : log.written.active_segment_base ≡ log.active.base_offset
  pub storage : log.written.storage_format_version ≡ storage_format_version
  pub payload : log.written.payload_format_version ≡ payload_format_version
  pub floor : log.written.retention_floor ≤ log.active.next_offset
  pub same :
      (n : ℕ) → record log.manifest { next_offset = n } ≡ record log.written { next_offset = n }

pub has_base-last :
    (closed : List (ℕ × Bytes)) (n b : ℕ) (file : Bytes)
    → has_base n (closed ++ ((b, file) ∷ [])) ≡ false
    → b ≢ n
has_base-last [] n b file h = λ e. cc (h, (==_iff b n).1 e)
has_base-last (x ∷ closed) n b file h = has_base-last closed n b file (ground (arith, h))

pub roll-IsLog :
    (crc : Crc32c) (log log' : Log) (records : List StoredRecord)
    → IsLog crc log records
    → roll log ≡ ok log'
    → IsLog crc log' records × (head log' ≡ head log)
unfolding roll create
roll-IsLog crc log log' records v h =
    elim (Bool-cases (
      has_base log.active.next_offset
        (log.closed ++ ((log.active.base_offset, log.active.file) ∷ [])))) [
          | inl t ↦ absurd (cc (rw t at h))
          | inr f ↦
              let apart =
                has_base-last log.closed log.active.next_offset log.active.base_offset
                  log.active.file f in
              let c : IsClosed crc log.active.base_offset
                  (log.active.base_offset, log.active.file) =
                record {
                  seg = log.active;
                  state = v.state;
                  sound = v.sound;
                  base_same = refl;
                  key_same = refl;
                  bytes_same = refl;
                  grows = omega (arith, v.forward, apart);
                } in
              subst (λ l. IsLog crc l records × (head l ≡ head log)) (ok-injective (rw f at h))
                (
                  record {
                    older = v.older ++ v.state.records;
                    chain =
                        Chain-snoc crc log.closed 0 log.active.base_offset v.older
                          (log.active.base_offset, log.active.file) v.chain c;
                    state = scan_start log.active.next_offset;
                    sound = create-IsSound crc log.active.next_offset;
                    split = v.split ∙ sym (append-nil (v.older ++ v.state.records));
                    forward = omega arith;
                    points = refl;
                    storage = ap (λ m. m.storage_format_version) (v.same 0) ∙ v.storage;
                    payload = ap (λ m. m.payload_format_version) (v.same 0) ∙ v.payload;
                    floor = omega (arith, v.floor, ap (λ m. m.retention_floor) (v.same 0));
                    same = λ n. refl;
                  },
                  refl,
                )
        ]

make_room-IsLog :
    (crc : Crc32c) (log log' : Log) (records : List StoredRecord)
    → IsLog crc log records
    → make_room log ≡ ok log'
    → IsLog crc log' records × (head log' ≡ head log)
unfolding make_room
make_room-IsLog crc log log' records v h =
    elim (Bool-cases (leb log.segment_max_bytes log.active.len_bytes)) [
      | inl t ↦ roll-IsLog crc log log' records v (rw (t, make_room) at h)
      | inr f ↦
          subst (λ l. IsLog crc l records × (head l ≡ head log))
            (ok-injective (rw (f, make_room) at h)) (v, refl)
    ]

abbrev outcome {ℓ} : {A : Type ℓ} → Log × Result A → Log × Bool
outcome (log, ok x) = (log, true)
outcome (log, err e) = (log, false)

-- The three appends as one operation, with whether it succeeded.
unfoldable pub log_append : Crc32c → Append → Log → Log × Bool
log_append crc (one_event envelope payload) log = outcome (append_event crc envelope payload log)
log_append crc (system_record envelope payload) log =
    outcome (append_system_record crc envelope payload log)
log_append crc (event_batch events) log = outcome (append_events crc events log)

pub data Stepped (crc : Crc32c) (a : Append) (log : Log) : Log × Bool → Type 0 where
  refused : Stepped crc a log (log, false)
  rolled : {roomy : Log} → make_room log ≡ ok roomy → Stepped crc a log (roomy, false)
  appended :
      {roomy : Log} {s : Segment}
      → make_room log ≡ ok roomy
      → apply_append crc a roomy.active ≡ ok s
      → Stepped crc a log (record roomy { active = s }, true)

on_active-Stepped {ℓ} :
    {A : Type ℓ} (crc : Crc32c) (a : Append) (f : Segment → Result (A × Segment)) (log : Log)
    → ((s s' : Segment) (x : A) → f s ≡ ok (x, s') → apply_append crc a s ≡ ok s')
    → Stepped crc a log (outcome (on_active f log))
on_active-Stepped {A} crc a f log link = room (make_room log) refl
  where
    write :
        (roomy : Log) (r : Result (A × Segment))
        → make_room log ≡ ok roomy
        → f roomy.active ≡ r
        → Stepped crc a log (outcome (after_write roomy r))
    write roomy (err e) m g = rolled m
    write roomy (ok (x, s)) m g = appended m (link roomy.active s x g)

    room : (r : Result Log) → make_room log ≡ r → Stepped crc a log (outcome (after_room f log r))
    room (err e) m = refused
    room (ok roomy) m = write roomy (f roomy.active) m refl

pub log_append-Stepped :
    (crc : Crc32c) (a : Append) (log : Log) → Stepped crc a log (log_append crc a log)
unfolding log_append append_event append_events append_system_record apply_append
log_append-Stepped crc (one_event envelope payload) log =
    on_active-Stepped crc (one_event envelope payload) (append_enveloped crc envelope payload) log
      (λ s s' x e. rw e refl)
log_append-Stepped crc (system_record envelope payload) log =
    on_active-Stepped crc (system_record envelope payload) _ log
      (λ s s' x e. link (append_system crc envelope payload s) s' x e)
  where
    link : (r : Result Segment) (s' : Segment) (x : Unit {0}) → with_unit r ≡ ok (x, s') → r ≡ ok s'
    link (err e) s' x h = absurd (cc h)
    link (ok s) s' x h = cc h
log_append-Stepped crc (event_batch events) log =
    on_active-Stepped crc (event_batch events) (append_batch crc events) log (λ s s' x e. rw e refl)

-- One append, whatever its outcome: the log holds what it held, and the append's events if it
-- succeeded.
log_append-IsLog :
    (crc : Crc32c) (a : Append) (log : Log) (records : List StoredRecord) (after : Log × Bool)
    → IsLog crc log records
    → IsValidAppend a
    → head log + positions a < 2 ^ 64
    → Stepped crc a log after
    → IsLog crc after.0 (records ++ (if after.1 then event_records (head log) a else []))
      × (head after.0 ≡ head log + (if after.1 then positions a else 0))
log_append-IsLog crc a log records after v va room refused =
    (subst (IsLog crc log) (sym (append-nil records)) v, omega arith)
log_append-IsLog crc a log records after v va room (rolled {roomy} m) =
    let (v', h) = make_room-IsLog crc log roomy records v m in
    (subst (IsLog crc roomy) (sym (append-nil records)) v', omega (arith, h))
log_append-IsLog crc a log records after v va room (appended {roomy} {s} m e) =
    let (v', h) = make_room-IsLog crc log roomy records v m in
    let (out, w) = apply_append-Wrote crc a roomy.active s e in
    let one =
      Wrote-Appended crc roomy.active s v'.state a out v'.sound va (omega (arith, room, h)) w in
    (
      record {
        older = v'.older;
        chain = subst (λ b. Chain crc 0 roomy.closed b v'.older) (sym one.base_same) v'.chain;
        state = one.after;
        sound = one.sound;
        split =
            (λ i. v'.split i ++ event_records (sym h i) a)
            ∙ append_assoc v'.older v'.state.records (event_records (head roomy) a)
            ∙ ap (λ k. v'.older ++ k) (sym one.records_added);
        forward = omega (arith, v'.forward, one.base_same, one.next_moved);
        points = v'.points ∙ sym one.base_same;
        storage = v'.storage;
        payload = v'.payload;
        floor = omega (arith, v'.floor, one.next_moved);
        same = v'.same;
      },
      omega (arith, one.next_moved, h),
    )

unfoldable pub run_log : Crc32c → List Append → Log → Log
run_log crc [] log = log
run_log crc (a ∷ appends) log = run_log crc appends (log_append crc a log).0

-- The appends of a run that succeeded.
unfoldable pub accepted : Crc32c → List Append → Log → List Append
accepted crc [] log = []
accepted crc (a ∷ appends) log =
    let after : Log × Bool = log_append crc a log in
    let later : List Append = accepted crc appends after.0 in if after.1 then a ∷ later else later

run_log-step :
    (crc : Crc32c) (a : Append) (records : List StoredRecord) (h : ℕ) (b : Bool)
    (later : List Append)
    → (records ++ (if b then event_records h a else []))
        ++ all_events (h + (if b then positions a else 0)) later
      ≡ records ++ all_events h (if b then a ∷ later else later)
run_log-step crc a records h true later =
    append_assoc records (event_records h a) (all_events (h + positions a) later)
run_log-step crc a records h false later =
    (λ i. append-nil records i ++ all_events (add_zero h i) later)
  where
    add_zero : (n : ℕ) → n + 0 ≡ n
    add_zero n = omega arith

run_log-total :
    (a : Append) (h : ℕ) (b : Bool) (later : List Append)
    → h + (if b then positions a else 0) + total_positions later
      ≡ h + total_positions (if b then a ∷ later else later)
run_log-total a h true later = omega arith
run_log-total a h false later = omega arith

-- Any sequence of appends, some of which may fail, leaves a log that holds what it held and the
-- events of the appends that succeeded, at the positions from its head on.
pub run_log-IsLog :
    (crc : Crc32c) (appends : List Append) (log : Log) (records : List StoredRecord)
    → IsLog crc log records
    → All IsValidAppend appends
    → head log + total_positions appends < 2 ^ 64
    → IsLog crc
        (run_log crc appends log)
        (records ++ all_events (head log) (accepted crc appends log))
      × (head (run_log crc appends log) ≡ head log + total_positions (accepted crc appends log))
unfolding run_log accepted
run_log-IsLog crc [] log records v va room =
    (subst (IsLog crc log) (sym (append-nil records)) v, omega arith)
run_log-IsLog crc (a ∷ appends) log records v va room =
    let after = log_append crc a log in
    let (v', h) =
      log_append-IsLog crc a log records after v va.0 (omega (arith, room))
        (log_append-Stepped crc a log) in
    let bound : (if after.1 then positions a else 0) ≤ positions a = at_most after.1 in
    let (w, g) = run_log-IsLog crc appends after.0 _ v' va.1 (omega (arith, room, h, bound)) in
    let later = accepted crc appends after.0 in
    (
      subst (IsLog crc (run_log crc appends after.0))
          ((λ i.
              (records ++ (if after.1 then event_records (head log) a else []))
              ++ all_events (h i) later)
            ∙ run_log-step crc a records (head log) after.1 later)
          w,
      g ∙ (λ i. h i + total_positions later) ∙ run_log-total a (head log) after.1 later,
    )
  where
    at_most : (b : Bool) → (if b then positions a else 0) ≤ positions a
    at_most true = omega arith
    at_most false = omega arith
