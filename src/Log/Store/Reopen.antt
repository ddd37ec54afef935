-- ===== src/Log/Store/Reopen.antt =====
-- salamander/src/log/mod.rs: `Log::open` on the directory that a log leaves, and after a crash.
use salamander_db.Prelude.{
  ℕ, suc, ◌≤◌, ◌<◌, ◌≡◌, refl, ap, ◌∙◌, inl, inr, Bool, true, false, not, ◌&&◌, none, some, List,
  [], ◌∷◌, ◌++◌, append_assoc, arith, ltb-false, Bool-cases,
}
use salamander_db.Bytes.{Bytes}
use salamander_db.Errors.{ok}
use salamander_db.Format.Types.{Id16, StoredRecord}
use salamander_db.Format.Checksum.{Crc32c}
use salamander_db.Log.Scan.{scan_start}
use salamander_db.Log.Segment.{create, open_segment}
use salamander_db.Log.Segment.Sound.{create-IsSound}
use salamander_db.Log.Segment.Open.{IsSound-Recovers, StopsAt, StopsAt-Recovers}
use salamander_db.Log.Store.{
  Log, Disk, disk_of, discover_segments, read_manifest, classify, check_versions, assemble,
  open_log, first_manifest, half_rolled, roll, has_base,
}
use salamander_db.Log.Store.Chain.{IsRising, Chain-IsRising}
use salamander_db.Log.Store.Order.{
  discover_rising, classify_below, classify_active, classify_orphan,
}
use salamander_db.Log.Store.Appends.{IsLog, has_base-last}

-- The log of a new directory.
abbrev pub fresh_log : Id16 → ℕ → Log
fresh_log id max = record {
  closed = [];
  active = create 0;
  manifest = first_manifest id 0;
  written = first_manifest id 0;
  segment_max_bytes = max;
}

pub fresh_log-IsLog : (crc : Crc32c) (id : Id16) (max : ℕ) → IsLog crc (fresh_log id max) []
unfolding create
fresh_log-IsLog crc id max = record {
  older = [];
  chain = (refl, refl);
  state = scan_start 0;
  sound = create-IsSound crc 0;
  split = refl;
  forward = omega arith;
  points = refl;
  storage = refl;
  payload = refl;
  floor = omega arith;
  same = λ n. refl;
}

-- What opening gives back: the segments as they were, and the written manifest with the head.
abbrev pub reopened_log : ℕ → Log → Log
reopened_log max log = record log {
  manifest = record log.written { next_offset = log.active.next_offset };
  segment_max_bytes = max;
}

-- The directory of a log with other bytes in the active file and with more, empty files.
abbrev pub disk_with : Log → Bytes → List (ℕ × Bytes) → Disk
disk_with log file orphans = record (disk_of log) {
  segments = log.closed ++ ((log.active.base_offset, file) ∷ orphans);
}

sorted_with :
    (files orphans : List (ℕ × Bytes)) (n base m : ℕ) (file : Bytes)
    → IsRising n files base
    → IsRising (suc base) orphans m
    → IsRising n (files ++ ((base, file) ∷ orphans)) m
sorted_with [] orphans n base m file h k = (h, k)
sorted_with (x ∷ files) orphans n base m file h k =
    (h.0, sorted_with files orphans (suc x.0) base m file h.1 k)

not_migrating : (b : Bool) → (not b && false) ≡ false
not_migrating true = refl
not_migrating false = refl

-- A roll succeeds only where the active segment holds a position.
roll_grows :
    (log rolled : Log)
    → log.active.base_offset ≤ log.active.next_offset
    → roll log ≡ ok rolled
    → log.active.base_offset < log.active.next_offset
unfolding roll
roll_grows log rolled le h =
    elim (Bool-cases (
      has_base log.active.next_offset
        (log.closed ++ ((log.active.base_offset, log.active.file) ∷ [])))) [
          | inl t ↦ absurd (cc (rw t at h))
          | inr f ↦ omega (
            arith,
            le,
            has_base-last log.closed log.active.next_offset log.active.base_offset log.active.file
                f,
          )
        ]

module _ (crc : Crc32c) (id : Id16) (max : ℕ) (b : Bool) (log : Log) (records : List StoredRecord)
    (v : IsLog crc log records) where
  versions : check_versions log.written ≡ ok tt
  unfolding check_versions
  versions = rw (v.storage, v.payload) refl

  assembled : assemble log.written max (log.closed, some log.active) ≡ ok (reopened_log max log)
  unfolding assemble
  assembled = rw (ltb-false log.active.next_offset log.written.retention_floor v.floor) refl

  open_log-disk_with :
      (file : Bytes) (orphans : List (ℕ × Bytes)) (m : ℕ)
      → open_segment crc log.active.base_offset file ≡ some (ok log.active)
      → IsRising (suc log.active.base_offset) orphans m
      → classify crc log.active.base_offset log.closed (some log.active) orphans
        ≡ some (ok (log.closed, some log.active))
      → open_log crc id max b (disk_with log file orphans) ≡ some (ok (reopened_log max log))
  unfolding open_log read_manifest
  open_log-disk_with file orphans m opened rising left =
      let up = Chain-IsRising crc log.closed 0 log.active.base_offset v.older v.chain in
      let all = sorted_with log.closed orphans 0 log.active.base_offset m file up rising in
      let sorted : classify crc log.written.active_segment_base [] none
            (discover_segments (log.closed ++ ((log.active.base_offset, file) ∷ orphans)))
          ≡ some (ok (log.closed, some log.active)) =
        (λ i. classify crc (v.points i) [] none (discover_rising _ 0 m all i))
        ∙ classify_below crc log.active.base_offset 0 [] log.closed
            ((log.active.base_offset, file) ∷ orphans) none up
        ∙ classify_active crc log.active.base_offset log.closed orphans none file log.active opened
        ∙ left in
      rw (not_migrating b, versions, sorted, assembled) refl

  -- The directory that the log leaves.
  pub open_log-disk_of : open_log crc id max b (disk_of log) ≡ some (ok (reopened_log max log))
  unfolding classify
  open_log-disk_of =
      let (scanned, opened) = IsSound-Recovers crc log.active v.state v.sound in
      open_log-disk_with log.active.file [] (suc log.active.base_offset) opened (omega arith) refl

  -- A roll that stops before it writes the manifest leaves an empty file, which opening deletes.
  pub open_log-half_rolled :
      (rolled : Log)
      → roll log ≡ ok rolled
      → open_log crc id max b (half_rolled log) ≡ some (ok (reopened_log max log))
  unfolding half_rolled classify
  open_log-half_rolled rolled h =
      let (scanned, opened) = IsSound-Recovers crc log.active v.state v.sound in
      let up : log.active.base_offset < log.active.next_offset =
        roll_grows log rolled v.forward h in
      ap
        (λ files.
          open_log crc id max b
            (record { migrating = false; segments = files; manifest = some log.written }))
        (append_assoc log.closed ((log.active.base_offset, log.active.file) ∷ [])
          ((log.active.next_offset, []) ∷ []))
      ∙ open_log-disk_with log.active.file ((log.active.next_offset, []) ∷ [])
          (suc log.active.next_offset) opened (omega (arith, up), omega arith)
          (classify_orphan crc log.active.base_offset log.active.next_offset log.closed []
            (some log.active) up)

  -- A write that reached the active file in part only.
  pub open_log-torn :
      (more : Bytes)
      → StopsAt crc log.active v.state (log.active.file ++ more)
      → open_log crc id max b (disk_with log (log.active.file ++ more) [])
        ≡ some (ok (reopened_log max log))
  unfolding classify
  open_log-torn more s =
      let (scanned, opened) = StopsAt-Recovers crc log.active v.state more v.sound.counted s in
      open_log-disk_with (log.active.file ++ more) [] (suc log.active.base_offset) opened
        (omega arith) refl
