-- ===== src/Log/Store.antt =====
-- salamander/src/log/mod.rs: `Log`, the segments of a directory with their manifest. A closed segment
-- is its base with the bytes of its file, `Disk` is what the directory holds. The file system does
-- what it is asked to; manifest.json, which serde_json writes and reads, is the manifest itself.
pub mod Chain
pub mod Order
pub mod Appends
pub mod Reopen
pub mod History
pub mod Retain
mod Runs
use salamander_db.Prelude.{
  ℕ, zero, suc, Bool, false, not, ◌&&◌, ◌||◌, Option, none, some, List, [], ◌∷◌, ◌++◌, ltb, leb,
  ◌==◌, if◌then◌else◌, length,
}
use salamander_db.Bytes.{Bytes}
use salamander_db.Errors.{
  Result, ok, err, fail_if, io, manifest, unsupported_format, unsupported_storage_format,
  migration_incomplete, ◌>>=◌, ◌>>◌,
}
use Prim.Native.Nat.{compare, Ordering}
use salamander_db.Format.Types.{Id16, RecordEnvelopeV2}
use salamander_db.Format.Checksum.{Crc32c}
use salamander_db.Log.Segment.{
  Segment, create, open_segment, append_enveloped, append_system, append_batch,
}

abbrev pub manifest_format_version : ℕ
manifest_format_version = 3

abbrev pub storage_format_version : ℕ
storage_format_version = 2

abbrev pub payload_format_version : ℕ
payload_format_version = 1

pub record Manifest : Type 0 where
  pub format_version : ℕ
  pub storage_format_version : ℕ
  pub database_id : Id16
  pub payload_format_version : ℕ
  pub active_segment_base : ℕ
  pub retention_floor : ℕ
  pub retention_generation : ℕ
  pub retention_anchor_checksum : Option ℕ
  pub next_offset : ℕ

-- Whether the migration marker is there, the segment files by their base, and manifest.json.
pub record Disk : Type 0 where
  pub migrating : Bool
  pub segments : List (ℕ × Bytes)
  pub manifest : Option Manifest

-- `written` is the manifest that manifest.json holds; the one in memory may be ahead in `next_offset`.
pub record Log : Type 0 where
  pub closed : List (ℕ × Bytes)
  pub active : Segment
  pub manifest : Manifest
  pub written : Manifest
  pub segment_max_bytes : ℕ

abbrev pub disk_of : Log → Disk
disk_of log = record {
  migrating = false;
  segments = log.closed ++ ((log.active.base_offset, log.active.file) ∷ []);
  manifest = some log.written;
}

-- A scan that ran out of fuel, an error or a value.
abbrev pub and_then {ℓ κ} :
    {A : Type ℓ} {B : Type κ} → Option (Result A) → (A → Option (Result B)) → Option (Result B)
and_then none rest = none
and_then (some (err e)) rest = some (err e)
and_then (some (ok x)) rest = rest x

-- `found.sort_by_key(|(base, _)| *base)`
unfoldable pub insert_by_base : ℕ × Bytes → List (ℕ × Bytes) → List (ℕ × Bytes)
insert_by_base x [] = x ∷ []
insert_by_base x (y ∷ ys) = if leb x.0 y.0 then x ∷ (y ∷ ys) else y ∷ insert_by_base x ys

unfoldable pub discover_segments : List (ℕ × Bytes) → List (ℕ × Bytes)
discover_segments [] = []
discover_segments (x ∷ xs) = insert_by_base x (discover_segments xs)

abbrev pub first_manifest : Id16 → ℕ → Manifest
first_manifest id active_base = record {
  format_version = manifest_format_version;
  storage_format_version = storage_format_version;
  database_id = id;
  payload_format_version = payload_format_version;
  active_segment_base = active_base;
  retention_floor = 0;
  retention_generation = 0;
  retention_anchor_checksum = none;
  next_offset = active_base;
}

-- With the files that are there afterwards.
unfoldable pub bootstrap_manifest : Id16 → List (ℕ × Bytes) → Result (Manifest × List (ℕ × Bytes))
bootstrap_manifest id [] = ok (first_manifest id 0, (0, []) ∷ [])
bootstrap_manifest id (x ∷ []) = ok (first_manifest id x.0, x ∷ [])
bootstrap_manifest id (x ∷ y ∷ xs) =
    err (manifest "multiple segments on disk but no manifest — unexpected state")

unfoldable pub read_manifest : Id16 → Disk → Result (Manifest × List (ℕ × Bytes))
read_manifest id disk = elim disk.manifest [
  | some m ↦ ok (m, disk.segments)
  | none ↦ bootstrap_manifest id (discover_segments disk.segments)
]

-- The loop over the discovered segments.
unfoldable pub classify :
    Crc32c
    → ℕ
    → List (ℕ × Bytes)
    → Option Segment
    → List (ℕ × Bytes)
    → Option (Result (List (ℕ × Bytes) × Option Segment))
classify crc base closed active [] = some (ok (closed, active))
classify crc base closed active (x ∷ xs) = elim (compare x.0 base) [
  | Ordering.eq ↦ and_then (open_segment crc x.0 x.1) (λ s. classify crc base closed (some s) xs)
  | Ordering.lt ↦ classify crc base (closed ++ (x ∷ [])) active xs
  | Ordering.gt ↦ elim (length x.1) [
    | zero ↦ classify crc base closed active xs
    | suc n ↦ some (
        err (
          manifest
            "orphaned segment {path:?} beyond the active one is non-empty ({len} bytes) — refusing to delete"))
  ]
]

unfoldable pub check_versions : Manifest → Result (Unit {0})
check_versions m = do
  fail_if (not (m.storage_format_version == storage_format_version))
      (unsupported_storage_format m.storage_format_version storage_format_version)
  fail_if (not (m.payload_format_version == payload_format_version))
      (unsupported_format m.payload_format_version payload_format_version)

-- What the end of `open_internal` does with the classified segments.
unfoldable pub assemble : Manifest → ℕ → List (ℕ × Bytes) × Option Segment → Result Log
assemble m max (closed, none) = err (manifest "manifest points at missing active segment base {}")
assemble m max (closed, some active) =
    if ltb active.next_offset m.retention_floor
    then err (manifest "retention floor {} is beyond head {}")
    else ok (record {
      closed = closed;
      active = active;
      manifest = record m { next_offset = active.next_offset };
      written = m;
      segment_max_bytes = max;
    })

-- `open_internal`; `id` is what `generate_id_bytes` gives a new database.
unfoldable pub open_log : Crc32c → Id16 → ℕ → Bool → Disk → Option (Result Log)
open_log crc id max allow_migration disk =
    if not allow_migration && disk.migrating
    then some (err (migration_incomplete []))
    else and_then (some (read_manifest id disk)) (λ found.
      and_then (some (check_versions found.0)) (λ done.
        and_then (classify crc found.0.active_segment_base [] none (discover_segments found.1))
          (λ sorted. some (assemble found.0 max sorted))))

abbrev pub has_base : ℕ → List (ℕ × Bytes) → Bool
has_base b [] = false
has_base b (x ∷ xs) = (x.0 == b) || has_base b xs

-- `create_new` refuses a name that is there.
unfoldable pub roll : Log → Result Log
roll log =
    if has_base log.active.next_offset (disk_of log).segments
    then err (io "create_new")
    else let m : Manifest = record log.manifest {
      active_segment_base = log.active.next_offset;
      next_offset = log.active.next_offset;
    } in
      ok (record log {
        closed = log.closed ++ ((log.active.base_offset, log.active.file) ∷ []);
        active = create log.active.next_offset;
        manifest = m;
        written = m;
      })

-- The directory when a roll stops before it writes the manifest.
unfoldable pub half_rolled : Log → Disk
half_rolled log = record (disk_of log) {
  segments = (disk_of log).segments ++ ((log.active.next_offset, []) ∷ []);
}

unfoldable pub make_room : Log → Result Log
make_room log = if leb log.segment_max_bytes log.active.len_bytes then roll log else ok log

-- The three appends do this. After an error the log is the one that the roll, if any, left.
abbrev pub after_write {ℓ} : {A : Type ℓ} → Log → Result (A × Segment) → Log × Result A
after_write roomy (err e) = (roomy, err e)
after_write roomy (ok (x, s)) = (record roomy { active = s }, ok x)

abbrev pub after_room {ℓ} :
    {A : Type ℓ} → (Segment → Result (A × Segment)) → Log → Result Log → Log × Result A
after_room f log (err e) = (log, err e)
after_room f log (ok roomy) = after_write roomy (f roomy.active)

abbrev pub on_active {ℓ} : {A : Type ℓ} → (Segment → Result (A × Segment)) → Log → Log × Result A
on_active f log = after_room f log (make_room log)

unfoldable pub append_event : Crc32c → RecordEnvelopeV2 → Bytes → Log → Log × Result ℕ
append_event crc envelope payload = on_active (append_enveloped crc envelope payload)

unfoldable pub append_events : Crc32c → List (RecordEnvelopeV2 × Bytes) → Log → Log × Result (ℕ × ℕ)
append_events crc events = on_active (append_batch crc events)

abbrev pub with_unit : Result Segment → Result (Unit {0} × Segment)
with_unit (err e) = err e
with_unit (ok s) = ok (tt, s)

unfoldable pub append_system_record :
    Crc32c → RecordEnvelopeV2 → Bytes → Log → Log × Result (Unit {0})
append_system_record crc envelope payload =
    on_active (λ s. with_unit (append_system crc envelope payload s))

abbrev pub head : Log → ℕ
head log = log.active.next_offset

-- `commit` fsyncs the active segment, which changes no byte here.
unfoldable pub commit_log : Log → Result ℕ
commit_log log = ok (head log)
