-- ===== src/Log/Store/Retain.antt =====
-- salamander/src/log/mod.rs: retention, the floor that is activated, the segments below it that go and
-- where the floor may stand.
pub mod Boundary
pub mod Reclaim
use salamander_db.Prelude.{
  ℕ, ◌+◌, ◌-◌, ◌^◌, min, Bool, true, not, ◌||◌, Option, none, some, List, [], ◌∷◌, ◌++◌, ltb, leb,
  ◌==◌, if◌then◌else◌, length,
}
use salamander_db.Bytes.{Bytes}
use salamander_db.Errors.{Result, ok, err, invalid_argument, manifest}
use salamander_db.Log.Store.{Log, Manifest, disk_of, discover_segments, head}
use Prim.Native.Nat.{max}

unfoldable pub activate_retention : ℕ → ℕ → Log → Result Log
activate_retention floor checksum log =
    if ltb floor log.manifest.retention_floor || ltb (head log) floor
    then err (invalid_argument "invalid retention floor {floor} for current floor {} and head {}")
    else let m : Manifest = record log.manifest {
      retention_floor = floor;
      retention_generation = min (log.manifest.retention_generation + 1) (2 ^ 64 - 1);
      retention_anchor_checksum = some checksum;
      next_offset = head log;
    } in
      ok (record log { manifest = m; written = m })

-- `retain`, with the bytes of the files that go.
unfoldable pub retain_from : ℕ → List (ℕ × Bytes) → List (ℕ × Bytes) × ℕ
retain_from floor [] = ([], 0)
retain_from floor (file ∷ files) =
    let rest : List (ℕ × Bytes) × ℕ = retain_from floor files in
    if leb floor file.0 then (file ∷ rest.0, rest.1) else (rest.0, length file.1 + rest.1)

unfoldable pub reclaim_below_retention_floor : Log → Log × ℕ
reclaim_below_retention_floor log =
    let kept : List (ℕ × Bytes) × ℕ = retain_from log.manifest.retention_floor log.closed in
    (record log { closed = kept.0 }, kept.1)

unfoldable pub has_complete_prefix : Log → Bool
has_complete_prefix log = elim log.closed [
  | [] ↦ log.active.base_offset == 0
  | file ∷ files ↦ file.0 == 0
]

abbrev pub or_base : ℕ → Option ℕ → ℕ
or_base b none = b
or_base b (some c) = max b c

-- The greatest base up to `requested`.
unfoldable pub greatest_base : ℕ → List (ℕ × Bytes) → Option ℕ
greatest_base requested [] = none
greatest_base requested (file ∷ files) =
    let later : Option ℕ = greatest_base requested files in
    if leb file.0 requested then some (or_base file.0 later) else later

abbrev pub or_floor : ℕ → Option ℕ → ℕ
or_floor floor none = floor
or_floor floor (some b) = max b floor

unfoldable pub reclaimable_below : ℕ → List (ℕ × Bytes) → List (ℕ × ℕ)
reclaimable_below effective [] = []
reclaimable_below effective (file ∷ files) =
    let rest : List (ℕ × ℕ) = reclaimable_below effective files in
    if ltb file.0 effective then (file.0, length file.1) ∷ rest else rest

unfoldable pub retention_boundary : ℕ → Log → ℕ × List (ℕ × ℕ)
retention_boundary requested log =
    let effective : ℕ =
      or_floor log.manifest.retention_floor (greatest_base requested (disk_of log).segments) in
    (effective, reclaimable_below effective log.closed)

unfoldable pub total_bytes : List (ℕ × Bytes) → ℕ
total_bytes [] = 0
total_bytes (file ∷ files) = length file.1 + total_bytes files

-- The loop, on the bytes that are still retained.
unfoldable pub floor_rounds : ℕ → ℕ → ℕ → List (ℕ × Bytes) → ℕ → ℕ × ℕ × Bool
floor_rounds target active_base active_bytes [] retained =
    (active_base, active_bytes, leb active_bytes target)
floor_rounds target active_base active_bytes (file ∷ files) retained =
    let rest : ℕ × ℕ × Bool =
      floor_rounds target active_base active_bytes files
        (if not (file.0 == active_base) then retained - length file.1 else retained) in
    if leb retained target then (file.0, retained, true) else rest

unfoldable pub retention_floor_for_bytes : ℕ → Log → ℕ × ℕ × Bool
retention_floor_for_bytes target log =
    let segments : List (ℕ × Bytes) = discover_segments (
      (retain_from log.manifest.retention_floor log.closed).0
      ++ ((log.active.base_offset, log.active.file) ∷ [])) in
    floor_rounds target log.active.base_offset log.active.len_bytes segments (total_bytes segments)
