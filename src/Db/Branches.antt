-- ===== src/Db/Branches.antt =====
-- salamander/src/db.rs: `fork_branch` and `archive_branch`. The records that `records_from(at - 1)` gives are
-- an argument, as the clock and the generated ids are; serde_json::to_vec is the parameter `to_json`.
pub mod Logged
pub mod Rebuilt
pub mod Batches
pub mod Boundary
mod Runs
use salamander_db.Prelude.{
  ℕ, ◌+◌, Bool, true, false, not, ◌&&◌, ◌||◌, Option, none, some, List, [], ◌∷◌, ltb, leb, ◌==◌,
  if◌then◌else◌,
}
use salamander_db.Bytes.{Bytes, bytes_eq, codes}
use salamander_db.Errors.{
  Result, ok, err, fail_if, invalid_argument, offset_beyond_head, position_unavailable, manifest,
  codec, branch_not_found, not_batch_boundary, ◌>>=◌, ◌>>◌,
}
use salamander_db.Format.Types.{
  Id16, id_zero, Metadata, RecordEnvelopeV2, StoredRecord, codec_json_utf8,
}
use salamander_db.Format.Checksum.{Crc32c}
use salamander_db.Branch.{
  BranchInfo, BranchStatus, BranchCatalog, active, archived, get, insert, archive,
}
use salamander_db.Log.Store.{Log, head, append_system_record}
use salamander_db.Db.{Db, commit, database_id}
use salamander_db.Db.Digest.{timestamp_nanos}

-- The clock, and what `generate_id_bytes` gives: first for the branch, if it is a new one, and then for
-- the record.
pub record BranchEnv : Type 0 where
  pub timestamp_ms : ℕ
  pub branch_id : Id16
  pub event_id : Id16

-- `Some(left)` with `left != right`.
abbrev pub differs : Option Id16 → Id16 → Bool
differs none right = false
differs (some left) right = not (bytes_eq left right)

abbrev pub is_none {ℓ} : {A : Type ℓ} → Option A → Bool
is_none none = true
is_none (some x) = false

-- The loop over the records on either side of the boundary, with the batch of the one before.
unfoldable pub boundary_loop : ℕ → Option Id16 → List (Result StoredRecord) → Result Bool
boundary_loop at before [] = ok false
boundary_loop at before (item ∷ items) = do
  rec ← item
  let here = rec.position + 1 == at
  let rest = boundary_loop at (if here then some rec.envelope.batch_id else before) items
  if not here && leb at rec.position
      then ok (rec.position == at && differs before rec.envelope.batch_id)
      else rest

unfoldable pub is_batch_boundary :
    {V : Type 0} → Db V → ℕ → List (Result StoredRecord) → Result Bool
is_batch_boundary db at items =
    if at == 0 || at == head db.log then ok true else boundary_loop at none items

abbrev pub new_branch : BranchEnv → Id16 → ℕ → Bytes → Metadata → BranchInfo
new_branch env parent at name metadata = record {
  id = env.branch_id;
  name = name;
  parent = some parent;
  fork_position = some at;
  created_at_unix_nanos = timestamp_nanos env.timestamp_ms;
  metadata = metadata;
  status = active;
}

unfoldable pub branch_envelope : BranchEnv → Id16 → Id16 → Bytes → RecordEnvelopeV2
branch_envelope env database id event_type = record {
  event_id = env.event_id;
  database_id = database;
  branch_id = id;
  stream_id = id_zero;
  stream_revision = 0;
  timestamp_unix_nanos = timestamp_nanos env.timestamp_ms;
  event_type = event_type;
  schema_version = 1;
  codec = codec_json_utf8;
  batch_id = env.event_id;
  batch_index = 0;
  metadata = [];
}

-- After the system record was appended: commit, and the new catalog is published.
abbrev pub published :
    {V : Type 0}
    → BranchInfo
    → BranchCatalog
    → Db V
    → Log × Result (Unit {0})
    → Db V × Result BranchInfo
published info updated db (log, err e) = (record db { log = log }, err e)
published info updated db (log, ok done) =
    (record (commit (record db { log = log })) { branches = updated }, ok info)

abbrev pub publish :
    {V : Type 0}
    → Crc32c
    → RecordEnvelopeV2
    → BranchInfo
    → BranchCatalog
    → Db V
    → Result Bytes
    → Db V × Result BranchInfo
publish crc envelope info updated db (err e) = (db, err e)
publish crc envelope info updated db (ok payload) =
    published info updated db (append_system_record crc envelope payload db.log)

-- The checks before anything is written, with the catalog that has the branch.
unfoldable pub check_fork :
    {V : Type 0}
    → BranchEnv
    → Id16
    → ℕ
    → Bytes
    → Metadata
    → List (Result StoredRecord)
    → Db V
    → Result BranchCatalog
check_fork env parent at name metadata items db = do
  fail_if (is_none (get parent db.branches)) (branch_not_found parent)
  fail_if (ltb (head db.log) at) (offset_beyond_head at)
  fail_if (ltb at db.log.manifest.retention_floor)
      (position_unavailable at db.log.manifest.retention_floor (head db.log) false)
  whole ← is_batch_boundary db at items
  fail_if (not whole) (not_batch_boundary at)
  insert (new_branch env parent at name metadata) db.branches

abbrev pub forked :
    {V : Type 0}
    → Crc32c
    → (BranchInfo → Result Bytes)
    → BranchEnv
    → BranchInfo
    → Db V
    → Result BranchCatalog
    → Db V × Result BranchInfo
forked crc to_json env info db (err e) = (db, err e)
forked crc to_json env info db (ok updated) =
    publish crc
      (branch_envelope env db.log.manifest.database_id info.id (codes "salamander.branch.created"))
      info updated db (to_json info)

unfoldable pub fork_branch :
    {V : Type 0}
    → Crc32c
    → (BranchInfo → Result Bytes)
    → BranchEnv
    → Id16
    → ℕ
    → Bytes
    → Metadata
    → List (Result StoredRecord)
    → Db V
    → Db V × Result BranchInfo
fork_branch crc to_json env parent at name metadata items db =
    forked crc to_json env (new_branch env parent at name metadata) db
      (check_fork env parent at name metadata items db)

abbrev pub status_is_archived : BranchStatus → Bool
status_is_archived archived = true
status_is_archived active = false

abbrev pub archived_with :
    {V : Type 0}
    → Crc32c
    → (BranchInfo → Result Bytes)
    → BranchEnv
    → BranchInfo
    → Db V
    → Result BranchCatalog
    → Db V × Result BranchInfo
archived_with crc to_json env info db (err e) = (db, err e)
archived_with crc to_json env info db (ok updated) =
    publish crc
      (branch_envelope env db.log.manifest.database_id info.id (codes "salamander.branch.archived"))
      info updated db (to_json info)

unfoldable pub archive_branch :
    {V : Type 0}
    → Crc32c
    → (BranchInfo → Result Bytes)
    → BranchEnv
    → Id16
    → Db V
    → Db V × Result BranchInfo
archive_branch crc to_json env id db = elim (get id db.branches) [
  | none ↦ (db, err (branch_not_found id))
  | some info ↦
      if bytes_eq id id_zero
      then (db, err (invalid_argument "the default branch cannot be archived"))
      else if status_is_archived info.status
      then (db, ok info)
      else archived_with crc to_json env (record info { status = archived }) db
          (archive (record info { status = archived }) db.branches)
]
