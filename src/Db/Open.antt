-- ===== src/Db/Open.antt =====
-- salamander/src/db.rs: `open_internal` on a directory without a retention anchor. What the iterators over
-- the records give is an argument.
use salamander_db.Prelude.{ℕ, ◌≡◌, refl, sym, true, false, not, Option, some, List, [], ◌∷◌, ==_iff}
use salamander_db.Bytes.{Bytes}
use salamander_db.Errors.{Result, ok, fail_if, invalid_format, ◌>>=◌, ◌>>◌}
use salamander_db.Format.Types.{Id16, StoredRecord}
use salamander_db.Format.Checksum.{Crc32c}
use salamander_db.Branch.{BranchCatalog, FromJson, rebuild}
use salamander_db.Commit.{CommitPolicy}
use salamander_db.Log.Store.{Log, Disk, head, and_then, open_log}
use salamander_db.Log.Store.Retain.{has_complete_prefix}
use salamander_db.Log.Store.Chain.{Chain}
use salamander_db.Log.Store.Appends.{IsLog}
use salamander_db.Log.Store.Reopen.{reopened_log}
use salamander_db.Stream.{StreamCatalog}
use salamander_db.Db.{Db, Checkpoint}
use salamander_db.Db.Plan.{is_some}
use salamander_db.Db.Cache.{open_catalog}

-- From the log on: `items` are its events, `systems` its system records.
unfoldable pub open_with :
    {V : Type 0}
    → Crc32c
    → FromJson
    → CommitPolicy
    → Option Checkpoint
    → List (Result StoredRecord)
    → List (Result StoredRecord)
    → Log
    → Result (Db V)
open_with crc from_json policy checkpoint items systems log = do
  fail_if (is_some log.manifest.retention_anchor_checksum)
      (invalid_format "manifest has no matching authoritative retention anchor")
  fail_if (not (has_complete_prefix log))
      (invalid_format "retained database has no compatible authoritative core anchor")
  kept ← open_catalog crc log.manifest.database_id (head log) checkpoint items
  branches ← rebuild from_json systems
  ok (record {
    log = log;
    views = [];
    policy = policy;
    pending_bytes = 0;
    pending_count = 0;
    catalog = kept.0;
    branches = branches;
    durable_head = head log;
    checkpoint = kept.1;
  })

unfoldable pub open_db :
    {V : Type 0}
    → Crc32c
    → FromJson
    → Id16
    → ℕ
    → CommitPolicy
    → Disk
    → Option Checkpoint
    → List (Result StoredRecord)
    → List (Result StoredRecord)
    → Option (Result (Db V))
open_db crc from_json id max policy disk checkpoint items systems =
    and_then (open_log crc id max false disk)
      (λ log. some (open_with crc from_json policy checkpoint items systems log))

-- A log that holds every position from 0 on opens as one.
pub has_complete_prefix-IsLog :
    (crc : Crc32c) (log : Log) (records : List StoredRecord) (max : ℕ)
    → IsLog crc log records
    → has_complete_prefix (reopened_log max log) ≡ true
unfolding has_complete_prefix
has_complete_prefix-IsLog crc log records max v = go log.closed v.chain
  where
    go :
        (files : List (ℕ × Bytes))
        → Chain crc 0 files log.active.base_offset v.older
        → has_complete_prefix (record log { closed = files }) ≡ true
    go [] h = (==_iff log.active.base_offset 0).1 (sym h.0)
    go (file ∷ files) (c, later, same, rest) = (==_iff file.0 0).1 c.key_same

-- Opening, where its checks pass.
pub open_with-ok :
    {V : Type 0} (crc : Crc32c) (from_json : FromJson) (policy : CommitPolicy)
    (checkpoint : Option Checkpoint) (items systems : List (Result StoredRecord)) (log : Log)
    (kept : StreamCatalog × Option Checkpoint) (branches : BranchCatalog)
    → is_some log.manifest.retention_anchor_checksum ≡ false
    → has_complete_prefix log ≡ true
    → open_catalog crc log.manifest.database_id (head log) checkpoint items ≡ ok kept
    → rebuild from_json systems ≡ ok branches
    → open_with {V = V} crc from_json policy checkpoint items systems log
      ≡ ok (record {
        log = log;
        views = [];
        policy = policy;
        pending_bytes = 0;
        pending_count = 0;
        catalog = kept.0;
        branches = branches;
        durable_head = head log;
        checkpoint = kept.1;
      })
unfolding open_with
open_with-ok crc from_json policy checkpoint items systems log kept branches h1 h2 h3 h4 =
    rw (h1, h2, h3, h4) refl
