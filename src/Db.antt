-- ===== src/Db.antt =====
-- salamander/src/db.rs: the handle `Salamander`, with the core catalog's checkpoint that its commits
-- write. The clock and `generate_id_bytes` are arguments; bincode::serialize is the parameter
-- `serialize`, a view is a value with its `apply`.
pub mod Digest
pub mod Plan
pub mod Built
pub mod Planned
pub mod Append
pub mod Took
pub mod Outcome
pub mod Cache
pub mod Retry
pub mod Branches
pub mod Recovery
pub mod Open
pub mod Alike
pub mod Crash
mod Runs
use salamander_db.Prelude.{
  ℕ, Bool, true, false, not, ◌||◌, Option, none, some, List, ◌==◌, if◌then◌else◌,
}
use salamander_db.Bytes.{Bytes, bytes_eq}
use salamander_db.Errors.{Result, fail_if, manifest, revision_conflict}
use salamander_db.Format.Types.{Id16}
use salamander_db.Branch.{BranchCatalog}
use salamander_db.Commit.{CommitPolicy}
use salamander_db.Log.Store.{Log, head}
use salamander_db.Stream.{StreamCatalog, ExpectedRevision, any, no_stream, exact}

-- salamander/src/event.rs
pub record Event (B : Type 0) : Type 0 where
  pub offset : ℕ
  pub timestamp_ms : ℕ
  pub namespace : Bytes
  pub body : B

-- `CoreCatalogCheckpoint`; the file with its checksum is the value.
pub record Checkpoint : Type 0 where
  pub database_id : Id16
  pub head : ℕ
  pub catalog : StreamCatalog

-- The fields that appends, commits and the catalogs use; `checkpoint` is core-catalog.bin.
pub record Db (V : Type 0) : Type 0 where
  pub log : Log
  pub views : List (Bytes × V)
  pub policy : CommitPolicy
  pub pending_bytes : ℕ
  pub pending_count : ℕ
  pub catalog : StreamCatalog
  pub branches : BranchCatalog
  pub durable_head : ℕ
  pub checkpoint : Option Checkpoint

abbrev pub database_id : {V : Type 0} → Db V → Id16
database_id db = db.log.manifest.database_id

-- `persist_core_catalog`
unfoldable pub persist_core_catalog : {V : Type 0} → ℕ → Db V → Db V
persist_core_catalog at db = record db {
  checkpoint =
      some (record { database_id = db.log.manifest.database_id; head = at; catalog = db.catalog });
}

-- `load_core_catalog`; a file over 256 MiB, which the source passes over, is left out.
unfoldable pub load_core_catalog : Id16 → ℕ → Option Checkpoint → Option StreamCatalog
load_core_catalog id at none = none
load_core_catalog id at (some c) =
    if not (bytes_eq c.database_id id) || not (c.head == at) then none else some c.catalog

unfoldable pub commit : {V : Type 0} → Db V → Db V
commit db =
    persist_core_catalog (head db.log)
      (record db { durable_head = head db.log; pending_bytes = 0; pending_count = 0 })

abbrev pub matches : ExpectedRevision → Option ℕ → Bool
matches any actual = true
matches no_stream none = true
matches no_stream (some r) = false
matches (exact n) none = false
matches (exact n) (some r) = r == n

unfoldable pub validate_expected : ExpectedRevision → Option ℕ → Result (Unit {0})
validate_expected expected actual = fail_if (not (matches expected actual)) revision_conflict
