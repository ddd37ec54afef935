-- ===== src/Db/Crash.antt =====
-- salamander/src/db.rs: a crash at the end of an append whose commit is due, and the opening after it.

use salamander_db.Prelude.{
  ℕ, ◌≡◌, refl, sym, ap, ◌∙◌, inl, inr, Option, some, List, [], ◌∷◌, ◌++◌, leb, Bool-cases, zero,
  suc, ◌<◌, Bool, true, false, take, arith, none, ==_iff, ◌==◌,
}
use salamander_db.Bytes.{Bytes, bytes_eq_self, bytes_eq}
use salamander_db.Errors.{Result, ok, err, ok-injective}
use salamander_db.Format.Types.{Id16, RecordEnvelopeV2, StoredRecord}
use salamander_db.Format.Checksum.{Crc32c}
use salamander_db.Log.Segment.{Segment, append_batch}
use salamander_db.Log.Store.{
  Log, head, append_events, make_room, roll, has_base, after_write, after_room, disk_of, and_then,
}
use salamander_db.Stream.{AppendRequest, AppendReceipt}
use salamander_db.Branch.{FromJson, rebuild}
use salamander_db.Commit.{CommitPolicy}
use salamander_db.Db.Plan.{write, is_some, Env, Prepared, plan_append}
use salamander_db.Db.Cache.{open_catalog}
use salamander_db.Db.Open.{open_with, has_complete_prefix-IsLog, open_with-ok, open_db}
use salamander_db.Db.Alike.{Alike, plan_append-alike}
use salamander_db.Log.Store.Appends.{IsLog}
use salamander_db.Log.Store.Reopen.{reopened_log, open_log-disk_of}
use salamander_db.Db.{Db, Event, Checkpoint, commit, persist_core_catalog, load_core_catalog}
use salamander_db.Db.Append.{appended, recorded, receipt_of, close_steps, run_steps, due}

make_room-database :
    (log log' : Log)
    → make_room log ≡ ok log'
    → log'.manifest.database_id ≡ log.manifest.database_id
unfolding make_room roll
make_room-database log log' h = elim (Bool-cases (leb log.segment_max_bytes log.active.len_bytes)) [
  | inr f ↦ ap (λ l. l.manifest.database_id) (sym (ok-injective (rw (f, make_room) at h)))
  | inl t ↦
      elim (Bool-cases (
        has_base log.active.next_offset
          (log.closed ++ ((log.active.base_offset, log.active.file) ∷ [])))) [
            | inl u ↦ absurd (cc (rw (t, make_room, u, roll) at h))
            | inr n ↦
                ap (λ l. l.manifest.database_id)
                  (sym (ok-injective (rw (t, make_room, n, roll) at h)))
          ]
]

append_events-database :
    (crc : Crc32c) (events : List (RecordEnvelopeV2 × Bytes)) (log : Log)
    → (append_events crc events log).0.manifest.database_id ≡ log.manifest.database_id
unfolding append_events
append_events-database crc events log = go (make_room log) refl
  where
    after :
        (roomy : Log) (w : Result ((ℕ × ℕ) × Segment))
        → (after_write roomy w).0.manifest.database_id ≡ roomy.manifest.database_id
    after roomy (err e) = refl
    after roomy (ok (positions, active)) = refl

    go :
        (r : Result Log)
        → make_room log ≡ r
        → (after_room (append_batch crc events) log r).0.manifest.database_id
          ≡ log.manifest.database_id
    go (err e) m = refl
    go (ok roomy) m =
        after roomy (append_batch crc events roomy.active) ∙ make_room-database log roomy m

-- The handle after that many steps of the end of an append.
abbrev pub interrupted :
    {B V : Type 0}
    → ℕ
    → (Event B → V → V)
    → Env
    → AppendRequest B
    → Prepared
    → ℕ × ℕ
    → Log
    → Db V
    → Db V
interrupted {B} {V} n apply env request p positions log db =
    let after : Db V = appended apply env request p positions.0 log db in
    let now : Bool = due env request after in
    run_steps (take n (close_steps request p (receipt_of request p positions now) now)) after

-- The checkpoint of the commit stays on the disk until the last step.
between :
    {B V : Type 0} (request : AppendRequest B) (p : Prepared) (receipt : AppendReceipt) (n : ℕ)
    (now : Bool) (after : Db V)
    → now ≡ true
    → 0 < n
    → n < 3
    → ((run_steps (take n (close_steps request p receipt now)) after).checkpoint
        ≡ (commit after).checkpoint)
      × ((run_steps (take n (close_steps request p receipt now)) after).log ≡ after.log)
unfolding commit persist_core_catalog recorded
between request p receipt zero now after due lo hi = absurd (omega (arith, lo))
between request p receipt (suc zero) true after due lo hi = (refl, refl)
between request p receipt (suc (suc zero)) true after due lo hi = (refl, refl)
between request p receipt (suc zero) false after due lo hi = absurd (cc due)
between request p receipt (suc (suc zero)) false after due lo hi = absurd (cc due)
between request p receipt (suc (suc (suc n))) now after due lo hi = absurd (omega (arith, hi))

-- The handle that opening gives after the crash: the catalog from before the batch with the log behind it.
abbrev pub crashed : {V : Type 0} → ℕ → CommitPolicy → Log → Option Checkpoint → Db V → Db V
crashed max policy log checkpoint db = record {
  log = reopened_log max log;
  views = [];
  policy = policy;
  pending_bytes = 0;
  pending_count = 0;
  catalog = db.catalog;
  branches = db.branches;
  durable_head = head log;
  checkpoint = checkpoint;
}

load_core_catalog-stale :
    (id : Id16) (at : ℕ) (c : Checkpoint)
    → c.database_id ≡ id
    → c.head ≡ at
    → load_core_catalog id at (some c) ≡ some c.catalog
unfolding load_core_catalog
load_core_catalog-stale id at c h1 h2 =
    let same_id : bytes_eq c.database_id id ≡ true =
      ap (λ i. bytes_eq c.database_id i) (sym h1) ∙ bytes_eq_self c.database_id in
    let same_head : (c.head == at) ≡ true = (==_iff c.head at).1 h2 in rw (same_id, same_head) refl

open_catalog-stale :
    (crc : Crc32c) (id : Id16) (at : ℕ) (c : Checkpoint) (items : List (Result StoredRecord))
    → c.database_id ≡ id
    → c.head ≡ at
    → open_catalog crc id at (some c) items ≡ ok (c.catalog, some c)
unfolding open_catalog
open_catalog-stale crc id at c items h1 h2 =
    rw (load_core_catalog-stale id at c h1 h2, open_catalog) refl

open_with-stale :
    {V : Type 0} (crc : Crc32c) (from_json : FromJson) (max : ℕ) (policy : CommitPolicy) (log : Log)
    (records : List StoredRecord) (db : Db V) (c : Checkpoint)
    (items systems : List (Result StoredRecord))
    → IsLog crc log records
    → log.written.retention_anchor_checksum ≡ none
    → c.database_id ≡ log.written.database_id
    → c.head ≡ head log
    → c.catalog ≡ db.catalog
    → rebuild from_json systems ≡ ok db.branches
    → open_with crc from_json policy (some c) items systems (reopened_log max log)
      ≡ ok (crashed max policy log (some c) db)
open_with-stale crc from_json max policy log records db c items systems v anchor h1 h2 h3 branches =
    open_with-ok crc from_json policy (some c) items systems (reopened_log max log)
      (c.catalog, some c) db.branches (ap (λ o. is_some o) anchor)
      (has_complete_prefix-IsLog crc log records max v)
      (open_catalog-stale crc log.written.database_id (head log) c items h1 h2) branches
    ∙ ap (λ k. ok (record (crashed max policy log (some c) db) { catalog = k })) h3

-- An append whose commit is due, planned as a write and taken by the log, stops after the commit and before
-- the checkpoint is written again. The directory opens, with the log that holds the batch and the catalog
-- from before it; every later call is planned on the opened handle as it was before the batch, and the same
-- call, sent again with the same clock and ids, is planned as the same write, at the same revisions. The log
-- holds `records`, no retention anchor is named, and the branches are those of the system records.
pub open_db-interrupted :
    {B V : Type 0} (apply : Event B → V → V) (crc : Crc32c) (serialize : B → Result Bytes)
    (from_json : FromJson) (env later : Env) (request again : AppendRequest B)
    (supplied supplied' : Option Id16) (p : Prepared) (positions : ℕ × ℕ) (log : Log) (db : Db V)
    (n max : ℕ) (id : Id16) (policy : CommitPolicy) (records : List StoredRecord)
    (items systems : List (Result StoredRecord))
    → plan_append crc serialize env request supplied db ≡ ok (write p)
    → append_events crc p.stored db.log ≡ (log, ok positions)
    → due env request (appended apply env request p positions.0 log db) ≡ true
    → 0 < n
    → n < 3
    → IsLog crc log records
    → log.written.retention_anchor_checksum ≡ none
    → rebuild from_json systems ≡ ok db.branches
    → (opened : Db V) × (open_db crc from_json id max policy
          (disk_of (interrupted n apply env request p positions log db).log)
          (interrupted n apply env request p positions log db).checkpoint
          items
          systems
        ≡ some (ok opened))
      × (opened.log ≡ reopened_log max log)
      × (opened.catalog ≡ db.catalog)
      × (plan_append crc serialize later again supplied' opened
          ≡ plan_append crc serialize later again supplied' db)
      × (plan_append crc serialize env request supplied opened ≡ ok (write p))
unfolding open_db commit persist_core_catalog appended
open_db-interrupted {B} {V} apply crc serialize from_json env later request again supplied supplied'
      p positions log db n max id policy records items systems plan took now lo hi v anchor
      branches =
    let after : Db V = appended apply env request p positions.0 log db in
    let (checkpoint, kept) =
      between request p (receipt_of request p positions (due env request after)) n
        (due env request after) after now lo hi in
    let c : Checkpoint = record {
      database_id = log.manifest.database_id;
      head = head log;
      catalog = db.catalog;
    } in
    let same_id : log.manifest.database_id ≡ log.written.database_id =
      ap (λ m. m.database_id) (v.same 0) in
    let opened : Db V = crashed max policy log (some c) db in
    let alike : Alike db opened = record {
      catalogs = refl;
      branches = refl;
      databases =
          sym same_id
          ∙ ap (λ w. w.0.manifest.database_id) (sym took)
          ∙ append_events-database crc p.stored db.log;
    } in
    let opening : Log → Option Checkpoint → Option (Result (Db V)) =
      λ l k. open_db crc from_json id max policy (disk_of l) k items systems in
    (
      opened,
      ap (λ l. opening l (interrupted n apply env request p positions log db).checkpoint) kept
          ∙ ap (λ k. opening log k) checkpoint
          ∙ ap
              (λ r.
                and_then r (λ l. some (open_with crc from_json policy (some c) items systems l)))
              (open_log-disk_of crc id max false log records v)
          ∙ ap (λ r. some r)
              (open_with-stale crc from_json max policy log records db c items systems v anchor
                same_id refl refl branches),
      refl,
      refl,
      plan_append-alike crc serialize later again supplied' db opened alike,
      plan_append-alike crc serialize env request supplied db opened alike ∙ plan,
    )
