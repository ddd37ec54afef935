-- ===== src/Db/Outcome.antt =====
-- salamander/src/db.rs: the three outcomes of `append_batch_with_id`.

use salamander_db.Prelude.{
  ℕ, ◌+◌, ◌<◌, ◌≡◌, refl, sym, ap, ◌∙◌, inl, inr, Bool, true, false, not, ◌&&◌, ◌||◌, Option, none,
  some, List, arith, ◌==◌, Bool-cases, length,
}
use salamander_db.Bytes.{Bytes}
use salamander_db.Errors.{SalamanderError, Result, ok, err}
use salamander_db.Format.Types.{Id16}
use salamander_db.Format.Checksum.{Crc32c}
use salamander_db.Commit.{should_commit}
use salamander_db.Log.Store.{Log, head, append_events}
use salamander_db.Stream.{
  AppendRequest, AppendReceipt, Durability, revision, batch_receipt, validate_request, idempotent,
  record_batch, StreamCatalog,
}
use salamander_db.Stream.Keys.{pair_get-pair_insert}
use salamander_db.Branch.Maps.{get-insert}
use salamander_db.Db.{Db, Event, commit, persist_core_catalog, matches}
use salamander_db.Db.Plan.{
  Env, Prepared, Plan, answer, write, plan_append, next_revision, key_answer,
}
use salamander_db.Db.Planned.{Planned, plan_append-Planned}
use salamander_db.Db.Built.{length-stored_events}
use salamander_db.Db.Append.{
  append_batch_with_id, finish, finish_write, give_answer, is_sync, settle, appended, recorded,
  receipt_of, key_digest, is_synced, closed, total,
}
use salamander_db.Db.Took.{Took, not_taken, taken, append_events-Took}

-- A call that gave the receipt of an earlier append.
pub record Repeated {V : Type 0} (db db' : Db V) : Type 0 where
  pub log_same : db'.log ≡ db.log
  pub views_same : db'.views ≡ db.views
  pub catalog_same : db'.catalog ≡ db.catalog
  pub branches_same : db'.branches ≡ db.branches

-- What the key of a request, if it has one, stands for.
abbrev pub with_key : {A : Type 0} → Option Bytes → A → Option A
with_key none x = none
with_key (some key) x = some x

-- A call that appended its events.
pub record Written {B V : Type 0} (request : AppendRequest B) (db db' : Db V) (r : AppendReceipt)
    : Type 0 where
  pub expected : matches request.expected (revision request.branch request.stream db.catalog) ≡ true
  pub some_events : 0 < length request.events
  pub head_moved : head db'.log ≡ head db.log + length request.events
  pub first_same : r.first_position ≡ head db.log
  pub last_next : r.last_position + 1 ≡ head db'.log
  pub previous : r.previous_revision ≡ revision request.branch request.stream db.catalog
  pub current :
      r.current_revision + 1
      ≡ next_revision (revision request.branch request.stream db.catalog) + length request.events
  pub revised : revision request.branch request.stream db'.catalog ≡ some r.current_revision
  pub new_batch : batch_receipt r.batch_id db.catalog ≡ none
  pub receipted : batch_receipt r.batch_id db'.catalog ≡ some r
  pub digest : ℕ
  pub keyed :
      key_answer db' request.branch request.idempotency_key
      ≡ with_key request.idempotency_key (digest, r)
  pub branches_same : db'.branches ≡ db.branches

-- What a call leaves and returns.
pub data Outcome {B V : Type 0} (request : AppendRequest B) (db : Db V)
    : Db V × Result AppendReceipt → Type 0 where
  failed :
      {log : Log} {e : SalamanderError}
      → head log ≡ head db.log
      → Outcome request db (record db { log = log }, err e)
  repeated : {db' : Db V} {r : AppendReceipt} → Repeated db db' → Outcome request db (db', ok r)
  written :
      {db' : Db V} {r : AppendReceipt} → Written request db db' r → Outcome request db (db', ok r)

-- What the end of an append keeps, whether it commits or not.
pub closed-recorded :
    {B V : Type 0} (request : AppendRequest B) (p : Prepared) (receipt : AppendReceipt) (now : Bool)
    (after : Db V)
    → ((closed request p receipt now after).log ≡ after.log)
      × ((closed request p receipt now after).branches ≡ after.branches)
      × ((closed request p receipt now after).catalog
          ≡ record_batch request.branch request.stream p.stream p.digests
              (key_digest request.idempotency_key p.digest)
              receipt
              after.catalog)
unfolding recorded commit persist_core_catalog
closed-recorded request p receipt true after = (refl, refl, refl)
closed-recorded request p receipt false after = (refl, refl, refl)

-- The catalog after the batch, by what can be asked of it.
record_batch-asked :
    (branch : Id16) (stream : Bytes) (id : Id16) (digests : List (Id16 × ℕ))
    (key : Option (Bytes × ℕ)) (receipt : AppendReceipt) (c : StreamCatalog)
    → (revision branch stream (record_batch branch stream id digests key receipt c)
        ≡ some receipt.current_revision)
      × (batch_receipt receipt.batch_id (record_batch branch stream id digests key receipt c)
          ≡ some receipt)
unfolding record_batch revision batch_receipt
record_batch-asked branch stream id digests key receipt c = (
  rw
      (pair_get-pair_insert branch stream
        (record { id = id; last_revision = receipt.current_revision }) c.streams)
      refl,
  get-insert receipt.batch_id receipt c.receipts,
)

pub record_batch-idempotent :
    (branch : Id16) (stream : Bytes) (id : Id16) (digests : List (Id16 × ℕ)) (key : Bytes)
    (digest : ℕ) (receipt : AppendReceipt) (c : StreamCatalog)
    → idempotent branch key (record_batch branch stream id digests (some (key, digest)) receipt c)
      ≡ some (digest, receipt)
unfolding record_batch idempotent
record_batch-idempotent branch stream id digests key digest receipt c =
    rw
      (pair_get-pair_insert branch key (record { digest = digest; receipt = receipt })
        c.idempotency)
      refl

record_batch-key_answer :
    {V : Type 0} (branch : Id16) (stream : Bytes) (id : Id16) (digests : List (Id16 × ℕ))
    (key : Option Bytes) (digest : ℕ) (receipt : AppendReceipt) (db : Db V)
    → key_answer
        (record db {
          catalog =
              record_batch branch stream id digests (key_digest key digest) receipt db.catalog;
        })
        branch
        key
      ≡ with_key key (digest, receipt)
record_batch-key_answer branch stream id digests none digest receipt db = refl
record_batch-key_answer branch stream id digests (some key) digest receipt db =
    record_batch-idempotent branch stream id digests key digest receipt db.catalog

pub give_answer-Repeated :
    {V : Type 0} (d : Durability) (receipt : AppendReceipt) (db : Db V)
    → Repeated db (give_answer d receipt db).0
unfolding give_answer commit persist_core_catalog
give_answer-Repeated d receipt db =
    elim (Bool-cases (is_sync d && not (is_synced receipt.durability))) [
      | inl t ↦
          rw t (record {
            log_same = refl;
            views_same = refl;
            catalog_same = refl;
            branches_same = refl;
          })
      | inr f ↦
          rw f (record {
            log_same = refl;
            views_same = refl;
            catalog_same = refl;
            branches_same = refl;
          })
    ]

pub validate_request-some :
    {B : Type 0} (request : AppendRequest B)
    → validate_request request ≡ ok tt
    → 0 < length request.events
unfolding validate_request
validate_request-some request h = elim (Bool-cases (length request.events == 0)) [
  | inl t ↦ absurd (cc (rw t at h))
  | inr f ↦ positive (length request.events) f
]
  where
    positive : (n : ℕ) → (n == 0) ≡ false → 0 < n
    positive n e = ground arith

module _ {B V : Type 0} (crc : Crc32c) (serialize : B → Result Bytes) (env : Env)
    (request : AppendRequest B) (supplied : Option Id16) (db : Db V) (p : Prepared)
    (planned : Planned crc serialize env request supplied db p) where
  pub length-stored : length p.stored ≡ length request.events
  length-stored =
      ap length planned.built.stored_more
      ∙ length-stored_events env request db.log.manifest.database_id _ request.events planned.bodies
          0 planned.as_many

  settle-Written :
      (apply : Event B → V → V) (log : Log) (first last : ℕ)
      → first ≡ head db.log
      → head log ≡ head db.log + length p.stored
      → last + 1 ≡ head log
      → Written request db
          (settle apply env request p (first, last) log db).0
          (settle apply env request p (first, last) log db).1
  unfolding settle appended receipt_of
  settle-Written apply log first last h1 h2 h3 =
      let now : Bool =
        is_sync request.durability
        || should_commit db.policy (db.pending_bytes + total p.serialized)
            (db.pending_count + length request.events) env.elapsed in
      let after : Db V = appended apply env request p first log db in
      let receipt : AppendReceipt = receipt_of request p (first, last) now in
      let (log_is, branches_are, catalog_is) = closed-recorded request p receipt now after in
      let (revised, received) =
        record_batch-asked request.branch request.stream p.stream p.digests
          (key_digest request.idempotency_key p.digest) receipt db.catalog in
      record {
        expected = planned.expected;
        some_events = validate_request-some request planned.valid;
        head_moved = ap (λ l. head l) log_is ∙ h2 ∙ ap (λ n. head db.log + n) length-stored;
        first_same = h1;
        last_next = h3 ∙ sym (ap (λ l. head l) log_is);
        previous = planned.built.previous_same;
        current =
            omega (arith, planned.built.first_same, validate_request-some request planned.valid);
        revised = ap (λ c. revision request.branch request.stream c) catalog_is ∙ revised;
        new_batch = planned.new_batch;
        receipted = ap (λ c. batch_receipt p.batch_id c) catalog_is ∙ received;
        digest = p.digest;
        keyed =
            ap (λ c. key_answer (record db { catalog = c }) request.branch request.idempotency_key)
              catalog_is
            ∙ record_batch-key_answer request.branch request.stream p.stream p.digests
                request.idempotency_key p.digest receipt db;
        branches_same = branches_are;
      }

module _ {B V : Type 0} (crc : Crc32c) (serialize : B → Result Bytes) (apply : Event B → V → V)
    (env : Env) (request : AppendRequest B) (supplied : Option Id16) (db : Db V) where
  finish_write-Outcome :
      (p : Prepared)
      → Planned crc serialize env request supplied db p
      → (r : Log × Result (ℕ × ℕ)) → Took db.log (length p.stored) r
      → Outcome request db (finish_write apply env request p db r)
  finish_write-Outcome p planned (log, err e) (not_taken h) = failed h
  finish_write-Outcome p planned (log, ok (first, last)) (taken h1 h2 h3) =
      written (
        settle-Written crc serialize env request supplied db p planned apply log first last h1 h2
          h3)

  finish-Outcome :
      (r : Result Plan)
      → plan_append crc serialize env request supplied db ≡ r
      → Outcome request db (finish apply crc env request db r)
  finish-Outcome (err e) h = failed refl
  finish-Outcome (ok (answer receipt)) h =
      repeated (give_answer-Repeated request.durability receipt db)
  finish-Outcome (ok (write p)) h =
      finish_write-Outcome p (plan_append-Planned crc serialize env request supplied db p h)
        (append_events crc p.stored db.log) (append_events-Took crc p.stored db.log)

  -- A call has one of three outcomes. It fails, and head, catalogs, views, counters, durable head and
  -- checkpoint are as before. It gives a receipt, and the log, the views and the catalogs are as before.
  -- Or it has written: the expected revision held; the head moved by the number of events, of which
  -- there is one at least; the receipt has the positions from the old head to the new one, the old
  -- revision, and as the new revision the last of the consecutive ones; the catalog answers with that
  -- revision for the stream, with the receipt for the batch id, which it did not know, and for the key,
  -- if there is one; and the branches are as before.
  pub append_batch_with_id-Outcome :
      Outcome request db (append_batch_with_id apply crc serialize env request supplied db)
  unfolding append_batch_with_id
  append_batch_with_id-Outcome =
      finish-Outcome (plan_append crc serialize env request supplied db) refl
