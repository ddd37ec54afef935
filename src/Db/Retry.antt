-- ===== src/Db/Retry.antt =====
-- salamander/src/db.rs: an append with an idempotency key that is sent again.
use salamander_db.Prelude.{
  ℕ, ◌+◌, ◌<◌, ◌≡◌, refl, sym, ap, ◌∙◌, Bool, ◌||◌, Option, some, List, arith, ==_self, length,
}
use salamander_db.Bytes.{Bytes}
use salamander_db.Errors.{Result, ok, err, ok-injective}
use salamander_db.Format.Types.{Id16}
use salamander_db.Format.Checksum.{Crc32c}
use salamander_db.Branch.{get}
use salamander_db.Commit.{should_commit}
use salamander_db.Log.Store.{Log, head, append_events}
use salamander_db.Stream.{
  AppendRequest, AppendReceipt, Durability, sync, flush, accepted, idempotent, validate_request,
  record_batch,
}
use salamander_db.Db.{Db, Event}
use salamander_db.Db.Digest.{request_fingerprint}
use salamander_db.Db.Plan.{
  Env, Prepared, Plan, answer, write, plan_append, require_branch, key_answer, serialize_all,
}
use salamander_db.Db.Append.{
  append_batch_with_id, finish, finish_write, give_answer, is_sync, settle, closed, total, appended,
  receipt_of, reached, key_digest,
}
use salamander_db.Db.Planned.{Planned, plan_append-Planned}
use salamander_db.Db.Outcome.{give_answer-Repeated, closed-recorded, record_batch-idempotent}

-- A receipt under its key is the answer to the request with the key's digest.
plan_append-keyed :
    {B V : Type 0} (crc : Crc32c) (serialize : B → Result Bytes) (env : Env)
    (request : AppendRequest B) (supplied : Option Id16) (db : Db V) (bodies : List Bytes)
    (receipt : AppendReceipt)
    → validate_request request ≡ ok tt
    → require_branch (get request.branch db.branches) request.branch ≡ ok tt
    → serialize_all serialize request.events ≡ ok bodies
    → key_answer db request.branch request.idempotency_key
      ≡ some (request_fingerprint crc request bodies, receipt)
    → plan_append crc serialize env request supplied db ≡ ok (answer receipt)
unfolding plan_append
plan_append-keyed crc serialize env request supplied db bodies receipt h1 h2 h3 h4 =
    rw (h1, h2, h3, h4, ==_self (request_fingerprint crc request bodies)) refl

give_answer-same :
    {V : Type 0} (d : Durability) (receipt : AppendReceipt) (db : Db V) (now : Bool)
    → receipt.durability ≡ reached (is_sync d || now) d
    → give_answer d receipt db ≡ (db, receipt)
unfolding give_answer
give_answer-same sync receipt db now h = rw h refl
give_answer-same flush receipt db now h = refl
give_answer-same accepted receipt db now h = refl

module _ {B V : Type 0} (apply : Event B → V → V) (crc : Crc32c) (serialize : B → Result Bytes)
    (env again : Env) (request : AppendRequest B) (supplied supplied' : Option Id16) (db : Db V)
    (key : Bytes) (keyed : request.idempotency_key ≡ some key) where
  -- The key is in the catalog after the batch, with the digest of the request.
  key_answer-closed :
      (p : Prepared) (planned : Planned crc serialize env request supplied db p)
      (receipt : AppendReceipt) (now : Bool) (after : Db V)
      → key_answer (closed request p receipt now after) request.branch request.idempotency_key
        ≡ some (request_fingerprint crc request planned.bodies, receipt)
  key_answer-closed p planned receipt now after =
      let (log_is, branches_are, catalog_is) = closed-recorded request p receipt now after in
      ap (λ k. key_answer (closed request p receipt now after) request.branch k) keyed
      ∙ ap (λ c. idempotent request.branch key c)
          (catalog_is
            ∙ ap
                (λ o.
                  record_batch request.branch request.stream p.stream p.digests
                    (key_digest o p.digest) receipt after.catalog)
                keyed)
      ∙ record_batch-idempotent request.branch request.stream p.stream p.digests key p.digest
          receipt after.catalog
      ∙ ap (λ d. some (d, receipt)) planned.built.digest_same

  closed-again :
      (p : Prepared) (planned : Planned crc serialize env request supplied db p)
      (receipt : AppendReceipt) (due : Bool) (after : Db V)
      → after.branches ≡ db.branches
      → receipt.durability ≡ reached (is_sync request.durability || due) request.durability
      → append_batch_with_id apply crc serialize again request supplied'
          (closed request p receipt (is_sync request.durability || due) after)
        ≡ (closed request p receipt (is_sync request.durability || due) after, ok receipt)
  unfolding append_batch_with_id
  closed-again p planned receipt due after same h =
      let db' : Db V = closed request p receipt (is_sync request.durability || due) after in
      let (log_is, branches_are, catalog_is) =
        closed-recorded request p receipt (is_sync request.durability || due) after in
      ap (λ plan. finish apply crc again request db' plan)
        (plan_append-keyed crc serialize again request supplied' db' planned.bodies receipt
          planned.valid
          (ap (λ b. require_branch (get request.branch b) request.branch) (branches_are ∙ same)
            ∙ planned.open_branch)
          planned.serialized
          (key_answer-closed p planned receipt (is_sync request.durability || due) after))
      ∙ ap (λ done. (done.0, ok done.1)) (give_answer-same request.durability receipt db' due h)

  settle-again :
      (p : Prepared)
      → Planned crc serialize env request supplied db p
      → (positions : ℕ × ℕ) (log : Log)
      → append_batch_with_id apply crc serialize again request supplied'
          (settle apply env request p positions log db).0
        ≡ (
          (settle apply env request p positions log db).0,
          ok (settle apply env request p positions log db).1,
        )
  unfolding settle receipt_of appended
  settle-again p planned positions log =
      closed-again p planned _
        (should_commit db.policy (db.pending_bytes + total p.serialized)
          (db.pending_count + length request.events) env.elapsed)
        (appended apply env request p positions.0 log db) refl refl

  finish_write-again :
      (p : Prepared)
      → Planned crc serialize env request supplied db p
      → (w : Log × Result (ℕ × ℕ)) (db' : Db V) (r : AppendReceipt)
      → finish_write apply env request p db w ≡ (db', ok r)
      → append_batch_with_id apply crc serialize again request supplied' db' ≡ (db', ok r)
  finish_write-again p planned (log, err e) db' r eq = absurd (cc (ap (λ x. x.1) eq))
  finish_write-again p planned (log, ok positions) db' r eq =
      let done : Db V × AppendReceipt = settle apply env request p positions log db in
      let e1 : done.0 ≡ db' = ap (λ x. x.0) eq in
      let e2 : done.1 ≡ r = ok-injective (ap (λ x. x.1) eq) in
      ap (λ d. append_batch_with_id apply crc serialize again request supplied' d) (sym e1)
      ∙ settle-again p planned positions log
      ∙ ap (λ d. (d, ok done.1)) e1
      ∙ ap (λ k. (db', ok k)) e2

  finish-again :
      (plan : Result Plan) (db' : Db V) (r : AppendReceipt)
      → plan_append crc serialize env request supplied db ≡ plan
      → finish apply crc env request db plan ≡ (db', ok r)
      → head db.log < head db'.log
      → append_batch_with_id apply crc serialize again request supplied' db' ≡ (db', ok r)
  finish-again (err e) db' r h eq more = absurd (cc (ap (λ x. x.1) eq))
  finish-again (ok (answer receipt)) db' r h eq more =
      let same = (give_answer-Repeated request.durability receipt db).log_same in
      let there = ap (λ l. head l) (sym same ∙ ap (λ x. x.0.log) eq) in
      absurd (omega (arith, there, more))
  finish-again (ok (write p)) db' r h eq more =
      finish_write-again p (plan_append-Planned crc serialize env request supplied db p h)
        (append_events crc p.stored db.log) db' r eq

-- A request with a key whose call returned a receipt and moved the head is answered with the same receipt
-- when it is sent again, and the handle is left as it is, whatever the clock and the ids are by then.
pub append_batch_with_id-again :
    {B V : Type 0} (apply : Event B → V → V) (crc : Crc32c) (serialize : B → Result Bytes)
    (env again : Env) (request : AppendRequest B) (supplied supplied' : Option Id16) (db db' : Db V)
    (key : Bytes) (r : AppendReceipt)
    → request.idempotency_key ≡ some key
    → append_batch_with_id apply crc serialize env request supplied db ≡ (db', ok r)
    → head db.log < head db'.log
    → append_batch_with_id apply crc serialize again request supplied' db' ≡ (db', ok r)
unfolding append_batch_with_id
append_batch_with_id-again apply crc serialize env again request supplied supplied' db db' key r
      keyed h more =
    finish-again apply crc serialize env again request supplied supplied' db key keyed
      (plan_append crc serialize env request supplied db) db' r refl h more
