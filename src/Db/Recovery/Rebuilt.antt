-- ===== src/Db/Recovery/Rebuilt.antt =====
-- salamander/src/db.rs, salamander/src/stream.rs: the catalog that the handle keeps is the one that the log gives.
use salamander_db.Prelude.{
  ℕ, ◌+◌, ◌-◌, ◌<◌, ◌≡◌, refl, sym, ap, ◌∙◌, Bool, true, ◌||◌, Option, none, List, [], ◌++◌, arith,
  length, All,
}
use salamander_db.Bytes.{Bytes, is_utf8}
use salamander_db.Errors.{Result, ok, err, ok-injective}
use mathlib.Core.Path.{subst}
use salamander_db.Format.Types.{Id16, RecordEnvelopeV2, StoredRecord}
use salamander_db.Format.Checksum.{Crc32c}
use salamander_db.Commit.{should_commit}
use salamander_db.Log.Segment.Batch.{batch_records}
use salamander_db.Log.Segment.Appends.{event_records, event_batch}
use salamander_db.Log.Store.{Log, head, append_events}
use salamander_db.Stream.{
  AppendRequest, AppendReceipt, StreamCatalog, record_batch, batch_receipt, buffered,
}
use salamander_db.Stream.Rebuild.{rebuild_events, rebuild_streams}
use salamander_db.Db.{Db, Event}
use salamander_db.Db.Digest.{request_fingerprint}
use salamander_db.Db.Plan.{Env, Prepared, Plan, answer, write, plan_append, start}
use salamander_db.Db.Append.{
  append_batch_with_id, finish, finish_write, settle, appended, receipt_of, key_digest, is_sync,
  total,
}
use salamander_db.Db.Planned.{Planned, plan_append-Planned}
use salamander_db.Db.Outcome.{
  length-stored, validate_request-some, closed-recorded, give_answer-Repeated,
}
use salamander_db.Db.Took.{Took, taken, append_events-Took}
use salamander_db.Db.Recovery.{NoKey}
use salamander_db.Db.Recovery.Batch.{records_of}
use salamander_db.Db.Recovery.Forget.{
  forget, forget_receipt, forget-record_batch, batch_receipt-forget, rebuild_streams-append,
}
use salamander_db.Db.Recovery.Whole.{
  all_ok, records_of-stored_events, rebuild_events-batch, rebuilt_receipt,
  checked_pred-next_revision,
}

-- The log has taken events, and the rebuild over the records before and after them gives the catalog of the
-- handle, up to the durability that the receipts state.
pub record Recovered {V : Type 0} (crc : Crc32c) (older : List (Result StoredRecord))
    (db db' : Db V) (r : AppendReceipt) : Type 0 where
  pub stored : List (RecordEnvelopeV2 × Bytes)
  pub written : append_events crc stored db.log ≡ (db'.log, ok (r.first_position, r.last_position))
  pub catalog : StreamCatalog
  pub rebuilt :
      rebuild_streams crc (older ++ all_ok (event_records (head db.log) (event_batch stored)))
      ≡ ok catalog
  pub alike : forget catalog ≡ forget db'.catalog

module _ {B V : Type 0} (crc : Crc32c) (serialize : B → Result Bytes) (env : Env)
    (request : AppendRequest B) (supplied : Option Id16) (db : Db V) (p : Prepared)
    (planned : Planned crc serialize env request supplied db p)
    (utf8 : is_utf8 request.stream ≡ true) (nokey : All (λ e. NoKey e.metadata) request.events)
    (older : List (Result StoredRecord)) (k : StreamCatalog)
    (read : rebuild_streams crc older ≡ ok k) (alike : forget k ≡ forget db.catalog) where
  abbrev first_state : Prepared
  first_state =
      start env request supplied db planned.bodies (request_fingerprint crc request planned.bodies)

  abbrev rebuilt_catalog : StreamCatalog
  rebuilt_catalog =
      record_batch request.branch request.stream first_state.stream p.digests
        (key_digest request.idempotency_key (request_fingerprint crc request planned.bodies))
        (rebuilt_receipt first_state (head db.log) (length request.events)) k

  rebuild_streams-batch :
      rebuild_streams crc (older ++ all_ok (event_records (head db.log) (event_batch p.stored)))
      ≡ ok rebuilt_catalog
  unfolding request_fingerprint
  rebuild_streams-batch =
      rebuild_streams-append crc older (all_ok (batch_records (head db.log) 0 p.stored)) k read
      ∙ ap
          (λ st.
            rebuild_events crc (all_ok (batch_records (head db.log) 0 st))
              (record k { receipts = [] }) k.receipts)
          planned.built.stored_more
      ∙ ap (λ items. rebuild_events crc items (record k { receipts = [] }) k.receipts)
          (sym (
              records_of-stored_events env request db.log.manifest.database_id first_state
                request.events planned.bodies 0 (head db.log))
            ∙ ap
                (λ at.
                  records_of env request db.log.manifest.database_id first_state request.events
                    planned.bodies 0 at)
                (zero_more (head db.log)))
      ∙ rebuild_events-batch crc env request supplied db planned.bodies
          (request_fingerprint crc request planned.bodies) utf8 (crc.crc32c-lt _) k alike
          request.events planned.bodies (head db.log) p planned.as_many
          (validate_request-some request planned.valid) planned.made nokey
          (batch_receipt-forget first_state.batch_id k db.catalog alike (
            subst (λ b. batch_receipt b db.catalog ≡ none) planned.built.batch_same
              planned.new_batch))
    where
      zero_more : (n : ℕ) → n + 0 ≡ n
      zero_more n = omega arith

  receipt-alike :
      (first last : ℕ) (now : Bool)
      → first ≡ head db.log
      → last ≡ head db.log + length request.events - 1
      → forget_receipt (receipt_of request p (first, last) now)
        ≡ rebuilt_receipt first_state (head db.log) (length request.events)
  unfolding receipt_of
  receipt-alike first last now h1 h2 = λ i. record {
    batch_id = planned.built.batch_same i;
    first_position = h1 i;
    last_position = h2 i;
    stream_id = planned.built.stream_same i;
    previous_revision =
        (planned.built.previous_same ∙ sym (checked_pred-next_revision first_state.previous)) i;
    current_revision = planned.built.first_same i + length request.events - 1;
    durability = buffered;
  }

  settle-Recovered :
      (apply : Event B → V → V) (log : Log) (first last : ℕ)
      → append_events crc p.stored db.log ≡ (log, ok (first, last))
      → first ≡ head db.log
      → last ≡ head db.log + length request.events - 1
      → Recovered crc older db
          (settle apply env request p (first, last) log db).0
          (settle apply env request p (first, last) log db).1
  unfolding settle appended receipt_of
  settle-Recovered apply log first last w h1 h2 =
      let now : Bool =
        is_sync request.durability
        || should_commit db.policy (db.pending_bytes + total p.serialized)
            (db.pending_count + length request.events) env.elapsed in
      let after : Db V = appended apply env request p first log db in
      let receipt : AppendReceipt = receipt_of request p (first, last) now in
      let (log_is, branches_are, catalog_is) = closed-recorded request p receipt now after in
      let stream_back : first_state.stream ≡ p.stream = sym planned.built.stream_same in
      let digest_back : request_fingerprint crc request planned.bodies ≡ p.digest =
        sym planned.built.digest_same in
      let receipt_back = sym (receipt-alike first last now h1 h2) in
      record {
        stored = p.stored;
        written = w ∙ ap (λ l. (l, ok (first, last))) (sym log_is);
        catalog = rebuilt_catalog;
        rebuilt = rebuild_streams-batch;
        alike =
            forget-record_batch request.branch request.stream first_state.stream p.digests
              (key_digest request.idempotency_key (request_fingerprint crc request planned.bodies))
              (rebuilt_receipt first_state (head db.log) (length request.events)) k
            ∙ (λ i.
                record_batch request.branch request.stream (stream_back i) p.digests
                  (key_digest request.idempotency_key (digest_back i)) (receipt_back i) (alike i))
            ∙ sym (
                forget-record_batch request.branch request.stream p.stream p.digests
                  (key_digest request.idempotency_key p.digest) receipt db.catalog)
            ∙ ap (λ c. forget c) (sym catalog_is);
      }

module _ {B V : Type 0} (crc : Crc32c) (serialize : B → Result Bytes) (apply : Event B → V → V)
    (env : Env) (request : AppendRequest B) (supplied : Option Id16) (db db' : Db V)
    (r : AppendReceipt) (older : List (Result StoredRecord)) (k : StreamCatalog) where
  finish_write-Recovered :
      (p : Prepared)
      → Planned crc serialize env request supplied db p
      → is_utf8 request.stream ≡ true
      → All (λ e. NoKey e.metadata) request.events
      → rebuild_streams crc older ≡ ok k
      → forget k ≡ forget db.catalog
      → (w : Log × Result (ℕ × ℕ)) → append_events crc p.stored db.log ≡ w
      → Took db.log (length p.stored) w
      → finish_write apply env request p db w ≡ (db', ok r)
      → Recovered crc older db db' r
  finish_write-Recovered p planned utf8 nokey read alike (log, err e) h t eq =
      absurd (cc (ap (λ x. x.1) eq))
  finish_write-Recovered p planned utf8 nokey read alike (log, ok (first, last)) h (taken h1 h2 h3)
        eq =
      let done : Db V × AppendReceipt = settle apply env request p (first, last) log db in
      let as_many = length-stored crc serialize env request supplied db p planned in
      subst (λ d. Recovered crc older db d.0 d.1)
        (pair (ap (λ x. x.0) eq) (ok-injective (ap (λ x. x.1) eq)))
        (settle-Recovered crc serialize env request supplied db p planned utf8 nokey older k read
          alike apply log first last h h1 (omega (arith, h2, h3, as_many)))
    where
      pair : {d : Db V × AppendReceipt} → d.0 ≡ db' → d.1 ≡ r → d ≡ (db', r)
      pair e1 e2 = λ i. (e1 i, e2 i)

  finish-Recovered :
      (plan : Result Plan)
      → plan_append crc serialize env request supplied db ≡ plan
      → is_utf8 request.stream ≡ true
      → All (λ e. NoKey e.metadata) request.events
      → rebuild_streams crc older ≡ ok k
      → forget k ≡ forget db.catalog
      → finish apply crc env request db plan ≡ (db', ok r)
      → head db.log < head db'.log
      → Recovered crc older db db' r
  finish-Recovered (err e) h utf8 nokey read alike eq more = absurd (cc (ap (λ x. x.1) eq))
  finish-Recovered (ok (answer receipt)) h utf8 nokey read alike eq more =
      let same = (give_answer-Repeated request.durability receipt db).log_same in
      let there = ap (λ l. head l) (sym same ∙ ap (λ x. x.0.log) eq) in
      absurd (omega (arith, there, more))
  finish-Recovered (ok (write p)) h utf8 nokey read alike eq more =
      finish_write-Recovered p (plan_append-Planned crc serialize env request supplied db p h) utf8
        nokey read alike (append_events crc p.stored db.log) refl
        (append_events-Took crc p.stored db.log) eq

  -- A call that returned a receipt and moved the head has given the log events, and the rebuild of the stream
  -- catalog over the older records and these gives the catalog of the handle, up to the durability that the
  -- receipts state. Before the call the rebuild of the older records gave the catalog of the handle in that
  -- sense; the stream name is UTF-8, and no event's own metadata holds the key of an idempotent append.
  pub append_batch_with_id-Recovered :
      is_utf8 request.stream ≡ true
      → All (λ e. NoKey e.metadata) request.events
      → rebuild_streams crc older ≡ ok k
      → forget k ≡ forget db.catalog
      → append_batch_with_id apply crc serialize env request supplied db ≡ (db', ok r)
      → head db.log < head db'.log
      → Recovered crc older db db' r
  unfolding append_batch_with_id
  append_batch_with_id-Recovered utf8 nokey read alike eq more =
      finish-Recovered (plan_append crc serialize env request supplied db) refl utf8 nokey read
        alike eq more
