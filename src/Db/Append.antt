-- ===== src/Db/Append.antt =====
-- salamander/src/db.rs: `append_batch_with_id`, its writes and its answers.
use salamander_db.Prelude.{
  ℕ, ◌+◌, ◌-◌, Bool, true, false, not, ◌&&◌, ◌||◌, Option, none, some, List, [], ◌∷◌, if◌then◌else◌,
  length,
}
use salamander_db.Bytes.{Bytes}
use salamander_db.Errors.{Result, ok, err}
use salamander_db.Format.Types.{Id16}
use salamander_db.Format.Checksum.{Crc32c}
use salamander_db.Commit.{should_commit}
use salamander_db.Log.Store.{Log, append_events}
use salamander_db.Stream.{
  NewEvent, AppendRequest, AppendReceipt, Durability, ReceiptDurability, accepted, flush, sync,
  buffered, flushed, synced, record_batch,
}
use salamander_db.Db.{Db, Event, commit, persist_core_catalog}
use salamander_db.Db.Plan.{Env, Prepared, Plan, answer, write, plan_append}

abbrev pub is_sync : Durability → Bool
is_sync sync = true
is_sync flush = false
is_sync accepted = false

abbrev pub is_synced : ReceiptDurability → Bool
is_synced synced = true
is_synced flushed = false
is_synced buffered = false

-- A receipt of an earlier append, brought up to the durability that is asked for.
unfoldable pub give_answer : {V : Type 0} → Durability → AppendReceipt → Db V → Db V × AppendReceipt
give_answer durability receipt db =
    if is_sync durability && not (is_synced receipt.durability)
    then (commit db, record receipt { durability = synced })
    else (db, receipt)

abbrev pub total : List Bytes → ℕ
total [] = 0
total (body ∷ bodies) = length body + total bodies

abbrev pub reached : Bool → Durability → ReceiptDurability
reached true durability = synced
reached false flush = flushed
reached false accepted = buffered
reached false sync = buffered

-- `digests`, the key and the receipt go into the catalog.
abbrev pub key_digest : Option Bytes → ℕ → Option (Bytes × ℕ)
key_digest none digest = none
key_digest (some key) digest = some (key, digest)

unfoldable pub recorded : {B V : Type 0} → AppendRequest B → Prepared → AppendReceipt → Db V → Db V
recorded request p receipt db = record db {
  catalog =
      record_batch request.branch request.stream p.stream p.digests
        (key_digest request.idempotency_key p.digest) receipt db.catalog;
}

unfoldable pub receipt_of : {B : Type 0} → AppendRequest B → Prepared → ℕ × ℕ → Bool → AppendReceipt
receipt_of request p (first, last) synced_now = record {
  batch_id = p.batch_id;
  first_position = first;
  last_position = last;
  stream_id = p.stream;
  previous_revision = p.previous;
  current_revision = p.first_revision + length request.events - 1;
  durability = reached synced_now request.durability;
}

abbrev pub run_steps {ℓ} : {A : Type ℓ} → List (A → A) → A → A
run_steps [] x = x
run_steps (step ∷ steps) x = run_steps steps (step x)

-- The end of an append, in order: the commit, if one is due, with its checkpoint; the batch goes into the
-- catalog; after a commit, the checkpoint is written again.
abbrev pub close_steps :
    {B V : Type 0} → AppendRequest B → Prepared → AppendReceipt → Bool → List (Db V → Db V)
close_steps request p receipt true =
    (λ db. commit db)
    ∷ (λ db. recorded request p receipt db)
    ∷ (λ db. persist_core_catalog db.durable_head db)
    ∷ []
close_steps request p receipt false = (λ db. recorded request p receipt db) ∷ []

abbrev pub closed : {B V : Type 0} → AppendRequest B → Prepared → AppendReceipt → Bool → Db V → Db V
closed request p receipt now after = run_steps (close_steps request p receipt now) after

abbrev pub due : {B V : Type 0} → Env → AppendRequest B → Db V → Bool
due env request after =
    is_sync request.durability
    || should_commit after.policy after.pending_bytes after.pending_count env.elapsed

module _ {B V : Type 0} (apply : Event B → V → V) where
  abbrev pub apply_views : Event B → List (Bytes × V) → List (Bytes × V)
  apply_views event_ [] = []
  apply_views event_ ((name, view) ∷ views) = (name, apply event_ view) ∷ apply_views event_ views

  -- The fan-out of the events from an offset on.
  unfoldable pub fan_out : ℕ → Bytes → ℕ → List (NewEvent B) → List (Bytes × V) → List (Bytes × V)
  fan_out timestamp_ms namespace offset [] views = views
  fan_out timestamp_ms namespace offset (e ∷ events) views =
      fan_out timestamp_ms namespace (offset + 1) events (
        apply_views
          (record {
            offset = offset;
            timestamp_ms = timestamp_ms;
            namespace = namespace;
            body = e.body;
          })
          views)

  -- The state after the log has taken the batch, before any commit.
  unfoldable pub appended : Env → AppendRequest B → Prepared → ℕ → Log → Db V → Db V
  appended env request p first log db = record db {
    log = log;
    views = fan_out env.timestamp_ms request.stream first request.events db.views;
    pending_bytes = db.pending_bytes + total p.serialized;
    pending_count = db.pending_count + length request.events;
  }

  -- From the fan-out to the receipt.
  unfoldable pub settle :
      Env → AppendRequest B → Prepared → ℕ × ℕ → Log → Db V → Db V × AppendReceipt
  settle env request p positions log db =
      let after : Db V = appended env request p positions.0 log db in
      let now : Bool = due env request after in
      let receipt : AppendReceipt = receipt_of request p positions now in
      (closed request p receipt now after, receipt)

  abbrev pub finish_write :
      Env → AppendRequest B → Prepared → Db V → Log × Result (ℕ × ℕ) → Db V × Result AppendReceipt
  finish_write env request p db (log, err e) = (record db { log = log }, err e)
  finish_write env request p db (log, ok positions) =
      let done : Db V × AppendReceipt = settle env request p positions log db in (done.0, ok done.1)

  abbrev pub finish :
      Crc32c → Env → AppendRequest B → Db V → Result Plan → Db V × Result AppendReceipt
  finish crc env request db (err e) = (db, err e)
  finish crc env request db (ok (answer receipt)) =
      let done : Db V × AppendReceipt = give_answer request.durability receipt db in
      (done.0, ok done.1)
  finish crc env request db (ok (write p)) =
      finish_write env request p db (append_events crc p.stored db.log)

  unfoldable pub append_batch_with_id :
      Crc32c
      → (B → Result Bytes)
      → Env
      → AppendRequest B
      → Option Id16
      → Db V
      → Db V × Result AppendReceipt
  append_batch_with_id crc serialize env request supplied db =
      finish crc env request db (plan_append crc serialize env request supplied db)
