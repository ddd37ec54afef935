-- ===== src/Stream/Receipts.antt =====
-- salamander/src/stream.rs: every event id that the catalog knows has the receipt of its batch.
use salamander_db.Prelude.{
  ℕ, ◌≡◌, refl, sym, ap, ◌∙◌, inl, inr, Option, some, List, [], ◌∷◌, Bool-cases, Option-cases,
}
use salamander_db.Bytes.{Bytes, bytes_eq, bytes_eq→eq}
use salamander_db.Errors.{Result, ok, fail_if, event_id_conflict, bind-eq-ok, ok-injective}
use salamander_db.Format.Types.{Id16, StoredRecord}
use salamander_db.Format.Checksum.{Crc32c}
use salamander_db.Branch.Maps.{Map, map_get, map_insert, get-insert, get-insert_other}
use salamander_db.Stream.{
  StreamCatalog, AppendReceipt, revision, stream_id, batch_receipt, event_receipt, idempotent,
  extend_ids, record_batch,
}
use salamander_db.Stream.Keys.{pair_get, pair_get-pair_insert}
use salamander_db.Stream.Rebuild.{
  grown_receipt, grown_entry, conflicts, stream_name, event_fingerprint, rebuild_event,
  rebuild_events, rebuild_streams, empty_catalog,
}
use mathlib.Core.Path.{subst}

-- Event ids lead to receipts, and receipts stand under their batch.
pub record HasReceipts (event_ids : Map (ℕ × Id16)) (receipts : Map AppendReceipt) : Type 0 where
  pub leads :
      (id batch : Id16) (digest : ℕ)
      → map_get id event_ids ≡ some (digest, batch)
      → (r : AppendReceipt) × (map_get batch receipts ≡ some r)
  pub named :
      (batch : Id16) (r : AppendReceipt) → map_get batch receipts ≡ some r → r.batch_id ≡ batch

insert_receipt :
    (event_ids : Map (ℕ × Id16)) (receipts : Map AppendReceipt) (r : AppendReceipt)
    → HasReceipts event_ids receipts
    → HasReceipts event_ids (map_insert r.batch_id r receipts)
insert_receipt event_ids receipts r v = record {
  leads = λ id batch digest e. elim (Bool-cases (bytes_eq batch r.batch_id)) [
    | inl t ↦ (r, rw (bytes_eq→eq batch r.batch_id t) (get-insert r.batch_id r receipts))
    | inr f ↦
        let (r', e') = v.leads id batch digest e in
        (r', get-insert_other r.batch_id batch r receipts f ∙ e')
  ];
  named = λ batch r' e. elim (Bool-cases (bytes_eq batch r.batch_id)) [
    | inl t ↦
        let same = bytes_eq→eq batch r.batch_id t in
        let it : r ≡ r' = cc (get-insert r.batch_id r receipts, same, e) in
        ap (λ x. x.batch_id) (sym it) ∙ sym same
    | inr f ↦ v.named batch r' (sym (get-insert_other r.batch_id batch r receipts f) ∙ e)
  ];
}

insert_id :
    (event_ids : Map (ℕ × Id16)) (receipts : Map AppendReceipt) (id batch : Id16) (digest : ℕ)
    (r : AppendReceipt)
    → map_get batch receipts ≡ some r
    → HasReceipts event_ids receipts
    → HasReceipts (map_insert id (digest, batch) event_ids) receipts
insert_id event_ids receipts id batch digest r there v = record {
  leads = λ id' batch' digest' e. elim (Bool-cases (bytes_eq id' id)) [
    | inl t ↦
        let same : batch ≡ batch' =
          cc (get-insert id (digest, batch) event_ids, bytes_eq→eq id' id t, e) in
        (r, rw (sym same) there)
    | inr f ↦
        v.leads id' batch' digest' (sym (get-insert_other id id' (digest, batch) event_ids f) ∙ e)
  ];
  named = v.named;
}

extend_ids-HasReceipts :
    (events : List (Id16 × ℕ)) (event_ids : Map (ℕ × Id16)) (receipts : Map AppendReceipt)
    (batch : Id16) (r : AppendReceipt)
    → map_get batch receipts ≡ some r
    → HasReceipts event_ids receipts
    → HasReceipts (extend_ids events batch event_ids) receipts
unfolding extend_ids
extend_ids-HasReceipts [] event_ids receipts batch r there v = v
extend_ids-HasReceipts ((id, digest) ∷ events) event_ids receipts batch r there v =
    extend_ids-HasReceipts events (map_insert id (digest, batch) event_ids) receipts batch r there
      (insert_id event_ids receipts id batch digest r there v)

-- Recording a batch keeps every event id with a receipt. After it, the catalog reports the batch: its
-- stream has the receipt's revision and the given id, its batch id the receipt, and its
-- idempotency key, if it has one, the digest and the receipt.
pub record_batch_lem :
    (branch stream id : Bytes) (events : List (Id16 × ℕ)) (key : Option (Bytes × ℕ))
    (r : AppendReceipt) (c : StreamCatalog)
    → HasReceipts c.event_ids c.receipts
    → HasReceipts
        (record_batch branch stream id events key r c).event_ids
        (record_batch branch stream id events key r c).receipts
      × (revision branch stream (record_batch branch stream id events key r c)
          ≡ some r.current_revision)
      × (stream_id branch stream (record_batch branch stream id events key r c) ≡ some id)
      × (batch_receipt r.batch_id (record_batch branch stream id events key r c) ≡ some r)
      × ((k : Bytes) (digest : ℕ)
          → key ≡ some (k, digest)
          → idempotent branch k (record_batch branch stream id events key r c) ≡ some (digest, r))
unfolding record_batch revision stream_id batch_receipt idempotent
record_batch_lem branch stream id events key r c v = (
  extend_ids-HasReceipts events c.event_ids (map_insert r.batch_id r c.receipts) r.batch_id r
      (get-insert r.batch_id r c.receipts) (insert_receipt c.event_ids c.receipts r v),
  rw
      (pair_get-pair_insert branch stream (record { id = id; last_revision = r.current_revision })
        c.streams)
      refl,
  rw
      (pair_get-pair_insert branch stream (record { id = id; last_revision = r.current_revision })
        c.streams)
      refl,
  get-insert r.batch_id r c.receipts,
  λ k digest e.
      rw (e, pair_get-pair_insert branch k (record { digest = digest; receipt = r }) c.idempotency)
        refl,
)

grown_receipt-batch :
    (rec : StoredRecord) (event_ids : Map (ℕ × Id16)) (batches : Map AppendReceipt)
    → HasReceipts event_ids batches
    → (grown_receipt rec batches).batch_id ≡ rec.envelope.batch_id
unfolding grown_receipt
grown_receipt-batch rec event_ids batches v =
    elim (Option-cases (map_get rec.envelope.batch_id batches)) [
      | inl n ↦ rw n refl
      | inr (r, e) ↦ rw e (v.named rec.envelope.batch_id r e)
    ]

rebuild_event-HasReceipts :
    (crc : Crc32c) (rec : StoredRecord) (c c' : StreamCatalog)
    (batches batches' : Map AppendReceipt)
    → HasReceipts c.event_ids batches
    → rebuild_event crc rec c batches ≡ ok (c', batches')
    → HasReceipts c'.event_ids batches'
unfolding rebuild_event
rebuild_event-HasReceipts crc rec c c' batches batches' v h =
    let (name, e1, h1) = bind-eq-ok (stream_name rec) _ h in
    let (entry, e2, h2) =
      bind-eq-ok (grown_entry rec (pair_get rec.envelope.branch_id name c.streams)) _ h1 in
    let (u, e3, h3) =
      bind-eq-ok
        (fail_if (conflicts (event_fingerprint crc rec) (map_get rec.envelope.event_id c.event_ids))
          event_id_conflict)
        _ h2 in
    let made = ok-injective h3 in
    let receipt = grown_receipt rec batches in
    let same = grown_receipt-batch rec c.event_ids batches v in
    let grown : HasReceipts c.event_ids (map_insert rec.envelope.batch_id receipt batches) =
      subst (λ b. HasReceipts c.event_ids (map_insert b receipt batches)) same
        (insert_receipt c.event_ids batches receipt v) in
    subst (λ p. HasReceipts p.0.event_ids p.1) made
      (insert_id c.event_ids (map_insert rec.envelope.batch_id receipt batches)
        rec.envelope.event_id rec.envelope.batch_id (event_fingerprint crc rec) receipt
        (get-insert rec.envelope.batch_id receipt batches) grown)

rebuild_events-HasReceipts :
    (crc : Crc32c) (items : List (Result StoredRecord)) (c c' : StreamCatalog)
    (batches : Map AppendReceipt)
    → HasReceipts c.event_ids batches
    → rebuild_events crc items c batches ≡ ok c'
    → HasReceipts c'.event_ids c'.receipts
unfolding rebuild_events
rebuild_events-HasReceipts crc [] c c' batches v h =
    subst (λ x. HasReceipts x.event_ids x.receipts) (ok-injective h) v
rebuild_events-HasReceipts crc (item ∷ items) c c' batches v h =
    let (rec, e, h1) = bind-eq-ok item _ h in
    let (grown, e', h2) = bind-eq-ok (rebuild_event crc rec c batches) _ h1 in
    rebuild_events-HasReceipts crc items grown.0 c' grown.1
      (rebuild_event-HasReceipts crc rec c grown.0 batches grown.1 v e') h2

pub empty-HasReceipts : HasReceipts [] []
unfolding map_get
empty-HasReceipts = record { leads = λ i b d x. absurd (cc x); named = λ b r x. absurd (cc x) }

-- Whatever records the log holds, a rebuild that succeeds gives a catalog in which each known event
-- id has the receipt of its batch.
pub event_receipt-rebuild_streams :
    (crc : Crc32c) (items : List (Result StoredRecord)) (c : StreamCatalog) (id batch : Id16)
    (digest : ℕ)
    → rebuild_streams crc items ≡ ok c
    → map_get id c.event_ids ≡ some (digest, batch)
    → (r : AppendReceipt) × (event_receipt id c ≡ some (digest, r)) × (r.batch_id ≡ batch)
unfolding rebuild_streams event_receipt
event_receipt-rebuild_streams crc items c id batch digest h e =
    let v = rebuild_events-HasReceipts crc items empty_catalog c [] empty-HasReceipts h in
    let (r, e') = v.leads id batch digest e in
    (r, rw (e, e', event_receipt) refl, v.named batch r e')
