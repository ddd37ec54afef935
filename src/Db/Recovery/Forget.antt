-- ===== src/Db/Recovery/Forget.antt =====
-- salamander/src/stream.rs: catalogs up to the durability that their receipts state, which the log does not hold.
use salamander_db.Prelude.{ℕ, ◌≡◌, refl, sym, ap, ◌∙◌, Option, none, some, List, [], ◌∷◌, ◌++◌}
use salamander_db.Bytes.{Bytes}
use salamander_db.Errors.{Result, ok, fail_if, event_id_conflict, bind-eq-ok, ok-injective}
use salamander_db.Format.Types.{Id16, StoredRecord}
use salamander_db.Format.Checksum.{Crc32c}
use salamander_db.Branch.Maps.{Map, map_get}
use salamander_db.Stream.{
  AppendReceipt, StreamCatalog, IdempotencyEntry, buffered, keep_key, record_batch, batch_receipt,
  map_some,
}
use salamander_db.Stream.Keys.{PairMap, pair_get}
use salamander_db.Stream.Rebuild.{
  stream_name, grown_entry, conflicts, event_fingerprint, rebuild_event, rebuild_events,
  rebuild_streams, empty_catalog,
}
use salamander_db.Stream.Overwrite.{
  map_values, pair_values, map_values-map_insert, pair_values-pair_insert, map_get-map_values,
}

abbrev pub forget_receipt : AppendReceipt → AppendReceipt
forget_receipt r = record r { durability = buffered }

abbrev pub forget_entry : IdempotencyEntry → IdempotencyEntry
forget_entry e = record e { receipt = forget_receipt e.receipt }

-- The catalog with every receipt as a buffered one.
abbrev pub forget : StreamCatalog → StreamCatalog
forget c = record c {
  idempotency = pair_values forget_entry c.idempotency;
  receipts = map_values forget_receipt c.receipts;
}

forget_keep_key :
    (branch : Id16) (key : Option (Bytes × ℕ)) (receipt : AppendReceipt)
    (m : PairMap IdempotencyEntry)
    → pair_values forget_entry (keep_key branch key receipt m)
      ≡ keep_key branch key (forget_receipt receipt) (pair_values forget_entry m)
forget_keep_key branch none receipt m = refl
forget_keep_key branch (some (key, digest)) receipt m =
    pair_values-pair_insert forget_entry branch key _ m

pub forget-record_batch :
    (branch : Id16) (stream : Bytes) (id : Id16) (ds : List (Id16 × ℕ)) (key : Option (Bytes × ℕ))
    (receipt : AppendReceipt) (c : StreamCatalog)
    → forget (record_batch branch stream id ds key receipt c)
      ≡ record_batch branch stream id ds key (forget_receipt receipt) (forget c)
unfolding record_batch
forget-record_batch branch stream id ds key receipt c =
    rw
      (
        forget_keep_key branch key receipt c.idempotency,
        map_values-map_insert forget_receipt receipt.batch_id receipt c.receipts,
      )
      refl

-- A batch id that one of two catalogs alike does not know is unknown to the other.
pub batch_receipt-forget :
    (batch : Id16) (c d : StreamCatalog)
    → forget c ≡ forget d
    → batch_receipt batch d ≡ none
    → map_get batch c.receipts ≡ none
unfolding batch_receipt
batch_receipt-forget batch c d e h = map_some_none (map_get batch c.receipts) (
    sym (map_get-map_values forget_receipt batch c.receipts)
    ∙ ap (λ k. map_get batch k.receipts) e
    ∙ map_get-map_values forget_receipt batch d.receipts
    ∙ ap (λ o. map_some forget_receipt o) h)
  where
    map_some_none : (o : Option AppendReceipt) → map_some forget_receipt o ≡ none → o ≡ none
    map_some_none none g = refl
    map_some_none (some x) g = absurd (cc g)

rebuild_event-receipts :
    (crc : Crc32c) (rec : StoredRecord) (c : StreamCatalog) (batches : Map AppendReceipt)
    (g : StreamCatalog × Map AppendReceipt)
    → rebuild_event crc rec c batches ≡ ok g
    → g.0.receipts ≡ c.receipts
unfolding rebuild_event
rebuild_event-receipts crc rec c batches g h =
    let (name, e1, h1) = bind-eq-ok (stream_name rec) _ h in
    let (entry, e2, h2) =
      bind-eq-ok (grown_entry rec (pair_get rec.envelope.branch_id name c.streams)) _ h1 in
    let (u, e3, h3) =
      bind-eq-ok
        (fail_if (conflicts (event_fingerprint crc rec) (map_get rec.envelope.event_id c.event_ids))
          event_id_conflict)
        _ h2 in
    ap (λ k. k.0.receipts) (sym (ok-injective h3))

rebuild_events-append :
    (crc : Crc32c) (items more : List (Result StoredRecord)) (c k : StreamCatalog)
    (batches : Map AppendReceipt)
    → rebuild_events crc items c batches ≡ ok k
    → rebuild_events crc (items ++ more) c batches
      ≡ rebuild_events crc more (record k { receipts = c.receipts }) k.receipts
unfolding rebuild_events
rebuild_events-append crc [] more c k batches h =
    ap (λ s. rebuild_events crc more (record s { receipts = c.receipts }) s.receipts)
      (ok-injective h)
rebuild_events-append crc (item ∷ items) more c k batches h =
    let (rec, e1, h1) = bind-eq-ok item _ h in
    let (g, e2, h2) = bind-eq-ok (rebuild_event crc rec c batches) _ h1 in
    rw
      (
        e1,
        e2,
        rebuild_events-append crc items more g.0 k g.1 h2,
        rebuild_event-receipts crc rec c batches g e2,
      )
      refl

pub rebuild_streams-append :
    (crc : Crc32c) (items more : List (Result StoredRecord)) (k : StreamCatalog)
    → rebuild_streams crc items ≡ ok k
    → rebuild_streams crc (items ++ more)
      ≡ rebuild_events crc more (record k { receipts = [] }) k.receipts
unfolding rebuild_streams
rebuild_streams-append crc items more k h =
    rebuild_events-append crc items more empty_catalog k [] h
