-- ===== src/Db/Recovery.antt =====
-- salamander/src/db.rs, salamander/src/stream.rs: the records of a batch, as the rebuild of the stream catalog reads them.
pub mod Rounds
pub mod Batch
pub mod Forget
pub mod Whole
pub mod Rebuilt
use salamander_db.Prelude.{ℕ, ◌+◌, ◌^◌, ◌<◌, ◌≡◌, refl, ap, ◌∙◌, false, Option, none, some, List}
use salamander_db.Bytes.{Bytes, to_le_bytes, from_le_bytes-to_le_bytes, codes}
use salamander_db.Errors.{ok}
use salamander_db.Format.Types.{Id16, Metadata, StoredRecord, event}
use salamander_db.Format.Metadata.{
  metadata_get, metadata_insert, metadata_get-insert_self, metadata_get-insert_ne,
}
use salamander_db.Format.Checksum.{Crc32c}
use salamander_db.Branch.Maps.{Map, map_get, map_insert, get-insert}
use salamander_db.Stream.{
  NewEvent, AppendRequest, AppendReceipt, IdempotencyEntry, StreamEntry, StreamCatalog, keep_key,
  extend_ids,
}
use salamander_db.Stream.Keys.{PairMap, pair_get, pair_insert}
use salamander_db.Stream.Rebuild.{
  stream_name, event_fingerprint, new_receipt, grown_receipt, grown_entry, conflicts,
  kept_idempotency, rebuild_event,
}
use salamander_db.Db.Plan.{Env, Prepared, event_metadata, event_envelope}
use salamander_db.Db.Append.{key_digest}

-- The user's metadata does not hold the key that the engine writes.
abbrev pub NoKey : Metadata → Type 0
NoKey m = metadata_get (codes "salamander.idempotency_key") m ≡ none

get-event_metadata :
    (stream : Bytes) (key : Option Bytes) (digest : ℕ) (m : Metadata)
    → metadata_get (codes "salamander.stream_name") (event_metadata stream key digest m)
      ≡ some stream
get-event_metadata stream none digest m =
    metadata_get-insert_self (codes "salamander.stream_name") stream m
get-event_metadata stream (some key) digest m =
    metadata_get-insert_ne (codes "salamander.request_digest") (codes "salamander.stream_name")
      (to_le_bytes 4 digest) _ refl
    ∙ metadata_get-insert_ne (codes "salamander.idempotency_key") (codes "salamander.stream_name")
        key _ refl
    ∙ metadata_get-insert_self (codes "salamander.stream_name") stream m

kept-event_metadata :
    (rec : StoredRecord) (receipt : AppendReceipt) (stream : Bytes) (key : Option Bytes)
    (digest : ℕ) (m : Metadata) (entries : PairMap IdempotencyEntry)
    → NoKey m
    → digest < 2 ^ 32
    → kept_idempotency rec receipt
        (metadata_get (codes "salamander.idempotency_key") (event_metadata stream key digest m))
        (metadata_get (codes "salamander.request_digest") (event_metadata stream key digest m))
        entries
      ≡ keep_key rec.envelope.branch_id (key_digest key digest) receipt entries
kept-event_metadata rec receipt stream none digest m entries h lt =
    ap
      (λ k.
        kept_idempotency rec receipt k
          (metadata_get (codes "salamander.request_digest") (event_metadata stream none digest m))
          entries)
      (metadata_get-insert_ne (codes "salamander.stream_name") (codes "salamander.idempotency_key")
          stream m refl
        ∙ h)
kept-event_metadata rec receipt stream (some key) digest m entries h lt =
    let idem : Option Bytes → Option Bytes → PairMap IdempotencyEntry =
      λ k d. kept_idempotency rec receipt k d entries in
    let digested : Option Bytes =
      metadata_get (codes "salamander.request_digest")
        (event_metadata stream (some key) digest m) in
    let with_name : Metadata = metadata_insert (codes "salamander.stream_name") stream m in
    ap (λ k. idem k digested)
      (metadata_get-insert_ne (codes "salamander.request_digest")
          (codes "salamander.idempotency_key") (to_le_bytes 4 digest)
          (metadata_insert (codes "salamander.idempotency_key") key with_name) refl
        ∙ metadata_get-insert_self (codes "salamander.idempotency_key") key with_name)
    ∙ ap (λ d. idem (some key) d)
        (metadata_get-insert_self (codes "salamander.request_digest") (to_le_bytes 4 digest)
          (metadata_insert (codes "salamander.idempotency_key") key with_name))
    ∙ ap
        (λ d.
          pair_insert rec.envelope.branch_id key (record { digest = d; receipt = receipt }) entries)
        (from_le_bytes-to_le_bytes 4 digest lt)

-- The catalog and the receipts of batches that a rebuild has, after a batch was recorded with a receipt.
abbrev pub recorded_state :
    {B : Type 0}
    → AppendRequest B
    → Prepared
    → List (Id16 × ℕ)
    → AppendReceipt
    → StreamCatalog
    → Map AppendReceipt
    → StreamCatalog × Map AppendReceipt
recorded_state request p digests receipt c batches = (
  record c {
    streams =
        pair_insert request.branch request.stream
          (record { id = p.stream; last_revision = receipt.current_revision }) c.streams;
    event_ids = extend_ids digests p.batch_id c.event_ids;
    idempotency =
        keep_key request.branch (key_digest request.idempotency_key p.digest) receipt c.idempotency;
  },
  map_insert p.batch_id receipt batches,
)

-- One round of the rebuild, where its checks pass.
rebuild_event-step :
    (crc : Crc32c) (rec : StoredRecord) (c : StreamCatalog) (batches : Map AppendReceipt)
    (name : Bytes) (entry : StreamEntry)
    → stream_name rec ≡ ok name
    → grown_entry rec (pair_get rec.envelope.branch_id name c.streams) ≡ ok entry
    → conflicts (event_fingerprint crc rec) (map_get rec.envelope.event_id c.event_ids) ≡ false
    → rebuild_event crc rec c batches
      ≡ ok (
        record c {
          streams = pair_insert rec.envelope.branch_id name entry c.streams;
          event_ids =
              map_insert rec.envelope.event_id
                (event_fingerprint crc rec, rec.envelope.batch_id)
                c.event_ids;
          idempotency =
              kept_idempotency rec
                (grown_receipt rec batches)
                (metadata_get (codes "salamander.idempotency_key") rec.envelope.metadata)
                (metadata_get (codes "salamander.request_digest") rec.envelope.metadata)
                c.idempotency;
        },
        map_insert rec.envelope.batch_id (grown_receipt rec batches) batches,
      )
unfolding rebuild_event
rebuild_event-step crc rec c batches name entry h1 h2 h3 = rw (h1, h2, h3) refl

grown_receipt_first :
    (rec : StoredRecord) (batches : Map AppendReceipt)
    → map_get rec.envelope.batch_id batches ≡ none
    → grown_receipt rec batches ≡ new_receipt rec
unfolding grown_receipt
grown_receipt_first rec batches h = rw h refl

grown_receipt_next :
    (rec : StoredRecord) (receipt : AppendReceipt) (batches : Map AppendReceipt)
    → grown_receipt rec (map_insert rec.envelope.batch_id receipt batches) ≡ record receipt {
      last_position = rec.position;
      current_revision = rec.envelope.stream_revision;
    }
unfolding grown_receipt
grown_receipt_next rec receipt batches = rw (get-insert rec.envelope.batch_id receipt batches) refl

-- The receipt after one more event.
abbrev pub longer : Prepared → AppendReceipt → ℕ → ℕ → AppendReceipt
longer p receipt index at = record receipt {
  last_position = at;
  current_revision = p.first_revision + index;
}

-- The record of an event of a batch.
abbrev pub record_of :
    {B : Type 0}
    → Env
    → AppendRequest B
    → Id16
    → Prepared
    → NewEvent B
    → Bytes
    → ℕ
    → ℕ
    → StoredRecord
record_of env request database p e body index at = record {
  kind = event;
  flags = 0;
  position = at;
  envelope = event_envelope env request database p e index;
  payload = body;
}
