-- ===== src/Stream/Rebuild.antt =====
-- salamander/src/stream.rs: `StreamCatalog::rebuild`, over the event records of the log.
use salamander_db.Prelude.{
  ℕ, zero, suc, Bool, false, not, Option, none, some, List, [], ◌∷◌, ◌++◌, ltb, ◌==◌, if◌then◌else◌,
  length,
}
use salamander_db.Bytes.{Bytes, to_le_bytes, from_le_bytes, bytes_eq, codes, starts_with, is_utf8}
use salamander_db.Errors.{Result, ok, err, fail_if, corrupt, event_id_conflict, ◌>>=◌, ◌>>◌}
use salamander_db.Format.Types.{Id16, Metadata, StoredRecord}
use salamander_db.Format.Metadata.{metadata_get}
use salamander_db.Format.Checksum.{Crc32c}
use salamander_db.Branch.Maps.{Map, map_get, map_insert}
use salamander_db.Stream.{StreamCatalog, StreamEntry, IdempotencyEntry, AppendReceipt, buffered}
use salamander_db.Stream.Keys.{PairMap, pair_get, pair_insert}

unfoldable pub stream_name : StoredRecord → Result Bytes
stream_name rec = elim (metadata_get (codes "salamander.stream_name") rec.envelope.metadata) [
  | none ↦ err (corrupt rec.position "event is missing stream name metadata")
  | some bytes ↦
      if is_utf8 bytes
      then ok bytes
      else err (corrupt rec.position "stream name metadata is not UTF-8")
]

abbrev own_metadata : Metadata → Bytes
own_metadata [] = []
own_metadata ((key, value) ∷ m) =
    if not (starts_with key (codes "salamander."))
    then key ++ (value ++ own_metadata m)
    else own_metadata m

unfoldable pub event_fingerprint : Crc32c → StoredRecord → ℕ
event_fingerprint crc rec = crc.crc32c (
    rec.envelope.event_type
    ++ (to_le_bytes 4 rec.envelope.schema_version
        ++ (own_metadata rec.envelope.metadata ++ rec.payload)))

-- `checked_sub(1)`
abbrev pub checked_pred : ℕ → Option ℕ
checked_pred zero = none
checked_pred (suc n) = some n

abbrev pub new_receipt : StoredRecord → AppendReceipt
new_receipt rec = record {
  batch_id = rec.envelope.batch_id;
  first_position = rec.position;
  last_position = rec.position;
  stream_id = rec.envelope.stream_id;
  previous_revision = checked_pred rec.envelope.stream_revision;
  current_revision = rec.envelope.stream_revision;
  durability = buffered;
}

abbrev pub or_insert {ℓ} : {A : Type ℓ} → A → Option A → A
or_insert d none = d
or_insert d (some x) = x

-- The receipt of the record's batch after the record.
unfoldable pub grown_receipt : StoredRecord → Map AppendReceipt → AppendReceipt
grown_receipt rec batches =
    record (or_insert (new_receipt rec) (map_get rec.envelope.batch_id batches)) {
      last_position = rec.position;
      current_revision = rec.envelope.stream_revision;
    }

unfoldable pub grown_entry : StoredRecord → Option StreamEntry → Result StreamEntry
grown_entry rec found =
    let entry : StreamEntry =
      or_insert
        (record { id = rec.envelope.stream_id; last_revision = rec.envelope.stream_revision })
        found in
    if not (bytes_eq entry.id rec.envelope.stream_id)
    then err (corrupt rec.position "stream name maps to multiple stream IDs")
    else if ltb entry.last_revision rec.envelope.stream_revision
    then ok (record entry { last_revision = rec.envelope.stream_revision })
    else ok entry

-- The event id was seen with another fingerprint.
abbrev pub conflicts : ℕ → Option (ℕ × Id16) → Bool
conflicts digest none = false
conflicts digest (some previous) = not (previous.0 == digest)

abbrev pub kept_idempotency :
    StoredRecord
    → AppendReceipt
    → Option Bytes
    → Option Bytes
    → PairMap IdempotencyEntry
    → PairMap IdempotencyEntry
kept_idempotency rec receipt (some key) (some digest_bytes) m =
    if length digest_bytes == 4
    then pair_insert rec.envelope.branch_id key
        (record { digest = from_le_bytes digest_bytes; receipt = receipt }) m
    else m
kept_idempotency rec receipt (some key) none m = m
kept_idempotency rec receipt none digest_bytes m = m

-- The body of the loop, on the catalog and the receipts of the batches so far.
unfoldable pub rebuild_event :
    Crc32c
    → StoredRecord
    → StreamCatalog
    → Map AppendReceipt
    → Result (StreamCatalog × Map AppendReceipt)
rebuild_event crc rec c batches = do
  name ← stream_name rec
  entry ← grown_entry rec (pair_get rec.envelope.branch_id name c.streams)
  fail_if (conflicts (event_fingerprint crc rec) (map_get rec.envelope.event_id c.event_ids))
      event_id_conflict
  let receipt = grown_receipt rec batches
  ok (
    record c {
      streams = pair_insert rec.envelope.branch_id name entry c.streams;
      event_ids =
          map_insert rec.envelope.event_id (event_fingerprint crc rec, rec.envelope.batch_id)
            c.event_ids;
      idempotency =
          kept_idempotency rec receipt
            (metadata_get (codes "salamander.idempotency_key") rec.envelope.metadata)
            (metadata_get (codes "salamander.request_digest") rec.envelope.metadata) c.idempotency;
    },
    map_insert rec.envelope.batch_id receipt batches,
  )

unfoldable pub rebuild_events :
    Crc32c → List (Result StoredRecord) → StreamCatalog → Map AppendReceipt → Result StreamCatalog
rebuild_events crc [] c batches = ok (record c { receipts = batches })
rebuild_events crc (item ∷ items) c batches = do
  rec ← item
  grown ← rebuild_event crc rec c batches
  rebuild_events crc items grown.0 grown.1

abbrev pub empty_catalog : StreamCatalog
empty_catalog = record { streams = []; event_ids = []; idempotency = []; receipts = [] }

unfoldable pub rebuild_streams : Crc32c → List (Result StoredRecord) → Result StreamCatalog
rebuild_streams crc items = rebuild_events crc items empty_catalog []
