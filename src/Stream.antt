-- ===== src/Stream.antt =====
-- salamander/src/stream.rs: names, keys and requests, receipts, and the catalog of streams, event ids,
-- idempotency keys and receipts. The hash maps are association lists.
pub mod Overwrite
pub mod Keys
pub mod Rebuild
pub mod Receipts
mod Runs
use salamander_db.Prelude.{ℕ, not, Option, none, some, List, [], ◌∷◌, ltb, ◌==◌, length}
use salamander_db.Bytes.{Bytes, is_empty, contains_nul}
use salamander_db.Errors.{Result, ok, fail_if, invalid_argument, resource_limit, ◌>>=◌, ◌>>◌}
use salamander_db.Format.Types.{Id16, Metadata}
use salamander_db.Branch.Maps.{Map, map_get, map_insert}
use Keys.{PairMap, pair_get, pair_insert}

abbrev max_stream_name_bytes : ℕ
max_stream_name_bytes = 1024

abbrev max_key_bytes : ℕ
max_key_bytes = 1024

abbrev max_events : ℕ
max_events = 4096

-- A `StreamName` is the bytes that this constructor accepts.
unfoldable pub stream_name_new : Bytes → Result Bytes
stream_name_new value = do
  fail_if (is_empty value) (invalid_argument "stream name must not be empty")
  fail_if (ltb max_stream_name_bytes (length value))
      (resource_limit "stream name bytes" (length value) max_stream_name_bytes)
  fail_if (contains_nul value) (invalid_argument "stream name must not contain NUL")
  ok value

pub data ExpectedRevision : Type 0 where
  any no_stream : ExpectedRevision
  exact : ℕ → ExpectedRevision

-- An `IdempotencyKey` is the bytes that this constructor accepts.
unfoldable pub idempotency_key_new : Bytes → Result Bytes
idempotency_key_new value = do
  fail_if (is_empty value) (invalid_argument "idempotency key must not be empty")
  fail_if (ltb max_key_bytes (length value))
      (resource_limit "idempotency key bytes" (length value) max_key_bytes)
  ok value

-- `Buffered` is `accepted` here.
pub data Durability : Type 0 where
  accepted flush sync : Durability

pub data ReceiptDurability : Type 0 where
  buffered flushed synced : ReceiptDurability

pub record NewEvent (B : Type 0) : Type 0 where
  pub event_id : Option Id16
  pub event_type : Bytes
  pub schema_version : ℕ
  pub metadata : Metadata
  pub body : B

pub record AppendRequest (B : Type 0) : Type 0 where
  pub branch : Id16
  pub stream : Bytes
  pub expected : ExpectedRevision
  pub idempotency_key : Option Bytes
  pub events : List (NewEvent B)
  pub durability : Durability

-- `AppendRequest::validate`
unfoldable pub validate_request : {B : Type 0} → AppendRequest B → Result (Unit {0})
validate_request request = do
  fail_if (length request.events == 0)
      (invalid_argument "append batch must contain at least one event")
  fail_if (ltb max_events (length request.events))
      (resource_limit "batch event count" (length request.events) max_events)
  ok tt

pub record AppendReceipt : Type 0 where
  pub batch_id : Id16
  pub first_position : ℕ
  pub last_position : ℕ
  pub stream_id : Id16
  pub previous_revision : Option ℕ
  pub current_revision : ℕ
  pub durability : ReceiptDurability

pub record StreamEntry : Type 0 where
  pub id : Id16
  pub last_revision : ℕ

pub record IdempotencyEntry : Type 0 where
  pub digest : ℕ
  pub receipt : AppendReceipt

pub record StreamCatalog : Type 0 where
  pub streams : PairMap StreamEntry
  pub event_ids : Map (ℕ × Id16)
  pub idempotency : PairMap IdempotencyEntry
  pub receipts : Map AppendReceipt

abbrev pub map_some {ℓ κ} : {A : Type ℓ} {B : Type κ} → (A → B) → Option A → Option B
map_some f none = none
map_some f (some x) = some (f x)

unfoldable pub revision : Id16 → Bytes → StreamCatalog → Option ℕ
revision branch stream c = map_some (λ e. e.last_revision) (pair_get branch stream c.streams)

unfoldable pub stream_id : Id16 → Bytes → StreamCatalog → Option Id16
stream_id branch stream c = map_some (λ e. e.id) (pair_get branch stream c.streams)

unfoldable pub event_digest : Id16 → StreamCatalog → Option ℕ
event_digest id c = map_some (λ e. e.0) (map_get id c.event_ids)

unfoldable pub batch_receipt : Id16 → StreamCatalog → Option AppendReceipt
batch_receipt id c = map_get id c.receipts

unfoldable pub event_receipt : Id16 → StreamCatalog → Option (ℕ × AppendReceipt)
event_receipt id c = elim (map_get id c.event_ids) [
  | none ↦ none
  | some (digest, batch) ↦ map_some (λ r. (digest, r)) (map_get batch c.receipts)
]

unfoldable pub idempotent : Id16 → Bytes → StreamCatalog → Option (ℕ × AppendReceipt)
idempotent branch key c = map_some (λ e. (e.digest, e.receipt)) (pair_get branch key c.idempotency)

-- `self.event_ids.extend(…)`
unfoldable pub extend_ids : List (Id16 × ℕ) → Id16 → Map (ℕ × Id16) → Map (ℕ × Id16)
extend_ids [] batch m = m
extend_ids ((id, digest) ∷ events) batch m =
    extend_ids events batch (map_insert id (digest, batch) m)

abbrev pub keep_key :
    Id16 → Option (Bytes × ℕ) → AppendReceipt → PairMap IdempotencyEntry → PairMap IdempotencyEntry
keep_key branch none receipt m = m
keep_key branch (some (key, digest)) receipt m =
    pair_insert branch key (record { digest = digest; receipt = receipt }) m

unfoldable pub record_batch :
    Id16
    → Bytes
    → Id16
    → List (Id16 × ℕ)
    → Option (Bytes × ℕ)
    → AppendReceipt
    → StreamCatalog
    → StreamCatalog
record_batch branch stream id event_digests key receipt c = record {
  streams =
      pair_insert branch stream (record { id = id; last_revision = receipt.current_revision })
        c.streams;
  event_ids = extend_ids event_digests receipt.batch_id c.event_ids;
  receipts = map_insert receipt.batch_id receipt c.receipts;
  idempotency = keep_key branch key receipt c.idempotency;
}
