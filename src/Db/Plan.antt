-- ===== src/Db/Plan.antt =====
-- salamander/src/db.rs: `append_batch_with_id` up to its first write.
use salamander_db.Prelude.{
  ℕ, ◌+◌, ◌%◌, ◌^◌, Bool, true, false, not, ◌&&◌, ◌||◌, Option, none, some, List, [], ◌∷◌, ◌++◌,
  ◌==◌, if◌then◌else◌,
}
use salamander_db.Bytes.{Bytes, to_le_bytes, bytes_eq, codes}
use salamander_db.Errors.{
  Result, ok, err, fail_if, event_id_conflict, idempotency_conflict, batch_id_conflict,
  branch_not_found, branch_archived, ◌>>=◌, ◌>>◌,
}
use salamander_db.Format.Types.{Id16, Metadata, RecordEnvelopeV2, event, codec_rust_bincode_v1}
use salamander_db.Format.Metadata.{metadata_insert}
use salamander_db.Format.Checksum.{Crc32c}
use salamander_db.Branch.{BranchInfo, active, archived, get}
use salamander_db.Log.Store.{head}
use salamander_db.Stream.{
  NewEvent, AppendRequest, AppendReceipt, validate_request, revision, stream_id, event_digest,
  event_receipt, batch_receipt, idempotent,
}
use salamander_db.Stream.Rebuild.{event_fingerprint}
use salamander_db.Db.{Db, validate_expected}
use salamander_db.Db.Digest.{request_fingerprint, derive_stream_id, timestamp_nanos}

-- What one call reads of the world: the clock, the time since the last commit in nanoseconds, and what
-- `generate_id_bytes` gives, first for the batch and then for the events.
pub record Env : Type 0 where
  pub timestamp_ms : ℕ
  pub elapsed : ℕ
  pub batch_id : Id16
  pub event_id : ℕ → Id16

-- A batch that is ready to be written.
pub record Prepared : Type 0 where
  pub batch_id : Id16
  pub stream : Id16
  pub previous : Option ℕ
  pub first_revision : ℕ
  pub digest : ℕ
  pub serialized : List Bytes
  pub stored : List (RecordEnvelopeV2 × Bytes)
  pub digests : List (Id16 × ℕ)

-- The receipt of an earlier append, or a batch to write.
pub data Plan : Type 0 where
  answer : AppendReceipt → Plan
  write : Prepared → Plan

abbrev pub serialize_all :
    {B : Type 0} → (B → Result Bytes) → List (NewEvent B) → Result (List Bytes)
serialize_all serialize [] = ok []
serialize_all serialize (e ∷ events) = do
  body ← serialize e.body
  bodies ← serialize_all serialize events
  ok (body ∷ bodies)

abbrev pub require_branch : Option BranchInfo → Id16 → Result (Unit {0})
require_branch none id = err (branch_not_found id)
require_branch (some branch) id = elim branch.status [
  | active ↦ ok tt
  | archived ↦ err (branch_archived branch.name)
]

abbrev pub or_else {ℓ} : {A : Type ℓ} → Option A → A → A
or_else none d = d
or_else (some x) d = x

-- `previous.map_or(0, |revision| revision.0 + 1)`
abbrev pub next_revision : Option ℕ → ℕ
next_revision none = 0
next_revision (some r) = r + 1

abbrev pub event_metadata : Bytes → Option Bytes → ℕ → Metadata → Metadata
event_metadata stream none digest m = metadata_insert (codes "salamander.stream_name") stream m
event_metadata stream (some key) digest m =
    metadata_insert (codes "salamander.request_digest") (to_le_bytes 4 digest) (
      metadata_insert (codes "salamander.idempotency_key") key
        (metadata_insert (codes "salamander.stream_name") stream m))

abbrev pub other_digest : ℕ → Option ℕ → Bool
other_digest digest none = false
other_digest digest (some old) = not (old == digest)

abbrev pub any_other : Id16 → ℕ → List (Id16 × ℕ) → Bool
any_other id digest [] = false
any_other id digest (d ∷ ds) = (bytes_eq d.0 id && not (d.1 == digest)) || any_other id digest ds

-- The envelope of the event at an index.
unfoldable pub event_envelope :
    {B : Type 0} → Env → AppendRequest B → Id16 → Prepared → NewEvent B → ℕ → RecordEnvelopeV2
event_envelope env request database p e index = record {
  event_id = or_else e.event_id (env.event_id index);
  database_id = database;
  branch_id = request.branch;
  stream_id = p.stream;
  stream_revision = p.first_revision + index;
  timestamp_unix_nanos = timestamp_nanos env.timestamp_ms;
  event_type = e.event_type;
  schema_version = e.schema_version;
  codec = codec_rust_bincode_v1;
  batch_id = p.batch_id;
  batch_index = index % 2 ^ 32;
  metadata = event_metadata request.stream request.idempotency_key p.digest e.metadata;
}

-- The fingerprint of the event as it would be stored.
unfoldable pub digest_of : {V : Type 0} → Crc32c → Db V → RecordEnvelopeV2 → Bytes → ℕ → ℕ
digest_of crc db envelope body index = event_fingerprint crc (record {
  kind = event;
  flags = 0;
  position = head db.log + index;
  envelope = envelope;
  payload = body;
})

unfoldable pub id_conflicts : {V : Type 0} → Db V → Id16 → ℕ → Prepared → Bool
id_conflicts db id digest p =
    other_digest digest (event_digest id db.catalog) || any_other id digest p.digests

abbrev pub with_event : Prepared → RecordEnvelopeV2 → Bytes → ℕ → Prepared
with_event p envelope body digest = record p {
  digests = p.digests ++ ((envelope.event_id, digest) ∷ []);
  stored = p.stored ++ ((envelope, body) ∷ []);
}

-- The loop over the events with their bodies; `p` holds what was stored so far.
unfoldable pub build_events :
    {B V : Type 0}
    → Crc32c
    → Env
    → AppendRequest B
    → Db V
    → List (NewEvent B)
    → List Bytes
    → ℕ
    → Prepared
    → Result Prepared
build_events crc env request db [] bodies index p = ok p
build_events crc env request db (e ∷ events) [] index p = ok p
build_events crc env request db (e ∷ events) (body ∷ bodies) index p =
    let envelope : RecordEnvelopeV2 =
      event_envelope env request db.log.manifest.database_id p e index in
    let digest : ℕ = digest_of crc db envelope body index in
    do
      fail_if (id_conflicts db envelope.event_id digest p) event_id_conflict
      build_events crc env request db events bodies (index + 1) (with_event p envelope body digest)

abbrev pub supplied_ids : {B : Type 0} → List (NewEvent B) → List (Option Id16)
supplied_ids [] = []
supplied_ids (e ∷ events) = e.event_id ∷ supplied_ids events

abbrev pub is_some {ℓ} : {A : Type ℓ} → Option A → Bool
is_some none = false
is_some (some x) = true

-- Some supplied id is known.
abbrev pub any_known : {V : Type 0} → Db V → List (Option Id16) → Bool
any_known db [] = false
any_known db (none ∷ ids) = any_known db ids
any_known db (some id ∷ ids) = is_some (event_receipt id db.catalog) || any_known db ids

abbrev other_batch : AppendReceipt → Option AppendReceipt → Bool
other_batch receipt none = false
other_batch receipt (some existing) = not (bytes_eq existing.batch_id receipt.batch_id)

-- The loop that looks for the one batch that the supplied ids belong to.
unfoldable pub find_original :
    {V : Type 0}
    → Db V
    → List (Option Id16)
    → List (Id16 × ℕ)
    → Option AppendReceipt
    → Result (Option AppendReceipt)
find_original db [] digests original = ok original
find_original db (id ∷ ids) [] original = ok original
find_original db (none ∷ ids) (d ∷ digests) original = err event_id_conflict
find_original db (some id ∷ ids) (d ∷ digests) original = elim (event_receipt id db.catalog) [
  | none ↦ err event_id_conflict
  | some (stored_digest, receipt) ↦ do
    fail_if (not (stored_digest == d.1) || other_batch receipt original) event_id_conflict
    find_original db ids digests (some receipt)
]

abbrev pub require_original : Option AppendReceipt → Result AppendReceipt
require_original none = err event_id_conflict
require_original (some receipt) = ok receipt

abbrev pub other_id : Option Id16 → Id16 → Bool
other_id none id = false
other_id (some supplied) id = not (bytes_eq supplied id)

abbrev pub key_answer : {V : Type 0} → Db V → Id16 → Option Bytes → Option (ℕ × AppendReceipt)
key_answer db branch none = none
key_answer db branch (some key) = idempotent branch key db.catalog

-- Some supplied id is known: the events are a batch that was appended before, or conflict with it.
unfoldable pub plan_known :
    {B V : Type 0} → AppendRequest B → Option Id16 → Db V → Prepared → Result Plan
plan_known request supplied db prepared = do
  found ← find_original db (supplied_ids request.events) prepared.digests none
  original ← require_original found
  fail_if (other_id supplied original.batch_id) batch_id_conflict
  ok (answer original)

unfoldable pub plan_new : {V : Type 0} → Db V → Prepared → Result Plan
plan_new db prepared = do
  fail_if (is_some (batch_receipt prepared.batch_id db.catalog)) batch_id_conflict
  ok (write prepared)

abbrev pub start :
    {B V : Type 0} → Env → AppendRequest B → Option Id16 → Db V → List Bytes → ℕ → Prepared
start env request supplied db serialized digest = record {
  batch_id = or_else supplied env.batch_id;
  stream =
      or_else (stream_id request.branch request.stream db.catalog)
        (derive_stream_id db.log.manifest.database_id request.branch request.stream);
  previous = revision request.branch request.stream db.catalog;
  first_revision = next_revision (revision request.branch request.stream db.catalog);
  digest = digest;
  serialized = serialized;
  stored = [];
  digests = [];
}

-- From the check of the expected revision on.
unfoldable pub plan_write :
    {B V : Type 0}
    → Crc32c
    → Env
    → AppendRequest B
    → Option Id16
    → Db V
    → List Bytes
    → ℕ
    → Result Plan
plan_write crc env request supplied db serialized digest = do
  validate_expected request.expected (revision request.branch request.stream db.catalog)
  prepared ←
      build_events crc env request db request.events serialized 0
        (start env request supplied db serialized digest)
  if any_known db (supplied_ids request.events)
      then plan_known request supplied db prepared
      else plan_new db prepared

abbrev pub answered :
    {A : Type 0} → ℕ → Option (ℕ × AppendReceipt) → Result A → (AppendReceipt → Result A) → Result A
answered digest none rest found = rest
answered digest (some (old, receipt)) rest found =
    if not (old == digest) then err idempotency_conflict else found receipt

unfoldable pub plan_append :
    {B V : Type 0}
    → Crc32c
    → (B → Result Bytes)
    → Env
    → AppendRequest B
    → Option Id16
    → Db V
    → Result Plan
plan_append crc serialize env request supplied db = do
  validate_request request
  require_branch (get request.branch db.branches) request.branch
  serialized ← serialize_all serialize request.events
  let digest = request_fingerprint crc request serialized
  answered digest (key_answer db request.branch request.idempotency_key)
      (plan_write crc env request supplied db serialized digest) (λ receipt. ok (answer receipt))
