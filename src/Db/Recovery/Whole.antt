-- ===== src/Db/Recovery/Whole.antt =====
-- salamander/src/db.rs, salamander/src/stream.rs: an append in memory and in the rebuild from the log.
use salamander_db.Prelude.{
  ℕ, suc, ◌+◌, ◌-◌, ◌^◌, ◌<◌, ◌≡◌, refl, ap, ◌∙◌, true, false, Option, none, some, List, [], ◌∷◌,
  arith, ltb, length, All,
}
use salamander_db.Bytes.{Bytes, bytes_eq_self, is_utf8}
use salamander_db.Errors.{Result, ok}
use salamander_db.Format.Types.{Id16, StoredRecord}
use salamander_db.Format.Checksum.{Crc32c}
use salamander_db.Branch.Maps.{map_get}
use salamander_db.Log.Segment.Batch.{batch_records}
use salamander_db.Stream.{
  NewEvent, AppendRequest, AppendReceipt, StreamCatalog, StreamEntry, revision, stream_id,
  record_batch, buffered, map_some,
}
use salamander_db.Stream.Keys.{pair_get}
use salamander_db.Stream.Rebuild.{new_receipt, grown_entry, checked_pred, rebuild_events}
use salamander_db.Db.{Db}
use salamander_db.Db.Plan.{
  Env, Prepared, event_envelope, start, next_revision, or_else, build_events,
}
use salamander_db.Db.Append.{key_digest}
use salamander_db.Db.Digest.{derive_stream_id}
use salamander_db.Db.Built.{stored_events}
use salamander_db.Db.Recovery.{NoKey, recorded_state, record_of, longer}
use salamander_db.Db.Recovery.Batch.{records_of, last_receipt, finished, rebuild_events-first}
use salamander_db.Db.Recovery.Forget.{forget}

abbrev pub all_ok : List StoredRecord → List (Result StoredRecord)
all_ok [] = []
all_ok (rec ∷ records) = ok rec ∷ all_ok records

pub records_of-stored_events :
    {B : Type 0} (env : Env) (request : AppendRequest B) (database : Id16) (p : Prepared)
    (events : List (NewEvent B)) (bodies : List Bytes) (index first : ℕ)
    → records_of env request database p events bodies index (first + index)
      ≡ all_ok
          (batch_records first index (stored_events env request database p events bodies index))
records_of-stored_events env request database p [] bodies index first = refl
records_of-stored_events env request database p (e ∷ events) [] index first = refl
records_of-stored_events env request database p (e ∷ events) (body ∷ bodies) index first =
    ap (λ k. ok (record_of env request database p e body index (first + index)) ∷ k)
      (ap (λ at. records_of env request database p events bodies (index + 1) at) (next first index)
        ∙ records_of-stored_events env request database p events bodies (index + 1) first)
  where
    next : (a b : ℕ) → a + b + 1 ≡ a + (b + 1)
    next a b = omega arith

-- The receipt after the events, by its fields.
last_receipt-fields :
    {B : Type 0} (p : Prepared) (events : List (NewEvent B)) (bodies : List Bytes)
    (receipt : AppendReceipt) (index at : ℕ)
    → length bodies ≡ length events
    → receipt.last_position + 1 ≡ at
    → receipt.current_revision + 1 ≡ p.first_revision + index
    → last_receipt p receipt events bodies index at ≡ record receipt {
      last_position = at + length events - 1;
      current_revision = p.first_revision + index + length events - 1;
    }
last_receipt-fields p [] bodies receipt index at h1 h2 h3 =
    let e1 : receipt.last_position ≡ at + 0 - 1 = omega (arith, h2) in
    let e2 : receipt.current_revision ≡ p.first_revision + index + 0 - 1 = omega (arith, h3) in
    λ i. record receipt { last_position = e1 i; current_revision = e2 i }
last_receipt-fields p (e ∷ events) [] receipt index at h1 h2 h3 = absurd (omega (arith, h1))
last_receipt-fields p (e ∷ events) (body ∷ bodies) receipt index at h1 h2 h3 =
    let e1 : at + 1 + length events - 1 ≡ at + suc (length events) - 1 = omega arith in
    let e2 : p.first_revision + (index + 1) + length events - 1
        ≡ p.first_revision + index + suc (length events) - 1 =
      omega arith in
    last_receipt-fields p events bodies (longer p receipt index at) (index + 1) (at + 1)
      (omega (arith, h1)) refl (omega arith)
    ∙ (λ i. record receipt { last_position = e1 i; current_revision = e2 i })

-- The stream that a batch begins or goes on with, in the rebuild.
grown_entry-start :
    {B : Type 0} (env : Env) (request : AppendRequest B) (database : Id16) (p : Prepared)
    (e : NewEvent B) (body : Bytes) (at : ℕ) (found : Option StreamEntry) (fallback : Id16)
    → p.stream ≡ or_else (map_some (λ x. x.id) found) fallback
    → p.first_revision ≡ next_revision (map_some (λ x. x.last_revision) found)
    → grown_entry (record_of env request database p e body 0 at) found
      ≡ ok (record { id = p.stream; last_revision = p.first_revision + 0 })
unfolding grown_entry event_envelope
grown_entry-start env request database p e body at none fallback h1 h2 =
    let f : ltb (p.first_revision + 0) (p.first_revision + 0) ≡ false = ground arith in
    rw (bytes_eq_self p.stream, f) refl
grown_entry-start env request database p e body at (some entry) fallback h1 h2 =
    let t : ltb entry.last_revision (p.first_revision + 0) ≡ true = ground (arith, h2) in
    rw (t, h1, bytes_eq_self entry.id) refl

pub checked_pred-next_revision :
    (previous : Option ℕ) → checked_pred (next_revision previous + 0) ≡ previous
checked_pred-next_revision none = refl
checked_pred-next_revision (some r) =
    let e : r + 1 + 0 ≡ suc r = omega arith in ap (λ n. checked_pred n) e

-- The receipt that the rebuild has for a batch.
abbrev pub rebuilt_receipt : Prepared → ℕ → ℕ → AppendReceipt
rebuilt_receipt p at n = record {
  batch_id = p.batch_id;
  first_position = at;
  last_position = at + n - 1;
  stream_id = p.stream;
  previous_revision = checked_pred (p.first_revision + 0);
  current_revision = p.first_revision + n - 1;
  durability = buffered;
}

module _ {B V : Type 0} (crc : Crc32c) (env : Env) (request : AppendRequest B)
    (supplied : Option Id16) (db : Db V) (serialized : List Bytes) (digest : ℕ)
    (utf8 : is_utf8 request.stream ≡ true) (small : digest < 2 ^ 32) (k : StreamCatalog)
    (alike : forget k ≡ forget db.catalog) where
  abbrev begun : Prepared
  begun = start env request supplied db serialized digest

  begun-entry :
      (e : NewEvent B) (body : Bytes) (at : ℕ)
      → grown_entry
          (record_of env request db.log.manifest.database_id begun e body 0 at)
          (pair_get request.branch request.stream k.streams)
        ≡ ok (record { id = begun.stream; last_revision = begun.first_revision + 0 })
  unfolding stream_id revision
  begun-entry e body at =
      ap
        (λ s.
          grown_entry (record_of env request db.log.manifest.database_id begun e body 0 at)
            (pair_get request.branch request.stream s))
        (ap (λ c. c.streams) alike)
      ∙ grown_entry-start env request db.log.manifest.database_id begun e body at
          (pair_get request.branch request.stream db.catalog.streams)
          (derive_stream_id db.log.manifest.database_id request.branch request.stream) refl refl

  pub rebuild_events-batch :
      (events : List (NewEvent B)) (bodies : List Bytes) (at : ℕ) (p : Prepared)
      → length bodies ≡ length events
      → 0 < length events
      → build_events crc env request db events bodies 0 begun ≡ ok p
      → All (λ e. NoKey e.metadata) events
      → map_get begun.batch_id k.receipts ≡ none
      → rebuild_events crc
          (records_of env request db.log.manifest.database_id begun events bodies 0 at)
          (record k { receipts = [] })
          k.receipts
        ≡ ok (
            record_batch request.branch request.stream begun.stream p.digests
              (key_digest request.idempotency_key digest)
              (rebuilt_receipt begun at (length events))
              k)
  unfolding record_batch event_envelope
  rebuild_events-batch [] bodies at p h1 h2 h3 nokey new = absurd (omega (arith, h2))
  rebuild_events-batch (e ∷ events) [] at p h1 h2 h3 nokey new = absurd (omega (arith, h1))
  rebuild_events-batch (e ∷ events) (body ∷ bodies) at p h1 h2 h3 nokey new =
      let rec : StoredRecord =
        record_of env request db.log.manifest.database_id begun e body 0 at in
      let end : AppendReceipt → Result StreamCatalog = λ r.
        finished
          (recorded_state request begun p.digests r (record k { receipts = [] }) k.receipts) in
      let e1 : at + 1 + length events - 1 ≡ at + suc (length events) - 1 = omega arith in
      let e2 : begun.first_revision + 1 + length events - 1
          ≡ begun.first_revision + suc (length events) - 1 =
        omega arith in
      rebuild_events-first crc env request db begun utf8 small (record k { receipts = [] })
        k.receipts (ap (λ c. c.event_ids) alike) e events body bodies at p h3 nokey
        (begun-entry e body at) new
      ∙ ap end (
          last_receipt-fields begun events bodies (new_receipt rec) 1 (at + 1) (omega (arith, h1))
            refl (omega arith))
      ∙ (λ i. end (record (rebuilt_receipt begun at (suc (length events))) {
        last_position = e1 i;
        current_revision = e2 i;
      }))
