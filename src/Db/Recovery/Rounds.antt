-- ===== src/Db/Recovery/Rounds.antt =====
-- salamander/src/db.rs, salamander/src/stream.rs: the rounds of the rebuild over a record that begins a batch
-- and over one that goes on with it.
use salamander_db.Prelude.{
  ℕ, ◌+◌, ◌^◌, ◌<◌, ◌≡◌, refl, sym, ap, ◌∙◌, true, false, Option, none, some, List, [], ◌∷◌, ◌++◌,
  lt→ltb,
}
use salamander_db.Bytes.{Bytes, bytes_eq_self, codes, is_utf8}
use salamander_db.Errors.{Result, ok}
use salamander_db.Format.Types.{Id16, StoredRecord}
use salamander_db.Format.Metadata.{metadata_get}
use salamander_db.Format.Checksum.{Crc32c}
use salamander_db.Branch.Maps.{Map, map_get, map_insert}
use salamander_db.Stream.{
  NewEvent, AppendRequest, AppendReceipt, IdempotencyEntry, StreamEntry, StreamCatalog, keep_key,
  extend_ids,
}
use salamander_db.Stream.Keys.{PairMap, pair_get, pair_insert, pair_get-pair_insert}
use salamander_db.Stream.Rebuild.{
  stream_name, event_fingerprint, new_receipt, grown_entry, conflicts, kept_idempotency,
  rebuild_event,
}
use salamander_db.Stream.Overwrite.{map_insert_again, pair_insert_again, extend_ids_last}
use salamander_db.Db.Plan.{Env, Prepared, event_envelope}
use salamander_db.Db.Append.{key_digest}
use salamander_db.Db.Recovery.{
  NoKey, get-event_metadata, kept-event_metadata, recorded_state, rebuild_event-step,
  grown_receipt_first, grown_receipt_next, longer, record_of,
}

module _ {B : Type 0} (crc : Crc32c) (env : Env) (request : AppendRequest B) (database : Id16)
    (p : Prepared) (utf8 : is_utf8 request.stream ≡ true) (small : p.digest < 2 ^ 32) where
  stream_name-record_of :
      (e : NewEvent B) (body : Bytes) (index at : ℕ)
      → stream_name (record_of env request database p e body index at) ≡ ok request.stream
  unfolding stream_name event_envelope
  stream_name-record_of e body index at =
      rw
        (
          get-event_metadata request.stream request.idempotency_key p.digest e.metadata,
          utf8,
          stream_name,
        )
        refl

  -- A record that begins its batch.
  pub rebuild_event-first :
      (e : NewEvent B) (body : Bytes) (index at : ℕ) (c : StreamCatalog)
      (batches : Map AppendReceipt)
      → NoKey e.metadata
      → grown_entry
          (record_of env request database p e body index at)
          (pair_get request.branch request.stream c.streams)
        ≡ ok (record { id = p.stream; last_revision = p.first_revision + index })
      → conflicts
          (event_fingerprint crc (record_of env request database p e body index at))
          (map_get (record_of env request database p e body index at).envelope.event_id c.event_ids)
        ≡ false
      → map_get p.batch_id batches ≡ none
      → rebuild_event crc (record_of env request database p e body index at) c batches
        ≡ ok (
            recorded_state request p
              ((
                (record_of env request database p e body index at).envelope.event_id,
                event_fingerprint crc (record_of env request database p e body index at),
              )
                ∷ [])
              (new_receipt (record_of env request database p e body index at))
              c
              batches)
  unfolding extend_ids event_envelope
  rebuild_event-first e body index at c batches nokey entry fresh new =
      let rec : StoredRecord = record_of env request database p e body index at in
      let state : AppendReceipt → PairMap IdempotencyEntry → StreamCatalog × Map AppendReceipt =
        λ r idem. (
          record c {
            streams =
                pair_insert request.branch request.stream
                  (record { id = p.stream; last_revision = p.first_revision + index }) c.streams;
            event_ids =
                map_insert rec.envelope.event_id (event_fingerprint crc rec, p.batch_id)
                  c.event_ids;
            idempotency = idem;
          },
          map_insert p.batch_id r batches,
        ) in
      rebuild_event-step crc rec c batches request.stream
        (record { id = p.stream; last_revision = p.first_revision + index })
        (stream_name-record_of e body index at) entry fresh
      ∙ ap
          (λ r. ok (
            state r (
              kept_idempotency rec r
                (metadata_get (codes "salamander.idempotency_key") rec.envelope.metadata)
                (metadata_get (codes "salamander.request_digest") rec.envelope.metadata)
                c.idempotency)))
          (grown_receipt_first rec batches new)
      ∙ ap (λ m. ok (state (new_receipt rec) m))
          (kept-event_metadata rec (new_receipt rec) request.stream request.idempotency_key p.digest
            e.metadata c.idempotency nokey small)

  pub grown_entry-next :
      (e : NewEvent B) (body : Bytes) (index at r : ℕ)
      → r < p.first_revision + index
      → grown_entry
          (record_of env request database p e body index at)
          (some (record { id = p.stream; last_revision = r }))
        ≡ ok (record { id = p.stream; last_revision = p.first_revision + index })
  unfolding grown_entry event_envelope
  grown_entry-next e body index at r h =
      rw (bytes_eq_self p.stream, lt→ltb r (p.first_revision + index) h) refl

  keep_key_again :
      (key : Option (Bytes × ℕ)) (x y : AppendReceipt) (m : PairMap IdempotencyEntry)
      → keep_key request.branch key y (keep_key request.branch key x m)
        ≡ keep_key request.branch key y m
  keep_key_again none x y m = refl
  keep_key_again (some (key, digest)) x y m = pair_insert_again request.branch key _ _ m

  -- A record that goes on with its batch.
  pub rebuild_event-next :
      (e : NewEvent B) (body : Bytes) (index at : ℕ) (ds : List (Id16 × ℕ))
      (receipt : AppendReceipt) (c : StreamCatalog) (batches : Map AppendReceipt)
      → NoKey e.metadata
      → receipt.current_revision < p.first_revision + index
      → conflicts (event_fingerprint crc (record_of env request database p e body index at)) (
          map_get
            (record_of env request database p e body index at).envelope.event_id
            (extend_ids ds p.batch_id c.event_ids))
        ≡ false
      → rebuild_event crc
          (record_of env request database p e body index at)
          (recorded_state request p ds receipt c batches).0
          (recorded_state request p ds receipt c batches).1
        ≡ ok (
            recorded_state request p
              (ds
                ++ ((
                  (record_of env request database p e body index at).envelope.event_id,
                  event_fingerprint crc (record_of env request database p e body index at),
                )
                    ∷ []))
              (longer p receipt index at)
              c
              batches)
  unfolding event_envelope
  rebuild_event-next e body index at ds receipt c batches nokey above fresh =
      let rec : StoredRecord = record_of env request database p e body index at in
      let entry : StreamEntry = record {
        id = p.stream;
        last_revision = p.first_revision + index;
      } in
      let before : StreamCatalog × Map AppendReceipt =
        recorded_state request p ds receipt c batches in
      let state : PairMap StreamEntry
          → Map (ℕ × Id16)
          → PairMap IdempotencyEntry
          → Map AppendReceipt
          → Result (StreamCatalog × Map AppendReceipt) =
        λ s i k b. ok (record c { streams = s; event_ids = i; idempotency = k }, b) in
      let kept : AppendReceipt → PairMap IdempotencyEntry = λ r.
        kept_idempotency rec r
          (metadata_get (codes "salamander.idempotency_key") rec.envelope.metadata)
          (metadata_get (codes "salamander.request_digest") rec.envelope.metadata)
          before.0.idempotency in
      let s1 : PairMap StreamEntry =
        pair_insert request.branch request.stream entry before.0.streams in
      let i1 : Map (ℕ × Id16) =
        map_insert rec.envelope.event_id (event_fingerprint crc rec, p.batch_id)
          before.0.event_ids in
      let r1 : AppendReceipt = longer p receipt index at in
      rebuild_event-step crc rec before.0 before.1 request.stream entry
        (stream_name-record_of e body index at)
        (ap (λ o. grown_entry rec o)
            (pair_get-pair_insert request.branch request.stream
              (record { id = p.stream; last_revision = receipt.current_revision }) c.streams)
          ∙ grown_entry-next e body index at receipt.current_revision above)
        fresh
      ∙ ap (λ r. state s1 i1 (kept r) (map_insert p.batch_id r before.1))
          (grown_receipt_next rec receipt batches)
      ∙ ap (λ k. state s1 i1 k (map_insert p.batch_id r1 before.1))
          (kept-event_metadata rec r1 request.stream request.idempotency_key p.digest e.metadata
              before.0.idempotency nokey small
            ∙ keep_key_again (key_digest request.idempotency_key p.digest) receipt r1 c.idempotency)
      ∙ ap
          (λ s.
            state s i1
              (keep_key request.branch (key_digest request.idempotency_key p.digest) r1
                c.idempotency)
              (map_insert p.batch_id r1 before.1))
          (pair_insert_again request.branch request.stream _ entry c.streams)
      ∙ ap
          (λ i.
            state (pair_insert request.branch request.stream entry c.streams) i
              (keep_key request.branch (key_digest request.idempotency_key p.digest) r1
                c.idempotency)
              (map_insert p.batch_id r1 before.1))
          (sym (
            extend_ids_last ds rec.envelope.event_id (event_fingerprint crc rec) p.batch_id
              c.event_ids))
      ∙ ap
          (λ b.
            state (pair_insert request.branch request.stream entry c.streams)
              (extend_ids (ds ++ ((rec.envelope.event_id, event_fingerprint crc rec) ∷ []))
                p.batch_id c.event_ids)
              (keep_key request.branch (key_digest request.idempotency_key p.digest) r1
                c.idempotency)
              b)
          (map_insert_again p.batch_id receipt r1 batches)
