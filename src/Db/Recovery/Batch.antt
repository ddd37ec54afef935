-- ===== src/Db/Recovery/Batch.antt =====
-- salamander/src/db.rs, salamander/src/stream.rs: the rebuild of the stream catalog over all records of a batch.
use salamander_db.Prelude.{
  ℕ, ◌+◌, ◌^◌, ◌<◌, ◌≡◌, refl, ap, ◌∙◌, inl, inr, Bool, true, false, not, ◌&&◌, ◌||◌, Option, none,
  some, List, [], ◌∷◌, ◌++◌, arith, ◌==◌, Bool-cases, All,
}
use salamander_db.Bytes.{Bytes, bytes_eq, bytes_eq_self, bytes_eq→eq, is_utf8}
use salamander_db.Errors.{
  SalamanderError, Result, ok, fail_if, event_id_conflict, ◌>>=◌, bind-eq-ok, ok-injective,
}
use salamander_db.Format.Types.{Id16, RecordEnvelopeV2, StoredRecord}
use salamander_db.Format.Checksum.{Crc32c}
use salamander_db.Branch.Maps.{Map, map_get, map_insert, get-insert, get-insert_other}
use salamander_db.Stream.{
  NewEvent, AppendRequest, AppendReceipt, StreamCatalog, extend_ids, event_digest,
}
use salamander_db.Stream.Keys.{pair_get}
use salamander_db.Stream.Rebuild.{
  event_fingerprint, new_receipt, grown_entry, conflicts, rebuild_events,
}
use salamander_db.Db.{Db}
use salamander_db.Db.Plan.{
  Env, Prepared, event_envelope, digest_of, id_conflicts, other_digest, any_other, build_events,
}
use salamander_db.Db.Recovery.{NoKey, recorded_state, record_of, longer}
use salamander_db.Db.Recovery.Rounds.{rebuild_event-first, rebuild_event-next}

-- An id that neither the catalog nor the batch has under another digest does not conflict in the catalog with the batch.
conflicts-extend_ids :
    (digest : ℕ) (id batch : Id16) (ds : List (Id16 × ℕ)) (m : Map (ℕ × Id16))
    → conflicts digest (map_get id m) ≡ false
    → any_other id digest ds ≡ false
    → conflicts digest (map_get id (extend_ids ds batch m)) ≡ false
unfolding extend_ids
conflicts-extend_ids digest id batch [] m h g = h
conflicts-extend_ids digest id batch ((i, d) ∷ ds) m h g =
    conflicts-extend_ids digest id batch ds (map_insert i (d, batch) m) inserted
      (right (bytes_eq i id && not (d == digest)) (any_other id digest ds) g)
  where
    right : (x y : Bool) → x || y ≡ false → y ≡ false
    right true y e = cc e
    right false y e = e

    left : (x y z : Bool) → (x && y) || z ≡ false → x ≡ true → y ≡ false
    left true true z e t = cc e
    left true false z e t = refl
    left false y z e t = cc t

    inserted : conflicts digest (map_get id (map_insert i (d, batch) m)) ≡ false
    inserted = elim (Bool-cases (bytes_eq id i)) [
      | inl t ↦
          let same : id ≡ i = bytes_eq→eq id i t in
          let own : bytes_eq i id ≡ true = ap (λ k. bytes_eq i k) same ∙ bytes_eq_self i in
          ap (λ k. conflicts digest (map_get k (map_insert i (d, batch) m))) same
          ∙ ap (λ o. conflicts digest o) (get-insert i (d, batch) m)
          ∙ left (bytes_eq i id) (not (d == digest)) (any_other id digest ds) g own
      | inr f ↦ ap (λ o. conflicts digest o) (get-insert_other i id (d, batch) m f) ∙ h
    ]

id_conflicts-false :
    {V : Type 0} (db : Db V) (id : Id16) (digest : ℕ) (p : Prepared) (u : Unit {0})
    (e : SalamanderError)
    → fail_if (id_conflicts db id digest p) e ≡ ok u
    → (conflicts digest (map_get id db.catalog.event_ids) ≡ false)
      × (any_other id digest p.digests ≡ false)
unfolding id_conflicts event_digest
id_conflicts-false db id digest p u e h =
    go (map_get id db.catalog.event_ids) (any_other id digest p.digests) h
  where
    go :
        (o : Option (ℕ × Id16)) (y : Bool)
        → fail_if (other_digest digest (elim o [ none ↦ none | some x ↦ some x.0 ]) || y) e ≡ ok u
        → (conflicts digest o ≡ false) × (y ≡ false)
    go none true h = absurd (cc h)
    go none false h = (refl, refl)
    go (some x) y h = both (not (x.0 == digest)) y h
      where
        both : (a b : Bool) → fail_if (a || b) e ≡ ok u → (a ≡ false) × (b ≡ false)
        both true b h = absurd (cc h)
        both false true h = absurd (cc h)
        both false false h = (refl, refl)

-- The records of the events of a batch from an index on, at consecutive positions.
abbrev pub records_of :
    {B : Type 0}
    → Env
    → AppendRequest B
    → Id16
    → Prepared
    → List (NewEvent B)
    → List Bytes
    → ℕ
    → ℕ
    → List (Result StoredRecord)
records_of env request database p [] bodies index at = []
records_of env request database p (e ∷ events) [] index at = []
records_of env request database p (e ∷ events) (body ∷ bodies) index at =
    ok (record_of env request database p e body index at)
    ∷ records_of env request database p events bodies (index + 1) (at + 1)

abbrev pub last_receipt :
    {B : Type 0} → Prepared → AppendReceipt → List (NewEvent B) → List Bytes → ℕ → ℕ → AppendReceipt
last_receipt p receipt [] bodies index at = receipt
last_receipt p receipt (e ∷ events) [] index at = receipt
last_receipt p receipt (e ∷ events) (body ∷ bodies) index at =
    last_receipt p (longer p receipt index at) events bodies (index + 1) (at + 1)

-- The catalog and the receipts that are left when the records end.
abbrev pub finished : StreamCatalog × Map AppendReceipt → Result StreamCatalog
finished (c, batches) = ok (record c { receipts = batches })

abbrev pub so_far : Prepared → List (Id16 × ℕ) → List (RecordEnvelopeV2 × Bytes) → Prepared
so_far p ds st = record p { digests = ds; stored = st }

module _ {B V : Type 0} (crc : Crc32c) (env : Env) (request : AppendRequest B) (db : Db V)
    (p : Prepared) (utf8 : is_utf8 request.stream ≡ true) (small : p.digest < 2 ^ 32)
    (c : StreamCatalog) (batches : Map AppendReceipt)
    (same_ids : c.event_ids ≡ db.catalog.event_ids) where
  rebuild_events-next :
      (events : List (NewEvent B)) (bodies : List Bytes) (index at : ℕ) (ds : List (Id16 × ℕ))
      (st : List (RecordEnvelopeV2 × Bytes)) (receipt : AppendReceipt) (q : Prepared)
      → build_events crc env request db events bodies index (so_far p ds st) ≡ ok q
      → All (λ e. NoKey e.metadata) events
      → receipt.current_revision < p.first_revision + index
      → rebuild_events crc
          (records_of env request db.log.manifest.database_id p events bodies index at)
          (recorded_state request p ds receipt c batches).0
          (recorded_state request p ds receipt c batches).1
        ≡ finished (
            recorded_state request p q.digests
              (last_receipt p receipt events bodies index at)
              c
              batches)
  unfolding build_events rebuild_events event_envelope digest_of event_fingerprint
  rebuild_events-next [] bodies index at ds st receipt q h nokey above =
      ap (λ k. finished (recorded_state request p k receipt c batches))
        (ap (λ k. k.digests) (ok-injective h))
  rebuild_events-next (e ∷ events) [] index at ds st receipt q h nokey above =
      ap (λ k. finished (recorded_state request p k receipt c batches))
        (ap (λ k. k.digests) (ok-injective h))
  rebuild_events-next (e ∷ events) (body ∷ bodies) index at ds st receipt q h nokey above =
      let rec : StoredRecord =
        record_of env request db.log.manifest.database_id p e body index at in
      let digest : ℕ = event_fingerprint crc rec in
      let (u, h1, h2) =
        bind-eq-ok
          (fail_if (id_conflicts db rec.envelope.event_id digest (so_far p ds st))
            event_id_conflict)
          _ h in
      let (old, own) =
        id_conflicts-false db rec.envelope.event_id digest (so_far p ds st) u event_id_conflict
          h1 in
      let fresh : conflicts digest
            (map_get rec.envelope.event_id (extend_ids ds p.batch_id c.event_ids))
          ≡ false =
        conflicts-extend_ids digest rec.envelope.event_id p.batch_id ds c.event_ids
          (ap (λ m. conflicts digest (map_get rec.envelope.event_id m)) same_ids ∙ old) own in
      let step =
        rebuild_event-next crc env request db.log.manifest.database_id p utf8 small e body index at
          ds receipt c batches nokey.0 above fresh in
      let rest =
        rebuild_events-next events bodies (index + 1) (at + 1)
          (ds ++ ((rec.envelope.event_id, digest) ∷ [])) (st ++ ((rec.envelope, body) ∷ []))
          (longer p receipt index at) q h2 nokey.1 (omega arith) in
      ap
        (λ r. r >>= (λ grown.
          rebuild_events crc
            (records_of env request db.log.manifest.database_id p events bodies (index + 1)
              (at + 1))
            grown.0 grown.1))
        step
      ∙ rest

  pub rebuild_events-first :
      (e : NewEvent B) (events : List (NewEvent B)) (body : Bytes) (bodies : List Bytes) (at : ℕ)
      (q : Prepared)
      → build_events crc env request db (e ∷ events) (body ∷ bodies) 0 (so_far p [] []) ≡ ok q
      → All (λ e. NoKey e.metadata) (e ∷ events)
      → grown_entry
          (record_of env request db.log.manifest.database_id p e body 0 at)
          (pair_get request.branch request.stream c.streams)
        ≡ ok (record { id = p.stream; last_revision = p.first_revision + 0 })
      → map_get p.batch_id batches ≡ none
      → rebuild_events crc
          (records_of env request db.log.manifest.database_id p (e ∷ events) (body ∷ bodies) 0 at)
          c
          batches
        ≡ finished (
            recorded_state request p q.digests
              (last_receipt p
                (new_receipt (record_of env request db.log.manifest.database_id p e body 0 at))
                events
                bodies
                1
                (at + 1))
              c
              batches)
  unfolding build_events rebuild_events event_envelope digest_of event_fingerprint
  rebuild_events-first e events body bodies at q h nokey entry new =
      let rec : StoredRecord = record_of env request db.log.manifest.database_id p e body 0 at in
      let digest : ℕ = event_fingerprint crc rec in
      let (u, h1, h2) =
        bind-eq-ok
          (fail_if (id_conflicts db rec.envelope.event_id digest (so_far p [] []))
            event_id_conflict)
          _ h in
      let (old, own) =
        id_conflicts-false db rec.envelope.event_id digest (so_far p [] []) u event_id_conflict
          h1 in
      let fresh : conflicts digest (map_get rec.envelope.event_id c.event_ids) ≡ false =
        ap (λ m. conflicts digest (map_get rec.envelope.event_id m)) same_ids ∙ old in
      let step =
        rebuild_event-first crc env request db.log.manifest.database_id p utf8 small e body 0 at c
          batches nokey.0 entry fresh new in
      let rest =
        rebuild_events-next events bodies 1 (at + 1) ((rec.envelope.event_id, digest) ∷ [])
          ((rec.envelope, body) ∷ []) (new_receipt rec) q h2 nokey.1 (omega arith) in
      ap
        (λ r. r >>= (λ grown.
          rebuild_events crc
            (records_of env request db.log.manifest.database_id p events bodies 1 (at + 1)) grown.0
            grown.1))
        step
      ∙ rest
