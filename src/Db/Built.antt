-- ===== src/Db/Built.antt =====
-- salamander/src/db.rs: what the loop over the events of a batch makes.
use salamander_db.Prelude.{
  ℕ, ◌+◌, ◌≡◌, refl, sym, ap, ◌∙◌, List, [], ◌∷◌, ◌++◌, append_assoc, append-nil, arith, length,
}
use salamander_db.Bytes.{Bytes}
use salamander_db.Errors.{Result, ok, fail_if, event_id_conflict, bind-eq-ok, ok-injective}
use salamander_db.Format.Types.{Id16, RecordEnvelopeV2}
use salamander_db.Format.Checksum.{Crc32c}
use salamander_db.Stream.{NewEvent, AppendRequest}
use salamander_db.Db.{Db}
use salamander_db.Db.Plan.{
  Env, Prepared, serialize_all, event_envelope, digest_of, id_conflicts, with_event, build_events,
}

-- The envelopes and bodies of the events from an index on.
abbrev pub stored_events :
    {B : Type 0}
    → Env
    → AppendRequest B
    → Id16
    → Prepared
    → List (NewEvent B)
    → List Bytes
    → ℕ
    → List (RecordEnvelopeV2 × Bytes)
stored_events env request database p [] bodies index = []
stored_events env request database p (e ∷ events) [] index = []
stored_events env request database p (e ∷ events) (body ∷ bodies) index =
    (event_envelope env request database p e index, body)
    ∷ stored_events env request database p events bodies (index + 1)

-- The loop over the events fills `stored` and `digests` and leaves the rest alone.
pub record Built (p p' : Prepared) (more : List (RecordEnvelopeV2 × Bytes)) : Type 0 where
  pub batch_same : p'.batch_id ≡ p.batch_id
  pub stream_same : p'.stream ≡ p.stream
  pub previous_same : p'.previous ≡ p.previous
  pub first_same : p'.first_revision ≡ p.first_revision
  pub digest_same : p'.digest ≡ p.digest
  pub serialized_same : p'.serialized ≡ p.serialized
  pub stored_more : p'.stored ≡ p.stored ++ more

same_events :
    {B : Type 0} (env : Env) (request : AppendRequest B) (database : Id16) (p : Prepared)
    (ds : List (Id16 × ℕ)) (st : List (RecordEnvelopeV2 × Bytes)) (events : List (NewEvent B))
    (bodies : List Bytes) (index : ℕ)
    → stored_events env request database
        (record p { digests = ds; stored = st })
        events
        bodies
        index
      ≡ stored_events env request database p events bodies index
unfolding event_envelope
same_events env request database p ds st [] bodies index = refl
same_events env request database p ds st (e ∷ events) [] index = refl
same_events env request database p ds st (e ∷ events) (body ∷ bodies) index =
    ap (λ k. (event_envelope env request database p e index, body) ∷ k)
      (same_events env request database p ds st events bodies (index + 1))

pub build_events-Built :
    {B V : Type 0} (crc : Crc32c) (env : Env) (request : AppendRequest B) (db : Db V)
    (events : List (NewEvent B)) (bodies : List Bytes) (index : ℕ) (p p' : Prepared)
    → build_events crc env request db events bodies index p ≡ ok p'
    → Built p p' (stored_events env request db.log.manifest.database_id p events bodies index)
unfolding build_events
build_events-Built crc env request db [] bodies index p p' h =
    let same : p ≡ p' = ok-injective h in nothing p p' same
  where
    nothing : (p p' : Prepared) → p ≡ p' → Built p p' []
    nothing p p' e = record {
      batch_same = ap (λ k. k.batch_id) (sym e);
      stream_same = ap (λ k. k.stream) (sym e);
      previous_same = ap (λ k. k.previous) (sym e);
      first_same = ap (λ k. k.first_revision) (sym e);
      digest_same = ap (λ k. k.digest) (sym e);
      serialized_same = ap (λ k. k.serialized) (sym e);
      stored_more = ap (λ k. k.stored) (sym e) ∙ sym (append-nil p.stored);
    }
build_events-Built crc env request db (e ∷ events) [] index p p' h =
    let same : p ≡ p' = ok-injective h in
    record {
      batch_same = ap (λ k. k.batch_id) (sym same);
      stream_same = ap (λ k. k.stream) (sym same);
      previous_same = ap (λ k. k.previous) (sym same);
      first_same = ap (λ k. k.first_revision) (sym same);
      digest_same = ap (λ k. k.digest) (sym same);
      serialized_same = ap (λ k. k.serialized) (sym same);
      stored_more = ap (λ k. k.stored) (sym same) ∙ sym (append-nil p.stored);
    }
build_events-Built crc env request db (e ∷ events) (body ∷ bodies) index p p' h =
    let envelope = event_envelope env request db.log.manifest.database_id p e index in
    let digest = digest_of crc db envelope body index in
    let (u, c, h1) =
      bind-eq-ok (fail_if (id_conflicts db envelope.event_id digest p) event_id_conflict) _ h in
    let rest =
      build_events-Built crc env request db events bodies (index + 1)
        (with_event p envelope body digest) p' h1 in
    record {
      batch_same = rest.batch_same;
      stream_same = rest.stream_same;
      previous_same = rest.previous_same;
      first_same = rest.first_same;
      digest_same = rest.digest_same;
      serialized_same = rest.serialized_same;
      stored_more =
          rest.stored_more
          ∙ append_assoc p.stored ((envelope, body) ∷ []) (
              stored_events env request db.log.manifest.database_id
                (with_event p envelope body digest) events bodies (index + 1))
          ∙ ap (λ k. p.stored ++ ((envelope, body) ∷ k))
              (same_events env request db.log.manifest.database_id p
                (with_event p envelope body digest).digests
                (with_event p envelope body digest).stored events bodies (index + 1));
    }

pub length-stored_events :
    {B : Type 0} (env : Env) (request : AppendRequest B) (database : Id16) (p : Prepared)
    (events : List (NewEvent B)) (bodies : List Bytes) (index : ℕ)
    → length bodies ≡ length events
    → length (stored_events env request database p events bodies index) ≡ length events
length-stored_events env request database p [] bodies index h = refl
length-stored_events env request database p (e ∷ events) [] index h = absurd (omega (arith, h))
length-stored_events env request database p (e ∷ events) (body ∷ bodies) index h = omega (
  arith,
  length-stored_events env request database p events bodies (index + 1) (omega (arith, h)),
)

pub length-serialize_all :
    {B : Type 0} (serialize : B → Result Bytes) (events : List (NewEvent B)) (bodies : List Bytes)
    → serialize_all serialize events ≡ ok bodies
    → length bodies ≡ length events
length-serialize_all serialize [] bodies h = ap length (sym (ok-injective h))
length-serialize_all serialize (e ∷ events) bodies h =
    let (body, h1, h2) = bind-eq-ok (serialize e.body) _ h in
    let (rest, h3, h4) = bind-eq-ok (serialize_all serialize events) _ h2 in
    omega (arith, length-serialize_all serialize events rest h3, ap length (sym (ok-injective h4)))
