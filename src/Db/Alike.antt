-- ===== src/Db/Alike.antt =====
-- salamander/src/db.rs: handles on which a call of `append_batch_with_id` is planned alike.
use salamander_db.Errors.{◌>>=◌, ◌>>◌, Result, ok}
use mathlib.Core.Path.{fun_ext}
use salamander_db.Prelude.{
  ℕ, ◌+◌, ◌≡◌, refl, ap, ◌∙◌, inl, inr, Option, none, some, List, [], ◌∷◌, if◌then◌else◌,
  Option-cases,
}
use salamander_db.Bytes.{Bytes}
use salamander_db.Format.Types.{Id16}
use salamander_db.Format.Checksum.{Crc32c}
use salamander_db.Branch.{BranchCatalog, get}
use salamander_db.Db.Digest.{request_fingerprint}
use salamander_db.Stream.{
  NewEvent, AppendRequest, AppendReceipt, StreamCatalog, event_receipt, revision, validate_request,
}
use salamander_db.Stream.Rebuild.{event_fingerprint}
use salamander_db.Db.{Db, validate_expected}
use salamander_db.Db.Plan.{
  Env, Prepared, Plan, answer, plan_append, plan_write, plan_known, plan_new, find_original,
  any_known, build_events, id_conflicts, digest_of, start, with_event, event_envelope, key_answer,
  supplied_ids, serialize_all, answered, require_branch,
}

-- The two handles plan alike: they hold the same catalogs and database id.
pub record Alike {V : Type 0} (db db' : Db V) : Type 0 where
  pub catalogs : db'.catalog ≡ db.catalog
  pub branches : db'.branches ≡ db.branches
  pub databases : db'.log.manifest.database_id ≡ db.log.manifest.database_id

module _ {B V : Type 0} (crc : Crc32c) (env : Env) (request : AppendRequest B) (db db' : Db V)
    (alike : Alike db db') where
  build_events-alike :
      (events : List (NewEvent B)) (bodies : List Bytes) (index : ℕ) (p : Prepared)
      → build_events crc env request db' events bodies index p
        ≡ build_events crc env request db events bodies index p
  unfolding build_events digest_of event_fingerprint id_conflicts
  build_events-alike [] bodies index p = refl
  build_events-alike (e ∷ events) [] index p = refl
  build_events-alike (e ∷ events) (body ∷ bodies) index p =
      rw
        (
          alike.databases,
          alike.catalogs,
          build_events-alike events bodies (index + 1) (
              with_event p (event_envelope env request db.log.manifest.database_id p e index) body (
                digest_of crc db (event_envelope env request db.log.manifest.database_id p e index)
                  body index)),
        )
        refl

module _ {V : Type 0} (db db' : Db V) (alike : Alike db db') where
  any_known-alike : (ids : List (Option Id16)) → any_known db' ids ≡ any_known db ids
  any_known-alike [] = refl
  any_known-alike (none ∷ ids) = any_known-alike ids
  any_known-alike (some id ∷ ids) = rw (alike.catalogs, any_known-alike ids) refl

  key_answer-alike :
      (branch : Id16) (key : Option Bytes) → key_answer db' branch key ≡ key_answer db branch key
  key_answer-alike branch none = refl
  key_answer-alike branch (some key) = rw alike.catalogs refl

  find_original-alike :
      (ids : List (Option Id16)) (digests : List (Id16 × ℕ)) (original : Option AppendReceipt)
      → find_original db' ids digests original ≡ find_original db ids digests original
  unfolding find_original
  find_original-alike [] digests original = refl
  find_original-alike (id ∷ ids) [] original = refl
  find_original-alike (none ∷ ids) (d ∷ digests) original = refl
  find_original-alike (some id ∷ ids) (d ∷ digests) original =
      elim (Option-cases (event_receipt id db.catalog)) [
        | inl n ↦ rw (find_original, alike.catalogs, n) refl
        | inr (found, s) ↦
            rw (find_original, alike.catalogs, s, find_original-alike ids digests (some found.1))
              refl
      ]

  plan_new-alike : (p : Prepared) → plan_new db' p ≡ plan_new db p
  unfolding plan_new
  plan_new-alike p = rw alike.catalogs refl

module _ {B V : Type 0} (crc : Crc32c) (serialize : B → Result Bytes) (env : Env)
    (request : AppendRequest B) (supplied : Option Id16) (db db' : Db V)
    (alike : Alike db db') where
  plan_known-alike :
      (p : Prepared) → plan_known request supplied db' p ≡ plan_known request supplied db p
  unfolding plan_known
  plan_known-alike p =
      rw (find_original-alike db db' alike (supplied_ids request.events) p.digests none) refl

  choice-alike :
      (p : Prepared)
      → (if any_known db' (supplied_ids request.events)
          then plan_known request supplied db' p
          else plan_new db' p)
        ≡ (if any_known db (supplied_ids request.events)
            then plan_known request supplied db p
            else plan_new db p)
  choice-alike p =
      rw
        (
          any_known-alike db db' alike (supplied_ids request.events),
          plan_known-alike p,
          plan_new-alike db db' alike p,
        )
        refl

  start-alike :
      (bodies : List Bytes) (digest : ℕ)
      → start env request supplied db' bodies digest ≡ start env request supplied db bodies digest
  start-alike bodies digest = rw (alike.catalogs, alike.databases) refl

  plan_write-alike :
      (bodies : List Bytes) (digest : ℕ)
      → plan_write crc env request supplied db' bodies digest
        ≡ plan_write crc env request supplied db bodies digest
  unfolding plan_write
  plan_write-alike bodies digest =
      let chosen : Db V → Prepared → Result Plan = λ d p.
        if any_known d (supplied_ids request.events)
        then plan_known request supplied d p
        else plan_new d p in
      let after : StreamCatalog → Result Prepared → (Prepared → Result Plan) → Result Plan =
        λ c b k.
          validate_expected request.expected (revision request.branch request.stream c)
          >> (b >>= k) in
      let begun : Prepared = start env request supplied db' bodies digest in
      ap
        (λ c. after c (build_events crc env request db' request.events bodies 0 begun) (chosen db'))
        alike.catalogs
      ∙ ap (λ b. after db.catalog b (chosen db'))
          (build_events-alike crc env request db db' alike request.events bodies 0 begun)
      ∙ ap
          (λ p.
            after db.catalog (build_events crc env request db request.events bodies 0 p)
              (chosen db'))
          (start-alike bodies digest)
      ∙ ap
          (λ k.
            after db.catalog
              (build_events crc env request db request.events bodies 0
                (start env request supplied db bodies digest))
              k)
          (fun_ext choice-alike)

  pub plan_append-alike :
      plan_append crc serialize env request supplied db'
      ≡ plan_append crc serialize env request supplied db
  unfolding plan_append
  plan_append-alike =
      let after : BranchCatalog → (List Bytes → Result Plan) → Result Plan = λ branches k.
        validate_request request
        >> (require_branch (get request.branch branches) request.branch
            >> (serialize_all serialize request.events >>= k)) in
      let rest : Db V → List Bytes → Result Plan = λ d bodies.
        answered (request_fingerprint crc request bodies)
          (key_answer d request.branch request.idempotency_key)
          (plan_write crc env request supplied d bodies (request_fingerprint crc request bodies))
          (λ receipt. ok (answer receipt)) in
      let planned : (bodies : List Bytes) → rest db' bodies ≡ rest db bodies = λ bodies.
        ap
          (λ o.
            answered (request_fingerprint crc request bodies) o
              (plan_write crc env request supplied db' bodies
                (request_fingerprint crc request bodies))
              (λ receipt. ok (answer receipt)))
          (key_answer-alike db db' alike request.branch request.idempotency_key)
        ∙ ap
            (λ w.
              answered (request_fingerprint crc request bodies)
                (key_answer db request.branch request.idempotency_key) w
                (λ receipt. ok (answer receipt)))
            (plan_write-alike bodies (request_fingerprint crc request bodies)) in
      ap (λ b. after b (rest db')) alike.branches ∙ ap (λ k. after db.branches k) (fun_ext planned)
