-- ===== src/Db/Planned.antt =====
-- salamander/src/db.rs: what a batch that is ready to be written satisfies.
use salamander_db.Prelude.{
  ℕ, ◌≡◌, refl, ◌≢◌, inl, inr, Bool, true, false, not, Option, none, some, List, ◌==◌,
  if◌then◌else◌, Bool-cases, length,
}
use salamander_db.Bytes.{Bytes}
use salamander_db.Errors.{
  SalamanderError, Result, ok, fail_if, batch_id_conflict, bind-eq-ok, ok-injective,
}
use salamander_db.Format.Types.{Id16}
use salamander_db.Format.Checksum.{Crc32c}
use salamander_db.Branch.{get}
use salamander_db.Stream.{AppendRequest, AppendReceipt, validate_request, revision, batch_receipt}
use salamander_db.Db.{Db, validate_expected, matches}
use salamander_db.Db.Digest.{request_fingerprint}
use salamander_db.Db.Plan.{
  require_original, other_id, Env, Prepared, Plan, answer, write, serialize_all, require_branch,
  key_answer, is_some, supplied_ids, any_known, build_events, plan_known, plan_new, start,
  plan_write, answered, plan_append, find_original,
}
use mathlib.Core.Path.{subst}
use salamander_db.Db.Built.{stored_events, Built, build_events-Built, length-serialize_all}

-- What is known of a call whose plan is to write `p`.
pub record Planned {B V : Type 0} (crc : Crc32c) (serialize : B → Result Bytes) (env : Env)
    (request : AppendRequest B) (supplied : Option Id16) (db : Db V) (p : Prepared) : Type 0 where
  pub valid : validate_request request ≡ ok tt
  pub open_branch : require_branch (get request.branch db.branches) request.branch ≡ ok tt
  pub bodies : List Bytes
  pub serialized : serialize_all serialize request.events ≡ ok bodies
  pub as_many : length bodies ≡ length request.events
  pub unanswered : key_answer db request.branch request.idempotency_key ≡ none
  pub expected : matches request.expected (revision request.branch request.stream db.catalog) ≡ true
  pub built :
      Built (start env request supplied db bodies (request_fingerprint crc request bodies)) p (
        stored_events env request db.log.manifest.database_id
          (start env request supplied db bodies (request_fingerprint crc request bodies))
          request.events
          bodies
          0)
  pub made :
      build_events crc env request db request.events bodies 0
        (start env request supplied db bodies (request_fingerprint crc request bodies))
      ≡ ok p
  pub new_batch : batch_receipt p.batch_id db.catalog ≡ none

fail_if-false : (b : Bool) (e : SalamanderError) (t : Unit {0}) → fail_if b e ≡ ok t → b ≡ false
fail_if-false true e t h = cc
fail_if-false false e t h = refl

is_some-false {ℓ} : {A : Type ℓ} (o : Option A) → is_some o ≡ false → o ≡ none
is_some-false none h = refl
is_some-false (some x) h = cc

plan_known-write :
    {B V : Type 0} (request : AppendRequest B) (supplied : Option Id16) (db : Db V) (p q : Prepared)
    → plan_known request supplied db p ≢ ok (write q)
unfolding plan_known
plan_known-write request supplied db p q h =
    let (found, h1, h2) =
      bind-eq-ok (find_original db (supplied_ids request.events) p.digests none) _ h in
    let (original, h3, h4) = bind-eq-ok (require_original found) _ h2 in
    let (u, h5, h6) =
      bind-eq-ok (fail_if (other_id supplied original.batch_id) batch_id_conflict) _ h4 in
    apart original q (ok-injective h6)
  where
    apart : (original : AppendReceipt) (p : Prepared) → answer original ≡ write p → ⊥
    apart original p e = absurd (cc e)

plan_new-write :
    {V : Type 0} (db : Db V) (p q : Prepared)
    → plan_new db p ≡ ok (write q)
    → (p ≡ q) × (batch_receipt p.batch_id db.catalog ≡ none)
unfolding plan_new
plan_new-write db p q h =
    let (u, h1, h2) =
      bind-eq-ok (fail_if (is_some (batch_receipt p.batch_id db.catalog)) batch_id_conflict) _ h in
    (cc h2, is_some-false _ (fail_if-false _ _ u h1))

-- The last choice of `plan_write`.
chosen :
    (known : Bool) (x y : Result Plan) (q : Prepared)
    → (if known then x else y) ≡ ok (write q)
    → x ≢ ok (write q)
    → y ≡ ok (write q)
chosen true x y q h n = absurd (n h)
chosen false x y q h n = h

unanswered_write :
    (digest : ℕ) (o : Option (ℕ × AppendReceipt)) (rest : Result Plan) (p : Prepared)
    → answered digest o rest (λ receipt. ok (answer receipt)) ≡ ok (write p)
    → (o ≡ none) × (rest ≡ ok (write p))
unanswered_write digest none rest p h = (refl, h)
unanswered_write digest (some (old, receipt)) rest p h = elim (Bool-cases (old == digest)) [
  | inl t ↦ absurd (cc (rw t at h))
  | inr f ↦ absurd (cc (rw f at h))
]

pub plan_append-Planned :
    {B V : Type 0} (crc : Crc32c) (serialize : B → Result Bytes) (env : Env)
    (request : AppendRequest B) (supplied : Option Id16) (db : Db V) (p : Prepared)
    → plan_append crc serialize env request supplied db ≡ ok (write p)
    → Planned crc serialize env request supplied db p
unfolding plan_append plan_write validate_expected
plan_append-Planned crc serialize env request supplied db p h =
    let (u1, e1, h1) = bind-eq-ok (validate_request request) _ h in
    let (u2, e2, h2) =
      bind-eq-ok (require_branch (get request.branch db.branches) request.branch) _ h1 in
    let (bodies, e3, h3) = bind-eq-ok (serialize_all serialize request.events) _ h2 in
    let digest = request_fingerprint crc request bodies in
    let (none_there, h4) =
      unanswered_write digest (key_answer db request.branch request.idempotency_key)
        (plan_write crc env request supplied db bodies digest) p h3 in
    let (u5, e5, h5) =
      bind-eq-ok
        (validate_expected request.expected (revision request.branch request.stream db.catalog)) _
        h4 in
    let (made, e6, h6) =
      bind-eq-ok
        (build_events crc env request db request.events bodies 0
          (start env request supplied db bodies digest))
        _ h5 in
    let new =
      chosen (any_known db (supplied_ids request.events)) (plan_known request supplied db made)
        (plan_new db made) p h6 (plan_known-write request supplied db made p) in
    let (same, fresh) = plan_new-write db made p new in
    subst (Planned crc serialize env request supplied db) same (record {
      valid = e1;
      open_branch = e2;
      bodies = bodies;
      serialized = e3;
      as_many = length-serialize_all serialize request.events bodies e3;
      unanswered = none_there;
      expected = not-false _ (fail_if-false _ _ u5 e5);
      built =
          build_events-Built crc env request db request.events bodies 0
            (start env request supplied db bodies digest) made e6;
      made = e6;
      new_batch = fresh;
    })
  where
    not-false : (b : Bool) → not b ≡ false → b ≡ true
    not-false true e = refl
    not-false false e = cc e
