-- ===== src/Errors.antt =====
-- salamander/src/error.rs: the error type of the crate and its `Result`.
-- A message is its format string as it stands in the source; interpolated values that the enum
-- does not carry as fields of its own are left out.
use salamander_db.Prelude.{ℕ, String, ◌⊎◌, inl, inr, ◌≡◌, refl, Bool, true, false}
use salamander_db.Bytes.{Bytes}

pub data SalamanderError : Type 0 where
  invalid_argument : String → SalamanderError
  io : String → SalamanderError
  corrupt : ℕ → String → SalamanderError
  offset_beyond_head : ℕ → SalamanderError
  position_unavailable : ℕ → ℕ → ℕ → Bool → SalamanderError
  manifest : String → SalamanderError
  unsupported_format : ℕ → ℕ → SalamanderError
  unsupported_storage_format : ℕ → ℕ → SalamanderError
  invalid_segment_name : Bytes → SalamanderError
  namespace_exists : Bytes → SalamanderError
  locked : Bytes → SalamanderError
  serialization : String → SalamanderError
  invalid_format : String → SalamanderError
  codec : String → SalamanderError
  resource_limit : String → ℕ → ℕ → SalamanderError
  migration : String → SalamanderError
  migration_incomplete : Bytes → SalamanderError
  revision_conflict : SalamanderError
  event_id_conflict : SalamanderError
  idempotency_conflict : SalamanderError
  batch_id_conflict : SalamanderError
  branch_not_found : Bytes → SalamanderError
  branch_exists : Bytes → SalamanderError
  branch_archived : Bytes → SalamanderError
  invalid_branch_ancestry : String → SalamanderError
  not_batch_boundary : ℕ → SalamanderError

-- `std::result::Result` at this error type.
pub data Result {κ} (T : Type κ) : Type κ where
  err : SalamanderError → Result T
  ok : T → Result T

pub ok-injective {κ} : {T : Type κ} {s t : T} → ok s ≡ ok t → s ≡ t
ok-injective h = cc

-- `if bad { return Err(e); }`
abbrev pub fail_if : Bool → SalamanderError → Result (Unit {0})
fail_if false e = ok tt
fail_if true e = err e

-- The `?` operator: the rest of the body waits for the value of `r`.
infixl 5 ◌>>=◌ ◌>>◌
abbrev pub ◌>>=◌ {κ μ} : {T : Type κ} {U : Type μ} → Result T → (T → Result U) → Result U
err e >>= rest = err e
ok t >>= rest = rest t

-- The same for a call whose value is not used.
abbrev pub ◌>>◌ {μ} : {U : Type μ} → Result (Unit {0}) → Result U → Result U
r >> rest = r >>= (λ done. rest)

-- Where the whole body returned `Ok`, so did the first call.
module _ {κ μ} {T : Type κ} {U : Type μ} where
  pub bind-eq-ok :
      (r : Result T) (rest : T → Result U) {u : U}
      → (r >>= rest) ≡ ok u
      → (t : T) × (r ≡ ok t) × (rest t ≡ ok u)
  bind-eq-ok (err e) rest h = cc
  bind-eq-ok (ok t) rest h = (t, refl, h)

pub Result-cases {ℓ} :
    {A : Type ℓ} (r : Result A) → ((e : SalamanderError) × (r ≡ err e)) ⊎ ((x : A) × (r ≡ ok x))
Result-cases (err e) = inl (e, refl)
Result-cases (ok x) = inr (x, refl)
