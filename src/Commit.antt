-- ===== src/Commit.antt =====
-- salamander/src/commit.rs: the group-commit policy. A `Duration` is its nanoseconds.
mod Runs
use salamander_db.Prelude.{
  ℕ, ◌/◌, ◌%◌, ◌^◌, ◌≤◌, ◌≡◌, refl, ◌↔◌, ◌⊎◌, inl, inr, Bool, true, false, ◌||◌, Option, none, some,
  arith, leb, leb→le, le→leb,
}

pub record CommitPolicy : Type 0 where
  pub every_bytes : Option ℕ
  pub every_count : Option ℕ
  pub every_millis : Option ℕ

abbrev pub manual : CommitPolicy
manual = record { every_bytes = none; every_count = none; every_millis = none }

abbrev pub every_bytes : ℕ → CommitPolicy
every_bytes bytes = record { every_bytes = some bytes; every_count = none; every_millis = none }

abbrev pub every_count : ℕ → CommitPolicy
every_count count = record { every_bytes = none; every_count = some count; every_millis = none }

abbrev pub every_millis : ℕ → CommitPolicy
every_millis millis = record { every_bytes = none; every_count = none; every_millis = some millis }

abbrev pub and_bytes : ℕ → CommitPolicy → CommitPolicy
and_bytes bytes p = record p { every_bytes = some bytes }

abbrev pub and_count : ℕ → CommitPolicy → CommitPolicy
and_count count p = record p { every_count = some count }

abbrev pub and_millis : ℕ → CommitPolicy → CommitPolicy
and_millis millis p = record p { every_millis = some millis }

abbrev crossed : Option ℕ → ℕ → Bool
crossed none value = false
crossed (some t) value = leb t value

-- `elapsed.as_millis() as u64` drops what is above 64 bits.
unfoldable pub should_commit : CommitPolicy → ℕ → ℕ → ℕ → Bool
should_commit p bytes count elapsed =
    crossed p.every_bytes bytes
    || crossed p.every_count count
    || crossed p.every_millis (elapsed / 1000000 % 2 ^ 64)

-- A threshold that is set and reached.
abbrev pub IsCrossed : Option ℕ → ℕ → Type 0
IsCrossed threshold value = (t : ℕ) × (threshold ≡ some t) × (t ≤ value)

crossed-IsCrossed :
    (threshold : Option ℕ) (value : ℕ)
    → (crossed threshold value ≡ true) ↔ IsCrossed threshold value
crossed-IsCrossed none value = (λ h. absurd (cc h), λ c. absurd (cc (c.1)))
crossed-IsCrossed (some t) value = (
  λ h. (t, refl, leb→le t value h),
  λ c. let same : t ≡ c.0 = cc (c.1) in le→leb t value (omega (arith, c.2, same)),
)

-- A commit is due exactly when one of the thresholds that are set is reached: the byte count, the
-- event count, or the whole milliseconds since the last commit, taken modulo 2^64.
pub should_commit_iff :
    (p : CommitPolicy) (bytes count elapsed : ℕ)
    → (should_commit p bytes count elapsed ≡ true) ↔ (
        IsCrossed p.every_bytes bytes
        ⊎ (IsCrossed p.every_count count ⊎ IsCrossed p.every_millis (elapsed / 1000000 % 2 ^ 64)))
unfolding should_commit
should_commit_iff p bytes count elapsed =
    go (crossed p.every_bytes bytes) (crossed p.every_count count)
      (crossed p.every_millis (elapsed / 1000000 % 2 ^ 64)) (crossed-IsCrossed p.every_bytes bytes)
      (crossed-IsCrossed p.every_count count)
      (crossed-IsCrossed p.every_millis (elapsed / 1000000 % 2 ^ 64))
  where
    go :
        {X Y Z : Type 0} (a b c : Bool)
        → ((a ≡ true) ↔ X)
        → ((b ≡ true) ↔ Y)
        → ((c ≡ true) ↔ Z)
        → ((a || b || c) ≡ true) ↔ (X ⊎ (Y ⊎ Z))
    go true b c x y z = (λ h. inl (x.0 refl), λ s. refl)
    go false true c x y z = (λ h. inr (inl (y.0 refl)), λ s. refl)
    go false false c x y z = (
      λ h. inr (inr (z.0 h)),
      λ s. elim s [
        | inl u ↦ absurd (cc (x.1 u))
        | inr s' ↦ elim s' [ inl v ↦ absurd (cc (y.1 v)) | inr w ↦ z.1 w ]
      ],
    )
