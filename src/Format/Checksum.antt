-- ===== src/Format/Checksum.antt =====
-- The crate `crc32c`, which the sources call and do not hold, as a parameter.
use salamander_db.Prelude.{ℕ, ◌+◌, ◌*◌, ◌%◌, ◌^◌, ◌<◌, ◌≡◌, refl, [], ◌∷◌, ◌++◌, arith}
use salamander_db.Bytes.{Bytes}

pub record Crc32c : Type 0 where
  pub crc32c : Bytes → ℕ
  pub crc32c_append : ℕ → Bytes → ℕ
  -- Both return a `u32`.
  pub crc32c-lt : (bs : Bytes) → crc32c bs < 2 ^ 32
  pub crc32c_append-lt : (c : ℕ) (bs : Bytes) → c < 2 ^ 32 → crc32c_append c bs < 2 ^ 32
  -- `crc32c_append` goes on where `crc32c` stopped.
  pub crc32c_append-crc32c : (a b : Bytes) → crc32c_append (crc32c a) b ≡ crc32c (a ++ b)

-- A checksum that meets the interface, to run the model with.
abbrev pub mix : ℕ → Bytes → ℕ
mix c [] = c
mix c (b ∷ bs) = mix ((c * 31 + b + 1) % 2 ^ 32) bs

pub mix-append : (c : ℕ) (a b : Bytes) → mix (mix c a) b ≡ mix c (a ++ b)
mix-append c [] b = refl
mix-append c (x ∷ a) b = mix-append ((c * 31 + x + 1) % 2 ^ 32) a b

pub mix-lt : (c : ℕ) (bs : Bytes) → c < 2 ^ 32 → mix c bs < 2 ^ 32
mix-lt c [] h = h
mix-lt c (b ∷ bs) h = mix-lt ((c * 31 + b + 1) % 2 ^ 32) bs (omega arith)

abbrev pub mixing : Crc32c
mixing = record {
  crc32c = mix 0;
  crc32c_append = mix;
  crc32c-lt = λ bs. mix-lt 0 bs (omega arith);
  crc32c_append-lt = mix-lt;
  crc32c_append-crc32c = mix-append 0;
}
