-- ===== src/Bytes/LittleEndian.antt =====
-- `to_le_bytes` and `from_le_bytes` of the unsigned integers and of `i64`.
use salamander_db.Prelude.{
  ℕ, zero, suc, ◌+◌, ◌-◌, ◌*◌, ◌/◌, ◌%◌, ◌^◌, ◌<◌, ◌≡◌, refl, ap, List, [], ◌∷◌, arith, ltb, length,
  if◌then◌else◌, All, take, drop, ◌++◌, ◌≤◌, drop-append_length, take-append_length, drop-append_le,
  take-append_le, length-drop,
}
use native.Mathlib.Nat.{pow-suc}

abbrev pub Bytes : Type 0
Bytes = List ℕ

abbrev pub IsByte : ℕ → Type 0
IsByte b = b < 256

-- The `k` bytes of `v`, lowest first.
abbrev pub to_le_bytes : ℕ → ℕ → Bytes
to_le_bytes zero v = []
to_le_bytes (suc k) v = v % 256 ∷ to_le_bytes k (v / 256)

abbrev pub from_le_bytes : Bytes → ℕ
from_le_bytes [] = 0
from_le_bytes (b ∷ bs) = b + 256 * from_le_bytes bs

-- `bytes[a..b]`
abbrev pub slice : Bytes → ℕ → ℕ → Bytes
slice xs a b = take (b - a) (drop a xs)

pub length-to_le_bytes : (k v : ℕ) → length (to_le_bytes k v) ≡ k
length-to_le_bytes zero v = refl
length-to_le_bytes (suc k) v = ap suc (length-to_le_bytes k (v / 256))

pub from_le_bytes-to_le_bytes : (k v : ℕ) → v < 256 ^ k → from_le_bytes (to_le_bytes k v) ≡ v
from_le_bytes-to_le_bytes zero v h = omega arith
from_le_bytes-to_le_bytes (suc k) v h =
    let p : 256 ^ suc k ≡ 256 ^ k * 256 = pow-suc 256 k in
    omega (arith, p, from_le_bytes-to_le_bytes k (v / 256) (omega (arith, p)))

-- What is read from `k` bytes fits `k` bytes.
pub from_le_bytes-lt : (bs : Bytes) → All IsByte bs → from_le_bytes bs < 256 ^ length bs
from_le_bytes-lt [] h = omega arith
from_le_bytes-lt (b ∷ bs) h =
    let p : 256 ^ suc (length bs) ≡ 256 ^ length bs * 256 = pow-suc 256 (length bs) in
    omega (arith, p, from_le_bytes-lt bs h.1)

pub to_le_bytes-IsByte : (k v : ℕ) → All IsByte (to_le_bytes k v)
to_le_bytes-IsByte zero v = tt
to_le_bytes-IsByte (suc k) v = (omega arith, to_le_bytes-IsByte k (v / 256))

-- `negsuc n` is -(n + 1).
pub data ℤ : Type 0 where
  pos : ℕ → ℤ
  negsuc : ℕ → ℤ

-- The range of `i64`.
abbrev pub IsI64 : ℤ → Type 0
IsI64 (pos n) = n < 2 ^ 63
IsI64 (negsuc n) = n < 2 ^ 63

-- Two's complement in 64 bits.
abbrev pub i64_bits : ℤ → ℕ
i64_bits (pos n) = n
i64_bits (negsuc n) = 2 ^ 64 - 1 - n

abbrev pub i64_of_bits : ℕ → ℤ
i64_of_bits w = if ltb w (2 ^ 63) then pos w else negsuc (2 ^ 64 - 1 - w)

pub i64_of_bits-i64_bits : (z : ℤ) → IsI64 z → i64_of_bits (i64_bits z) ≡ z
i64_of_bits-i64_bits (pos n) h = ground arith
i64_of_bits-i64_bits (negsuc n) h = ground arith

pub i64_bits-lt : (z : ℤ) → IsI64 z → i64_bits z < 2 ^ 64
i64_bits-lt (pos n) h = omega arith
i64_bits-lt (negsuc n) h = omega arith

-- The middle of three parts.
pub slice-append :
    (xs ys zs : Bytes) (a b : ℕ)
    → a ≡ length xs
    → b ≡ a + length ys
    → slice (xs ++ (ys ++ zs)) a b ≡ ys
slice-append xs ys zs a b ha hb =
    let e : b - a ≡ length ys = omega arith in
    rw (e, ha, drop-append_length xs (ys ++ zs)) (take-append_length ys zs)

-- Bytes behind the slice do not change it.
pub slice-append_le :
    (xs ys : Bytes) (a b : ℕ) → b ≤ length xs → a ≤ b → slice (xs ++ ys) a b ≡ slice xs a b
slice-append_le xs ys a b h k =
    rw (drop-append_le a xs ys (omega arith))
      (take-append_le (b - a) (drop a xs) ys (omega (arith, length-drop a xs)))
