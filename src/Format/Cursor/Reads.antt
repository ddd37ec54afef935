-- ===== src/Format/Cursor/Reads.antt =====
-- What each read of `Cursor` returns on the bytes that the matching write appended.
use salamander_db.Prelude.{
  ℕ, ◌^◌, ◌≤◌, ◌<◌, String, ◌≡◌, refl, ◌++◌, append_assoc, arith, ltb-false, length, length-append,
  take-append_length, drop-append_length,
}
use salamander_db.Bytes.{
  Bytes, to_le_bytes, from_le_bytes-to_le_bytes, ℤ, IsI64, i64_bits, i64_of_bits-i64_bits,
  i64_bits-lt,
}
use salamander_db.Errors.{ok}
use salamander_db.Format.Cursor.{
  enforce_limit, cursor_take, cursor_u16, cursor_u32, cursor_u64, cursor_i64, cursor_short_bytes,
  write_short_bytes,
}

pub cursor_take_lem :
    (n : ℕ) (xs rest : Bytes) → length xs ≡ n → cursor_take n (xs ++ rest) ≡ ok (xs, rest)
unfolding cursor_take
cursor_take_lem n xs rest h = rw (← h) (
    rw (ltb-false (length (xs ++ rest)) (length xs) (omega (arith, length-append xs rest)))
      (rw (take-append_length xs rest, drop-append_length xs rest)))

pub cursor_u16_lem :
    (v : ℕ) (rest : Bytes) → v < 2 ^ 16 → cursor_u16 (to_le_bytes 2 v ++ rest) ≡ ok (v, rest)
unfolding cursor_u16
cursor_u16_lem v rest h = ground (arith, from_le_bytes-to_le_bytes 2 v)

pub cursor_u32_lem :
    (v : ℕ) (rest : Bytes) → v < 2 ^ 32 → cursor_u32 (to_le_bytes 4 v ++ rest) ≡ ok (v, rest)
unfolding cursor_u32
cursor_u32_lem v rest h = ground (arith, from_le_bytes-to_le_bytes 4 v)

pub cursor_u64_lem :
    (v : ℕ) (rest : Bytes) → v < 2 ^ 64 → cursor_u64 (to_le_bytes 8 v ++ rest) ≡ ok (v, rest)
unfolding cursor_u64
cursor_u64_lem v rest h = ground (arith, from_le_bytes-to_le_bytes 8 v)

pub cursor_i64_lem :
    (z : ℤ) (rest : Bytes)
    → IsI64 z
    → cursor_i64 (to_le_bytes 8 (i64_bits z) ++ rest) ≡ ok (z, rest)
unfolding cursor_i64
cursor_i64_lem z rest h =
    ground
      (arith, from_le_bytes-to_le_bytes 8 (i64_bits z), i64_bits-lt z h, i64_of_bits-i64_bits z h)

pub enforce_limit-eq-ok :
    (resource : String) (actual maximum : ℕ)
    → enforce_limit resource actual maximum ≡ ok tt
    → actual ≤ maximum
unfolding enforce_limit
enforce_limit-eq-ok resource actual maximum h = ground arith

pub enforce_limit_le :
    (resource : String) (actual maximum : ℕ)
    → actual ≤ maximum
    → enforce_limit resource actual maximum ≡ ok tt
unfolding enforce_limit
enforce_limit_le resource actual maximum h = ground arith

pub write_short_bytes-eq-ok :
    (bytes : Bytes) {out : Bytes}
    → write_short_bytes bytes ≡ ok out
    → (length bytes < 2 ^ 16) × (out ≡ to_le_bytes 2 (length bytes) ++ bytes)
unfolding write_short_bytes
write_short_bytes-eq-ok bytes h = ground arith

-- A short byte string within the limit is read back.
pub cursor_short_bytes_lem :
    (maximum : ℕ) (bytes rest : Bytes) {out : Bytes}
    → write_short_bytes bytes ≡ ok out
    → length bytes ≤ maximum
    → cursor_short_bytes maximum (out ++ rest) ≡ ok (bytes, rest)
unfolding cursor_short_bytes
cursor_short_bytes_lem maximum bytes rest {out} w h =
    let (fits, shape) = write_short_bytes-eq-ok bytes w in
    ground (
      arith,
      shape,
      append_assoc (to_le_bytes 2 (length bytes)) bytes rest,
      cursor_u16_lem (length bytes) (bytes ++ rest) fits,
      enforce_limit_le "short byte string" (length bytes) maximum h,
      cursor_take_lem (length bytes) bytes rest refl,
    )
