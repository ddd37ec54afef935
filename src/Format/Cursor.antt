-- ===== src/Format/Cursor.antt =====
-- salamander/src/format/mod.rs: `Cursor`, the reader over the bytes of an envelope, and the limit
-- checks. `&mut self` is state passing: an action takes the remaining bytes and returns the new ones.
pub mod Reads
use salamander_db.Prelude.{ℕ, ◌-◌, ◌^◌, String, ◌++◌, ltb, if◌then◌else◌, length, take, drop}
use salamander_db.Bytes.{Bytes, ℤ, to_le_bytes, from_le_bytes, i64_of_bits}
use salamander_db.Errors.{Result, ok, err, invalid_format, resource_limit}

abbrev pub Cursor : Type 0 → Type 0
Cursor A = Bytes → Result (A × Bytes)

abbrev continue : {A B : Type 0} → Result (A × Bytes) → (A → Cursor B) → Result (B × Bytes)
continue (ok (a, remaining)) f = f a remaining
continue (err e) f = err e

infixl 5 ◌>>=◌ ◌>>◌
abbrev pub ◌>>=◌ : {A B : Type 0} → Cursor A → (A → Cursor B) → Cursor B
◌>>=◌ m f remaining = continue (m remaining) f

abbrev pub ◌>>◌ : {A B : Type 0} → Cursor A → Cursor B → Cursor B
m >> k = m >>= λ _. k

abbrev pub pure : {A : Type 0} → A → Cursor A
pure a remaining = ok (a, remaining)

-- A fallible computation that does not read.
abbrev pub lift : {A : Type 0} → Result A → Cursor A
lift (ok a) remaining = ok (a, remaining)
lift (err e) remaining = err e

unfoldable pub enforce_limit : String → ℕ → ℕ → Result (Unit {0})
enforce_limit resource actual maximum =
    if ltb maximum actual then err (resource_limit resource actual maximum) else ok tt

-- `Cursor::take`
unfoldable pub cursor_take : ℕ → Cursor Bytes
cursor_take len remaining =
    if ltb (length remaining) len
    then err (invalid_format "truncated v2 envelope")
    else ok (take len remaining, drop len remaining)

unfoldable pub cursor_u16 : Cursor ℕ
unfolding cursor_take
cursor_u16 = do bytes ← cursor_take 2; pure (from_le_bytes bytes)

unfoldable pub cursor_u32 : Cursor ℕ
unfolding cursor_take
cursor_u32 = do bytes ← cursor_take 4; pure (from_le_bytes bytes)

unfoldable pub cursor_u64 : Cursor ℕ
unfolding cursor_take
cursor_u64 = do bytes ← cursor_take 8; pure (from_le_bytes bytes)

unfoldable pub cursor_i64 : Cursor ℤ
unfolding cursor_take
cursor_i64 = do bytes ← cursor_take 8; pure (i64_of_bits (from_le_bytes bytes))

unfoldable pub cursor_short_bytes : ℕ → Cursor Bytes
unfolding cursor_u16 enforce_limit
cursor_short_bytes maximum = do
  len ← cursor_u16
  lift (enforce_limit "short byte string" len maximum)
  cursor_take len

unfoldable pub write_short_bytes : Bytes → Result Bytes
write_short_bytes bytes =
    if ltb (2 ^ 16 - 1) (length bytes)
    then err (resource_limit "short byte string" (length bytes) (2 ^ 16 - 1))
    else ok (to_le_bytes 2 (length bytes) ++ bytes)
