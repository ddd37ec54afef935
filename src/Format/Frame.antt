-- ===== src/Format/Frame.antt =====
-- salamander/src/format/mod.rs: `encode`, `frame_total_len` and `decode`, over the checksum crate.
pub mod RoundTrip
pub mod Torn
pub mod Probe
use salamander_db.Prelude.{
  ℕ, ◌+◌, ◌-◌, ◌%◌, ◌^◌, not, Option, none, some, ◌∷◌, ◌++◌, ltb, ◌==◌, if◌then◌else◌, length,
  get_or, take, drop,
}
use salamander_db.Bytes.{Bytes, to_le_bytes, from_le_bytes, slice, bytes_eq}
use salamander_db.Errors.{
  SalamanderError, Result, ok, err, fail_if, corrupt, invalid_format, ◌>>=◌, ◌>>◌,
}
use salamander_db.Format.Types.{
  frame_magic, frame_version, frame_header_len, known_flags, FrameKind, kind_code,
  frame_kind_try_from, StoredRecord, FormatLimits,
}
use salamander_db.Format.Checksum.{Crc32c}
use salamander_db.Format.Cursor.{enforce_limit}
use salamander_db.Format.Envelope.Encode.{encode_envelope}
use salamander_db.Format.Envelope.Decode.{decode_envelope}
use Prim.Native.Nat.{bit_and}

-- `flags & !KNOWN_FLAGS != 0` on a byte.
unfoldable pub validate_flags : ℕ → Result (Unit {0})
validate_flags flags =
    fail_if (not (bit_and flags (255 - known_flags) == 0))
      (invalid_format "unknown mandatory frame flags {flags:#04x}")

-- `checked_add` on a 64-bit `usize`.
abbrev pub checked_add : ℕ → ℕ → Option ℕ
checked_add a b = if ltb (a + b) (2 ^ 64) then some (a + b) else none

abbrev pub ok_or_else {ℓ} : {A : Type ℓ} → Option A → SalamanderError → Result A
ok_or_else none e = err e
ok_or_else (some a) e = ok a

abbrev pub and_then {ℓ κ} : {A : Type ℓ} {B : Type κ} → Option A → (A → Option B) → Option B
and_then none f = none
and_then (some a) f = f a

abbrev pub total_len : ℕ → ℕ → Result ℕ
total_len envelope_len payload_len =
    ok_or_else
      (and_then (checked_add frame_header_len envelope_len) (λ n. checked_add n payload_len))
      (invalid_format "frame length overflow")

module _ (crc : Crc32c) where
  -- The checksum skips its own field, bytes 24 to 28.
  unfoldable pub frame_crc : Bytes → ℕ
  frame_crc bytes = crc.crc32c_append (crc.crc32c (take 24 bytes)) (drop 28 bytes)

  -- `out` before the checksum is written.
  abbrev pub unsealed : StoredRecord → Bytes → Bytes
  unsealed record_ envelope =
      frame_magic
      ++ (to_le_bytes 2 frame_version
          ++ (kind_code record_.kind
              ∷ record_.flags
              ∷ (to_le_bytes 4 (length envelope % 2 ^ 32)
                  ++ (to_le_bytes 4 (length record_.payload % 2 ^ 32)
                      ++ (to_le_bytes 8 record_.position
                          ++ (to_le_bytes 4 0
                              ++ (to_le_bytes 4 0 ++ (envelope ++ record_.payload))))))))

  -- `out[24..28].copy_from_slice(&crc.to_le_bytes())`
  abbrev pub seal : Bytes → Bytes
  seal out = take 24 out ++ (to_le_bytes 4 (frame_crc out) ++ drop 28 out)

  unfoldable pub encode : StoredRecord → FormatLimits → Result Bytes
  encode record_ limits = do
    validate_flags record_.flags
    enforce_limit "payload bytes" (length record_.payload) limits.max_payload_bytes
    envelope ← encode_envelope record_.envelope limits
    enforce_limit "envelope bytes" (length envelope) limits.max_envelope_bytes
    ok (seal (unsealed record_ envelope))

-- The probe of the streaming reader: how many bytes the frame at the front spans.
unfoldable pub frame_total_len : Bytes → FormatLimits → Result (Option ℕ)
frame_total_len buf limits = if ltb (length buf) frame_header_len then ok none else do
  fail_if (not (bytes_eq (slice buf 0 4) frame_magic)) (invalid_format "bad v2 frame magic")
  fail_if (not (from_le_bytes (slice buf 4 6) == frame_version))
      (invalid_format "unsupported frame version {version}")
  kind ← frame_kind_try_from (get_or buf 6 0)
  validate_flags (get_or buf 7 0)
  let envelope_len = from_le_bytes (slice buf 8 12)
  let payload_len = from_le_bytes (slice buf 12 16)
  enforce_limit "envelope bytes" envelope_len limits.max_envelope_bytes
  enforce_limit "payload bytes" payload_len limits.max_payload_bytes
  total ← total_len envelope_len payload_len
  ok (some total)

module _ (crc : Crc32c) where
  -- `decode` from the checksum test on, once the whole frame is there.
  unfoldable pub decode_body :
      Bytes → FormatLimits → FrameKind → ℕ → ℕ → Result (Option (StoredRecord × ℕ))
  decode_body buf limits kind envelope_len total = do
    let position = from_le_bytes (slice buf 16 24)
    fail_if (not (from_le_bytes (slice buf 24 28) == frame_crc crc (take total buf))) (
        corrupt position
          "v2 crc mismatch: stored {stored_crc:#010x}, computed {computed_crc:#010x}")
    let envelope_end = frame_header_len + envelope_len
    envelope ← decode_envelope (slice buf frame_header_len envelope_end) limits
    ok (
        some (
          record {
            kind = kind;
            flags = get_or buf 7 0;
            position = position;
            envelope = envelope;
            payload = slice buf envelope_end total;
          },
          total,
        ))

  unfoldable pub decode : Bytes → FormatLimits → Result (Option (StoredRecord × ℕ))
  decode buf limits = if ltb (length buf) frame_header_len then ok none else do
    fail_if (not (bytes_eq (slice buf 0 4) frame_magic)) (invalid_format "bad v2 frame magic")
    fail_if (not (from_le_bytes (slice buf 4 6) == frame_version))
        (invalid_format "unsupported frame version {version}")
    kind ← frame_kind_try_from (get_or buf 6 0)
    validate_flags (get_or buf 7 0)
    let envelope_len = from_le_bytes (slice buf 8 12)
    let payload_len = from_le_bytes (slice buf 12 16)
    enforce_limit "envelope bytes" envelope_len limits.max_envelope_bytes
    enforce_limit "payload bytes" payload_len limits.max_payload_bytes
    fail_if (not (from_le_bytes (slice buf 28 32) == 0))
        (invalid_format "nonzero reserved frame header field")
    total ← total_len envelope_len payload_len
    if ltb (length buf) total then ok none else decode_body buf limits kind envelope_len total
