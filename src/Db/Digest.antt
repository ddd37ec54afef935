-- ===== src/Db/Digest.antt =====
-- salamander/src/db.rs and salamander/src/format/mod.rs: fingerprints, derived ids and timestamps.
use salamander_db.Prelude.{
  ℕ, zero, suc, ◌+◌, ◌-◌, ◌*◌, ◌/◌, ◌%◌, ◌^◌, min, Option, none, some, List, [], ◌∷◌, ◌++◌, ltb,
  if◌then◌else◌,
}
use salamander_db.Bytes.{Bytes, to_le_bytes, ℤ, i64_of_bits, codes, pos, negsuc}
use Prim.Native.Nat.{bit_xor}
use salamander_db.Format.Types.{Id16, id_zero, Metadata}
use salamander_db.Format.Checksum.{Crc32c}
use salamander_db.Stream.{ExpectedRevision, any, no_stream, exact, NewEvent, AppendRequest}

-- The decimal digits of a `u64`, which has at most 20.
abbrev digits : ℕ → ℕ → Bytes → Bytes
digits zero n acc = acc
digits (suc fuel) n acc =
    let more : Bytes = (48 + n % 10) ∷ acc in
    let rest : Bytes = digits fuel (n / 10) more in if ltb n 10 then more else rest

-- `{:?}`
abbrev debug_expected : ExpectedRevision → Bytes
debug_expected any = codes "Any"
debug_expected no_stream = codes "NoStream"
debug_expected (exact n) = codes "Exact(StreamRevision(" ++ (digits 20 n [] ++ codes "))")

abbrev all_entries : Metadata → Bytes
all_entries [] = []
all_entries ((key, value) ∷ m) = key ++ (value ++ all_entries m)

abbrev id_or_zero : Option Id16 → Id16
id_or_zero none = id_zero
id_or_zero (some id) = id

abbrev event_bytes : {B : Type 0} → List (NewEvent B) → List Bytes → Bytes
event_bytes [] bodies = []
event_bytes (event ∷ events) [] = []
event_bytes (event ∷ events) (body ∷ bodies) =
    id_or_zero event.event_id
    ++ (event.event_type
        ++ (to_le_bytes 4 event.schema_version
            ++ (all_entries event.metadata ++ (body ++ event_bytes events bodies))))

unfoldable pub request_fingerprint : {B : Type 0} → Crc32c → AppendRequest B → List Bytes → ℕ
request_fingerprint crc request bodies = crc.crc32c (
    request.branch
    ++ (request.stream ++ (debug_expected request.expected ++ event_bytes request.events bodies)))

abbrev derive_left : ℕ → Bytes → ℕ
derive_left left [] = left
derive_left left (byte ∷ bytes) = derive_left (bit_xor left byte * 0x100000001b3 % 2 ^ 64) bytes

-- A byte, rotated by one in 64 bits, is doubled.
abbrev derive_right : ℕ → Bytes → ℕ
derive_right right [] = right
derive_right right (byte ∷ bytes) =
    derive_right (bit_xor right (byte * 2) * 0x9e3779b185ebca87 % 2 ^ 64) bytes

unfoldable pub derive_stream_id : Id16 → Id16 → Bytes → Id16
derive_stream_id database branch name =
    to_le_bytes 8 (derive_left 0xcbf29ce484222325 (database ++ (branch ++ name)))
    ++ to_le_bytes 8 (derive_right 0x84222325cbf29ce4 (database ++ (branch ++ name)))

-- `saturating_mul(1_000_000)` of an `i64`
abbrev saturating_million : ℤ → ℤ
saturating_million (pos n) = pos (min (n * 1000000) (2 ^ 63 - 1))
saturating_million (negsuc n) = negsuc (min ((n + 1) * 1000000 - 1) (2 ^ 63 - 1))

-- `(timestamp_ms as i64).saturating_mul(1_000_000)`
unfoldable pub timestamp_nanos : ℕ → ℤ
timestamp_nanos timestamp_ms = saturating_million (i64_of_bits (timestamp_ms % 2 ^ 64))
