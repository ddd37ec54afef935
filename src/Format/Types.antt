-- ===== src/Format/Types.antt =====
-- salamander/src/format/mod.rs: identifiers, kinds, the envelope, stored records and limits.
use salamander_db.Prelude.{
  ℕ, ◌*◌, ◌^◌, ◌<◌, ◌≡◌, true, List, [], ◌∷◌, ◌==◌, if◌then◌else◌, length, All,
}
use salamander_db.Bytes.{Bytes, ℤ, IsI64, codes, is_empty, contains_nul, is_utf8, bytes_lt}
use salamander_db.Errors.{invalid_format, Result, ok, err, fail_if, ◌>>◌}

abbrev pub frame_magic : Bytes
frame_magic = codes "SDB2"

abbrev pub frame_version : ℕ
frame_version = 2

abbrev pub frame_header_len : ℕ
frame_header_len = 32

abbrev pub envelope_version : ℕ
envelope_version = 1

abbrev pub known_flags : ℕ
known_flags = 0

-- `id_type!`: 16 bytes.
abbrev pub Id16 : Type 0
Id16 = Bytes

abbrev pub id_zero : Id16
id_zero = 0 ∷ 0 ∷ 0 ∷ 0 ∷ 0 ∷ 0 ∷ 0 ∷ 0 ∷ 0 ∷ 0 ∷ 0 ∷ 0 ∷ 0 ∷ 0 ∷ 0 ∷ 0 ∷ []

abbrev pub codec_json_utf8 : ℕ
codec_json_utf8 = 1

abbrev pub codec_rust_bincode_v1 : ℕ
codec_rust_bincode_v1 = 0x8000_0001

-- `EventType::new`; the type is the bytes that it accepts.
unfoldable pub event_type_new : Bytes → Result Bytes
event_type_new value = do
  fail_if (is_empty value) (invalid_format "event type must not be empty")
  fail_if (contains_nul value) (invalid_format "event type must not contain NUL")
  ok value

-- A `BTreeMap<String, Vec<u8>>` as its entries in the order of their keys.
abbrev pub Metadata : Type 0
Metadata = List (Bytes × Bytes)

pub data FrameKind : Type 0 where
  event system batch_begin batch_commit : FrameKind

-- `kind as u8`
abbrev pub kind_code : FrameKind → ℕ
kind_code event = 1
kind_code system = 2
kind_code batch_begin = 3
kind_code batch_commit = 4

unfoldable pub frame_kind_try_from : ℕ → Result FrameKind
frame_kind_try_from value =
    if value == 1
    then ok event
    else if value == 2
    then ok system
    else if value == 3
    then ok batch_begin
    else if value == 4
    then ok batch_commit
    else err (invalid_format "unknown frame kind {other}")

pub record RecordEnvelopeV2 : Type 0 where
  pub event_id : Id16
  pub database_id : Id16
  pub branch_id : Id16
  pub stream_id : Id16
  pub stream_revision : ℕ
  pub timestamp_unix_nanos : ℤ
  pub event_type : Bytes
  pub schema_version : ℕ
  pub codec : ℕ
  pub batch_id : Id16
  pub batch_index : ℕ
  pub metadata : Metadata

-- `StoredRecord` and `OwnedStoredRecord`, which differ in who owns the payload.
pub record StoredRecord : Type 0 where
  pub kind : FrameKind
  pub flags : ℕ
  pub position : ℕ
  pub envelope : RecordEnvelopeV2
  pub payload : Bytes

pub record FormatLimits : Type 0 where
  pub max_envelope_bytes : ℕ
  pub max_payload_bytes : ℕ
  pub max_metadata_entries : ℕ
  pub max_metadata_key_bytes : ℕ
  pub max_metadata_value_bytes : ℕ
  pub max_event_type_bytes : ℕ

abbrev pub default_limits : FormatLimits
default_limits = record {
  max_envelope_bytes = 1024 * 1024;
  max_payload_bytes = 16 * 1024 * 1024;
  max_metadata_entries = 256;
  max_metadata_key_bytes = 1024;
  max_metadata_value_bytes = 64 * 1024;
  max_event_type_bytes = 1024;
}

-- The ranges that the Rust types of the limits' fields give.
pub record IsLimits (l : FormatLimits) : Type 0 where
  pub envelope_u32 : l.max_envelope_bytes < 2 ^ 32
  pub payload_u32 : l.max_payload_bytes < 2 ^ 32
  pub entries_u16 : l.max_metadata_entries < 2 ^ 16
  pub key_u16 : l.max_metadata_key_bytes < 2 ^ 16
  pub value_u32 : l.max_metadata_value_bytes < 2 ^ 32
  pub event_type_u16 : l.max_event_type_bytes < 2 ^ 16

-- The keys of a `BTreeMap` rise.
abbrev pub IsOrdered : Metadata → Type 0
IsOrdered [] = Unit
IsOrdered ((k, v) ∷ m) = All (λ e. bytes_lt k e.0 ≡ true) m × IsOrdered m

-- A `String` key is UTF-8.
abbrev pub HasTextKeys : Metadata → Type 0
HasTextKeys = All (λ e. is_utf8 e.0 ≡ true)

-- What the Rust types say of an envelope: widths, and the invariants of `EventType`, `String` and
-- `BTreeMap`.
pub record IsEnvelope (e : RecordEnvelopeV2) : Type 0 where
  pub event_id_len : length e.event_id ≡ 16
  pub database_id_len : length e.database_id ≡ 16
  pub branch_id_len : length e.branch_id ≡ 16
  pub stream_id_len : length e.stream_id ≡ 16
  pub revision_u64 : e.stream_revision < 2 ^ 64
  pub timestamp_i64 : IsI64 e.timestamp_unix_nanos
  pub event_type_text : is_utf8 e.event_type ≡ true
  pub event_type_valid : event_type_new e.event_type ≡ ok e.event_type
  pub schema_u32 : e.schema_version < 2 ^ 32
  pub codec_u32 : e.codec < 2 ^ 32
  pub batch_id_len : length e.batch_id ≡ 16
  pub batch_index_u32 : e.batch_index < 2 ^ 32
  pub metadata_ordered : IsOrdered e.metadata
  pub metadata_text : HasTextKeys e.metadata

pub record IsStored (r : StoredRecord) : Type 0 where
  pub position_u64 : r.position < 2 ^ 64
  pub envelope_valid : IsEnvelope r.envelope
