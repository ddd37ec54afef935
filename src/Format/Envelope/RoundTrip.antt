-- ===== src/Format/Envelope/RoundTrip.antt =====
-- salamander/src/format/mod.rs: `decode_envelope` reads back what `encode_envelope` wrote.
use native.Mathlib.Nat.{mod-eq_of_lt}
use salamander_db.Prelude.{
  ◌%◌, ◌^◌, ◌≤◌, ◌<◌, ◌≡◌, refl, true, [], ◌∷◌, ◌++◌, append_assoc, append-nil, arith, length,
}
use salamander_db.Bytes.{Bytes, to_le_bytes, i64_bits, is_utf8}
use salamander_db.Errors.{ok, bind-eq-ok}
use salamander_db.Format.Types.{
  envelope_version, Metadata, RecordEnvelopeV2, FormatLimits, IsLimits, IsOrdered, HasTextKeys,
  IsEnvelope,
}
use salamander_db.Format.Metadata.{validate_metadata_key, metadata_insert_last, metadata_get_last}
use salamander_db.Format.Cursor.{enforce_limit, write_short_bytes}
use salamander_db.Format.Cursor.Reads.{
  cursor_take_lem, cursor_u16_lem, cursor_u32_lem, cursor_u64_lem, cursor_i64_lem,
  enforce_limit-eq-ok, enforce_limit_le, cursor_short_bytes_lem,
}
use salamander_db.Format.Envelope.Encode.{
  encode_entry, encode_entries, envelope_fields, encode_envelope,
}
use salamander_db.Format.Envelope.Decode.{
  decode_entry, decode_entries, decode_fields, decode_envelope,
}

-- What a successful `encode_entry` has checked and written.
record EntryWritten (limits : FormatLimits) (key value out : Bytes) : Type 0 where
  short : Bytes
  key_valid : validate_metadata_key key ≡ ok tt
  key_fits : length key ≤ limits.max_metadata_key_bytes
  value_fits : length value ≤ limits.max_metadata_value_bytes
  written : write_short_bytes key ≡ ok short
  shape : out ≡ short ++ (to_le_bytes 4 (length value % 2 ^ 32) ++ value)

entry_written :
    (limits : FormatLimits) (key value out : Bytes)
    → encode_entry limits key value ≡ ok out
    → EntryWritten limits key value out
unfolding encode_entry
entry_written limits key value out h =
    let (u, valid, h1) = bind-eq-ok (validate_metadata_key key) _ h in
    let (w, kf, h2) =
      bind-eq-ok (enforce_limit "metadata key bytes" (length key) limits.max_metadata_key_bytes) _
        h1 in
    let (x, vf, h3) =
      bind-eq-ok
        (enforce_limit "metadata value bytes" (length value) limits.max_metadata_value_bytes) _
        h2 in
    let (short, ws, h4) = bind-eq-ok (write_short_bytes key) _ h3 in
    record {
      short = short;
      key_valid = valid;
      key_fits = enforce_limit-eq-ok _ _ _ kf;
      value_fits = enforce_limit-eq-ok _ _ _ vf;
      written = ws;
      shape = cc h4;
    }

decode_entry-encode_entry :
    (limits : FormatLimits) (key value rest : Bytes) {out : Bytes}
    → limits.max_metadata_value_bytes < 2 ^ 32
    → is_utf8 key ≡ true
    → encode_entry limits key value ≡ ok out
    → decode_entry limits (out ++ rest) ≡ ok ((key, value), rest)
unfolding decode_entry
decode_entry-encode_entry limits key value rest {out} l utf8 h =
    let w = entry_written limits key value out h in
    let e1 = append_assoc w.short (to_le_bytes 4 (length value % 2 ^ 32) ++ value) rest in
    let e2 = append_assoc (to_le_bytes 4 (length value % 2 ^ 32)) value rest in
    ground (
      arith,
      w.shape,
      e1,
      e2,
      w.key_valid,
      cursor_short_bytes_lem limits.max_metadata_key_bytes key
          (to_le_bytes 4 (length value % 2 ^ 32) ++ (value ++ rest)) w.written w.key_fits,
      cursor_u32_lem (length value % 2 ^ 32) (value ++ rest),
      w.value_fits,
      enforce_limit_le "metadata value bytes" (length value) limits.max_metadata_value_bytes,
      cursor_take_lem (length value) value rest refl,
    )

-- The loop reads the remaining entries into the map, which holds the keys before them.
decode_entries-encode_entries :
    (limits : FormatLimits) (es metadata : Metadata) (rest : Bytes) {out : Bytes}
    → limits.max_metadata_value_bytes < 2 ^ 32
    → HasTextKeys es
    → IsOrdered (metadata ++ es)
    → encode_entries limits es ≡ ok out
    → decode_entries limits (length es) metadata (out ++ rest) ≡ ok (metadata ++ es, rest)
unfolding encode_entries decode_entries
decode_entries-encode_entries limits [] metadata rest l utf8 ordered h =
    ground (arith, append-nil metadata)
decode_entries-encode_entries limits ((key, value) ∷ es) metadata rest {out} l utf8 ordered h =
    let (entry, he, h1) = bind-eq-ok (encode_entry limits key value) _ h in
    let (more, hm, h2) = bind-eq-ok (encode_entries limits es) _ h1 in
    let e : out ≡ entry ++ more = cc h2 in
    let m' : Metadata = metadata ++ ((key, value) ∷ []) in
    let regroup : m' ++ es ≡ metadata ++ ((key, value) ∷ es) =
      append_assoc metadata ((key, value) ∷ []) es in
    let rec : decode_entries limits (length es) m' (more ++ rest) ≡ ok (m' ++ es, rest) =
      decode_entries-encode_entries limits es m' rest l utf8.1 (rw regroup ordered) hm in
    ground (
      arith,
      e,
      append_assoc entry more rest,
      decode_entry-encode_entry limits key value (more ++ rest) l utf8.0 he,
      metadata_get_last key value es metadata ordered,
      metadata_insert_last key value es metadata ordered,
      rec,
      regroup,
    )

decode_fields_lem :
    (limits : FormatLimits) (e : RecordEnvelopeV2) (entries : Bytes) {short : Bytes}
    → IsLimits limits
    → IsEnvelope e
    → length e.event_type ≤ limits.max_event_type_bytes
    → length e.metadata ≤ limits.max_metadata_entries
    → write_short_bytes e.event_type ≡ ok short
    → encode_entries limits e.metadata ≡ ok entries
    → decode_fields limits (envelope_fields e short entries) ≡ ok (e, [])
unfolding decode_fields
decode_fields_lem limits e entries {short} l v type_fits count_fits hs he =
    let s12 : Bytes = to_le_bytes 2 (length e.metadata % 2 ^ 16) ++ entries in
    let s11 : Bytes = to_le_bytes 4 e.batch_index ++ s12 in
    let s10 : Bytes = e.batch_id ++ s11 in
    let s9 : Bytes = to_le_bytes 4 e.codec ++ s10 in
    let s8 : Bytes = to_le_bytes 4 e.schema_version ++ s9 in
    let s7 : Bytes = short ++ s8 in
    let s6 : Bytes = to_le_bytes 8 (i64_bits e.timestamp_unix_nanos) ++ s7 in
    let s5 : Bytes = to_le_bytes 8 e.stream_revision ++ s6 in
    let s4 : Bytes = e.stream_id ++ s5 in
    let s3 : Bytes = e.branch_id ++ s4 in
    let s2 : Bytes = e.database_id ++ s3 in
    let s1 : Bytes = e.event_id ++ s2 in
    ground (
      arith,
      cursor_u16_lem envelope_version s1 (omega arith),
      cursor_take_lem 16 e.event_id s2 v.event_id_len,
      cursor_take_lem 16 e.database_id s3 v.database_id_len,
      cursor_take_lem 16 e.branch_id s4 v.branch_id_len,
      cursor_take_lem 16 e.stream_id s5 v.stream_id_len,
      cursor_u64_lem e.stream_revision s6 v.revision_u64,
      cursor_i64_lem e.timestamp_unix_nanos s7 v.timestamp_i64,
      cursor_short_bytes_lem limits.max_event_type_bytes e.event_type s8 hs type_fits,
      v.event_type_text,
      v.event_type_valid,
      cursor_u32_lem e.schema_version s9 v.schema_u32,
      cursor_u32_lem e.codec s10 v.codec_u32,
      cursor_take_lem 16 e.batch_id s11 v.batch_id_len,
      cursor_u32_lem e.batch_index s12 v.batch_index_u32,
      cursor_u16_lem (length e.metadata % 2 ^ 16) entries (omega arith),
      mod-eq_of_lt {n = length e.metadata} {m = 2 ^ 16} (omega (arith, l.entries_u16)),
      enforce_limit_le "metadata entries" (length e.metadata) limits.max_metadata_entries
          count_fits,
      decode_entries-encode_entries limits e.metadata [] [] l.value_u32 v.metadata_text
          v.metadata_ordered he,
      append-nil entries,
    )

-- An envelope whose fields keep what their Rust types promise is decoded to itself from the bytes
-- that `encode_envelope` wrote for it under the same limits.
pub decode_envelope-encode_envelope :
    (limits : FormatLimits) (e : RecordEnvelopeV2) (out : Bytes)
    → IsLimits limits
    → IsEnvelope e
    → encode_envelope e limits ≡ ok out
    → decode_envelope out limits ≡ ok e
unfolding encode_envelope decode_envelope
decode_envelope-encode_envelope limits e out l v h =
    let (u, tf, h1) =
      bind-eq-ok
        (enforce_limit "event type bytes" (length e.event_type) limits.max_event_type_bytes) _ h in
    let (w, cf, h2) =
      bind-eq-ok (enforce_limit "metadata entries" (length e.metadata) limits.max_metadata_entries)
        _ h1 in
    let (short, hs, h3) = bind-eq-ok (write_short_bytes e.event_type) _ h2 in
    let (entries, he, h4) = bind-eq-ok (encode_entries limits e.metadata) _ h3 in
    let shape : out ≡ envelope_fields e short entries = cc h4 in
    let type_fits = enforce_limit-eq-ok _ _ _ tf in
    let count_fits = enforce_limit-eq-ok _ _ _ cf in
    rw (shape, decode_fields_lem limits e entries l v type_fits count_fits hs he)
