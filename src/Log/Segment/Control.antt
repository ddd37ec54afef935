-- ===== src/Log/Segment/Control.antt =====
-- salamander/src/log/segment.rs: what `append_batch` writes besides the events, and its reading.
use salamander_db.Prelude.{ℕ, ◌-◌, ◌^◌, ◌<◌, ◌≡◌, refl, sym, ap, List, ◌++◌, arith, ltb, length}
use salamander_db.Bytes.{Bytes, from_le_bytes-to_le_bytes, is_utf8}
use salamander_db.Errors.{SalamanderError, ok, fail_if, bind-eq-ok, ok-injective}
use salamander_db.Format.Types.{
  event_type_new, RecordEnvelopeV2, IsEnvelope, batch_begin, batch_commit,
}
use salamander_db.Log.Segment.{encode_events, encode_batch}
use salamander_db.Format.Checksum.{Crc32c}
use salamander_db.Format.Metadata.{All-metadata_insert, IsOrdered-metadata_insert}
use salamander_db.Log.Record.{encode_kind}
use mathlib.Core.Path.{subst}
use salamander_db.Log.Batch.{batch_control_payload, batch_control_envelope, parse_batch_control}

-- The control payload of a batch, of a count from 1 to 2^32 - 1 and a digest below 2^32, parses back
-- to both.
pub parse_batch_control-batch_control_payload :
    (count digest : ℕ)
    → 0 < count
    → count < 2 ^ 32
    → digest < 2 ^ 32
    → parse_batch_control (batch_control_payload count digest) ≡ ok (count, digest)
unfolding parse_batch_control batch_control_payload
parse_batch_control-batch_control_payload count digest hp hc hd =
    ground (arith, from_le_bytes-to_le_bytes 4 count hc, from_le_bytes-to_le_bytes 4 digest hd)

-- The control envelope is valid, and belongs to the batch of the first event.
pub batch_control_envelope-IsEnvelope :
    (first control : RecordEnvelopeV2) (count digest : ℕ)
    → count < 2 ^ 32
    → IsEnvelope first
    → batch_control_envelope first count digest ≡ ok control
    → IsEnvelope control × (control.batch_id ≡ first.batch_id)
unfolding batch_control_envelope event_type_new is_utf8
batch_control_envelope-IsEnvelope first control count digest hc v h =
    let shape = sym (ok-injective h) in
    (
      subst IsEnvelope (sym shape) (record {
        event_id_len = v.event_id_len;
        database_id_len = v.database_id_len;
        branch_id_len = v.branch_id_len;
        stream_id_len = v.stream_id_len;
        revision_u64 = v.revision_u64;
        timestamp_i64 = v.timestamp_i64;
        event_type_text = refl;
        event_type_valid = refl;
        schema_u32 = v.schema_u32;
        codec_u32 = v.codec_u32;
        batch_id_len = v.batch_id_len;
        batch_index_u32 = hc;
        metadata_ordered =
            IsOrdered-metadata_insert _ _ _ (IsOrdered-metadata_insert _ _ _ v.metadata_ordered);
        metadata_text =
            All-metadata_insert _ _ _ _ refl (All-metadata_insert _ _ _ _ refl v.metadata_text);
      }),
      ap (λ (e : RecordEnvelopeV2). e.batch_id) shape,
    )

-- What a successful `encode_batch` wrote.
pub record BatchWritten (crc : Crc32c) (first : ℕ) (envelope : RecordEnvelopeV2)
    (events : List (RecordEnvelopeV2 × Bytes)) (out : Bytes) : Type 0 where
  pub encoded : Bytes
  pub control : RecordEnvelopeV2
  pub begin_frame : Bytes
  pub commit_frame : Bytes
  pub count_u32 : length events < 2 ^ 32
  pub events_written : encode_events crc first 0 events ≡ ok encoded
  pub control_made :
      batch_control_envelope envelope (length events) (crc.crc32c encoded) ≡ ok control
  pub begin_written :
      encode_kind crc batch_begin first control
        (batch_control_payload (length events) (crc.crc32c encoded))
      ≡ ok begin_frame
  pub commit_written :
      encode_kind crc batch_commit first control
        (batch_control_payload (length events) (crc.crc32c encoded))
      ≡ ok commit_frame
  pub shape : out ≡ begin_frame ++ (encoded ++ commit_frame)

pub encode_batch-BatchWritten :
    (crc : Crc32c) (first : ℕ) (envelope : RecordEnvelopeV2)
    (events : List (RecordEnvelopeV2 × Bytes)) (out : Bytes)
    → encode_batch crc first envelope events ≡ ok out
    → BatchWritten crc first envelope events out
unfolding encode_batch
encode_batch-BatchWritten crc first envelope events out h =
    let (u, hc, h1) = bind-eq-ok (fail_if (ltb (2 ^ 32 - 1) (length events)) _) _ h in
    let (encoded, he, h2) = bind-eq-ok (encode_events crc first 0 events) _ h1 in
    let (control, hk, h3) =
      bind-eq-ok (batch_control_envelope envelope (length events) (crc.crc32c encoded)) _ h2 in
    let (bf, hb, h4) =
      bind-eq-ok
        (encode_kind crc batch_begin first control
          (batch_control_payload (length events) (crc.crc32c encoded)))
        _ h3 in
    let (cf, hf, h5) =
      bind-eq-ok
        (encode_kind crc batch_commit first control
          (batch_control_payload (length events) (crc.crc32c encoded)))
        _ h4 in
    record {
      encoded = encoded;
      control = control;
      begin_frame = bf;
      commit_frame = cf;
      count_u32 = small (length events) _ hc;
      events_written = he;
      control_made = hk;
      begin_written = hb;
      commit_written = hf;
      shape = sym (ok-injective h5);
    }
  where
    small :
        (n : ℕ) (e : SalamanderError) {w : Unit {0}}
        → fail_if (ltb (2 ^ 32 - 1) n) e ≡ ok w
        → n < 2 ^ 32
    small n e k = ground arith
