-- ===== src/Format/Frame/RoundTrip.antt =====
-- salamander/src/format/mod.rs: `decode` reads back the frame that `encode` wrote, whatever follows.
use salamander_db.Prelude.{
  ℕ, ◌+◌, ◌^◌, ◌≤◌, ◌<◌, ◌≡◌, refl, sym, ap, ◌∙◌, false, none, some, [], ◌∷◌, ◌++◌, append_assoc,
  append-nil, arith, ltb, if◌then◌else◌, ltb-false, length, take, length-append, take-append_length,
}
use salamander_db.Bytes.{Bytes, to_le_bytes, slice, from_le_bytes-to_le_bytes, slice-append}
use salamander_db.Errors.{ok, bind-eq-ok, ok-injective}
use salamander_db.Format.Types.{
  frame_magic, frame_version, frame_header_len, FrameKind, kind_code, frame_kind_try_from,
  StoredRecord, FormatLimits, IsLimits, IsStored, event, system, batch_begin, batch_commit,
}
use salamander_db.Format.Frame.{
  validate_flags, frame_crc, unsealed, seal, encode, decode_body, decode,
}
use salamander_db.Format.Checksum.{Crc32c}
use salamander_db.Format.Cursor.{enforce_limit}
use salamander_db.Format.Cursor.Reads.{enforce_limit-eq-ok, enforce_limit_le}
use salamander_db.Format.Envelope.Encode.{encode_envelope}
use salamander_db.Format.Envelope.Decode.{decode_envelope}
use salamander_db.Format.Envelope.RoundTrip.{decode_envelope-encode_envelope}
use native.Mathlib.Nat.{mod-eq_of_lt}

-- The 32 bytes of the header.
abbrev pub header : StoredRecord → ℕ → ℕ → Bytes
header r envelope_len checksum =
    frame_magic
    ++ (to_le_bytes 2 frame_version
        ++ (kind_code r.kind
            ∷ r.flags
            ∷ (to_le_bytes 4 envelope_len
                ++ (to_le_bytes 4 (length r.payload)
                    ++ (to_le_bytes 8 r.position ++ (to_le_bytes 4 checksum ++ to_le_bytes 4 0))))))

abbrev pub framed : StoredRecord → Bytes → ℕ → Bytes → Bytes
framed r envelope checksum rest =
    header r (length envelope) checksum ++ (envelope ++ (r.payload ++ rest))

-- What a successful `encode` has checked and written.
pub record Written (crc : Crc32c) (limits : FormatLimits) (r : StoredRecord) (out : Bytes)
    : Type 0 where
  pub envelope : Bytes
  pub checksum : ℕ
  pub flags_valid : validate_flags r.flags ≡ ok tt
  pub payload_fits : length r.payload ≤ limits.max_payload_bytes
  pub envelope_written : encode_envelope r.envelope limits ≡ ok envelope
  pub envelope_fits : length envelope ≤ limits.max_envelope_bytes
  pub checksum_u32 : checksum < 2 ^ 32
  pub sealed : checksum ≡ frame_crc crc out
  pub shape : out ≡ framed r envelope checksum []

-- The checksum field is not under the checksum.
frame_crc-seal :
    (crc : Crc32c) (r : StoredRecord) (envelope : Bytes)
    → frame_crc crc (seal crc (unsealed crc r envelope)) ≡ frame_crc crc (unsealed crc r envelope)
unfolding frame_crc
frame_crc-seal crc r envelope = refl

seal-unsealed :
    (crc : Crc32c) (r : StoredRecord) (envelope : Bytes)
    → length envelope < 2 ^ 32
    → length r.payload < 2 ^ 32
    → seal crc (unsealed crc r envelope)
      ≡ framed r envelope (frame_crc crc (unsealed crc r envelope)) []
seal-unsealed crc r envelope he hp = rw (
  mod-eq_of_lt {n = length envelope} {m = 2 ^ 32} he,
  mod-eq_of_lt {n = length r.payload} {m = 2 ^ 32} hp,
  append-nil r.payload,
)

frame_crc-lt : (crc : Crc32c) (bs : Bytes) → frame_crc crc bs < 2 ^ 32
unfolding frame_crc
frame_crc-lt crc bs = crc.crc32c_append-lt _ _ (crc.crc32c-lt _)

pub encode-Written :
    (crc : Crc32c) (limits : FormatLimits) (r : StoredRecord) (out : Bytes)
    → IsLimits limits
    → encode crc r limits ≡ ok out
    → Written crc limits r out
unfolding encode
encode-Written crc limits r out l h =
    let (u, fv, h1) = bind-eq-ok (validate_flags r.flags) _ h in
    let (w, pf, h2) =
      bind-eq-ok (enforce_limit "payload bytes" (length r.payload) limits.max_payload_bytes) _ h1 in
    let (envelope, ew, h3) = bind-eq-ok (encode_envelope r.envelope limits) _ h2 in
    let (x, ef, h4) =
      bind-eq-ok (enforce_limit "envelope bytes" (length envelope) limits.max_envelope_bytes) _
        h3 in
    let pf' : length r.payload ≤ limits.max_payload_bytes = enforce_limit-eq-ok _ _ _ pf in
    let ef' : length envelope ≤ limits.max_envelope_bytes = enforce_limit-eq-ok _ _ _ ef in
    let e : seal crc (unsealed crc r envelope) ≡ out = ok-injective h4 in
    record {
      envelope = envelope;
      checksum = frame_crc crc (unsealed crc r envelope);
      flags_valid = fv;
      payload_fits = pf';
      envelope_written = ew;
      envelope_fits = ef';
      checksum_u32 = frame_crc-lt crc _;
      sealed = sym (frame_crc-seal crc r envelope) ∙ ap (frame_crc crc) e;
      shape =
          sym e
          ∙ seal-unsealed crc r envelope (omega (arith, l.envelope_u32))
              (omega (arith, l.payload_u32));
    }

pub length-framed :
    (r : StoredRecord) (envelope : Bytes) (checksum : ℕ) (rest : Bytes)
    → length (framed r envelope checksum rest)
      ≡ frame_header_len + length envelope + length r.payload + length rest
length-framed r envelope checksum rest =
    omega (arith, length-append envelope (r.payload ++ rest), length-append r.payload rest)

frame_kind_try_from-kind_code : (k : FrameKind) → frame_kind_try_from (kind_code k) ≡ ok k
unfolding frame_kind_try_from
frame_kind_try_from-kind_code event = refl
frame_kind_try_from-kind_code system = refl
frame_kind_try_from-kind_code batch_begin = refl
frame_kind_try_from-kind_code batch_commit = refl

-- The lengths that a written frame stores.
pub record Stored (limits : FormatLimits) (r : StoredRecord) (envelope : Bytes) : Type 0 where
  pub flags_valid : validate_flags r.flags ≡ ok tt
  pub payload_fits : length r.payload ≤ limits.max_payload_bytes
  pub payload_u32 : length r.payload < 2 ^ 32
  pub envelope_fits : length envelope ≤ limits.max_envelope_bytes
  pub envelope_u32 : length envelope < 2 ^ 32

-- `decode` gets through the header of a written frame, and then asks whether all of it is there.
pub decode-header :
    (crc : Crc32c) (limits : FormatLimits) (r : StoredRecord) (envelope : Bytes) (checksum : ℕ)
    (tail : Bytes)
    → Stored limits r envelope
    → decode crc (header r (length envelope) checksum ++ tail) limits ≡ (
        if ltb
          (frame_header_len + length tail)
          (frame_header_len + length envelope + length r.payload)
        then ok none
        else decode_body crc
            (header r (length envelope) checksum ++ tail)
            limits
            r.kind
            (length envelope)
            (frame_header_len + length envelope + length r.payload))
unfolding decode
decode-header crc limits r envelope checksum tail s = ground (
  arith,
  s.flags_valid,
  frame_kind_try_from-kind_code r.kind,
  from_le_bytes-to_le_bytes 4 (length envelope) s.envelope_u32,
  from_le_bytes-to_le_bytes 4 (length r.payload) s.payload_u32,
  enforce_limit_le "envelope bytes" (length envelope) limits.max_envelope_bytes s.envelope_fits,
  enforce_limit_le "payload bytes" (length r.payload) limits.max_payload_bytes s.payload_fits,
)

framed_append :
    (r : StoredRecord) (envelope : Bytes) (checksum : ℕ) (rest : Bytes)
    → framed r envelope checksum [] ++ rest ≡ framed r envelope checksum rest
framed_append r envelope checksum rest = rw (
  append-nil r.payload,
  append_assoc (header r (length envelope) checksum) (envelope ++ r.payload) rest,
  append_assoc envelope r.payload rest,
)

-- What a written frame stores.
pub Written-Stored :
    {crc : Crc32c} {limits : FormatLimits} {r : StoredRecord} {out : Bytes}
    → IsLimits limits
    → (w : Written crc limits r out) → Stored limits r w.envelope
Written-Stored l w = record {
  flags_valid = w.flags_valid;
  payload_fits = w.payload_fits;
  payload_u32 = omega (arith, w.payload_fits, l.payload_u32);
  envelope_fits = w.envelope_fits;
  envelope_u32 = omega (arith, w.envelope_fits, l.envelope_u32);
}

decode_body_lem :
    (crc : Crc32c) (limits : FormatLimits) (r : StoredRecord) (envelope : Bytes) (checksum : ℕ)
    (rest : Bytes)
    → r.position < 2 ^ 64
    → checksum < 2 ^ 32
    → checksum ≡ frame_crc crc (framed r envelope checksum [])
    → decode_envelope envelope limits ≡ ok r.envelope
    → decode_body crc
        (framed r envelope checksum rest)
        limits
        r.kind
        (length envelope)
        (frame_header_len + length envelope + length r.payload)
      ≡ ok (some (r, frame_header_len + length envelope + length r.payload))
unfolding decode_body
decode_body_lem crc limits r envelope checksum rest hp hc sealed henv =
    let h : Bytes = header r (length envelope) checksum in
    let buf : Bytes = framed r envelope checksum rest in
    let total : ℕ = frame_header_len + length envelope + length r.payload in
    let front = framed_append r envelope checksum rest in
    let whole : take total buf ≡ framed r envelope checksum [] =
      let n : total ≡ length (framed r envelope checksum []) =
        omega (arith, length-framed r envelope checksum []) in
      rw (← front, n) (take-append_length (framed r envelope checksum []) rest) in
    let first : slice buf frame_header_len (frame_header_len + length envelope) ≡ envelope =
      slice-append h envelope (r.payload ++ rest) _ _ refl refl in
    let second : slice buf (frame_header_len + length envelope) total ≡ r.payload =
      slice-append (h ++ envelope) r.payload rest (frame_header_len + length envelope) total
        (omega (arith, length-append h envelope)) refl in
    ground (
      arith,
      whole,
      first,
      second,
      sealed,
      henv,
      from_le_bytes-to_le_bytes 4 checksum hc,
      from_le_bytes-to_le_bytes 8 r.position hp,
    )

-- A record whose fields keep what their Rust types promise is read back, with the number of bytes
-- that its frame takes, from the frame that `encode` wrote under the same limits, whatever bytes
-- follow the frame.
pub decode-encode :
    (crc : Crc32c) (limits : FormatLimits) (r : StoredRecord) (out rest : Bytes)
    → IsLimits limits
    → IsStored r
    → encode crc r limits ≡ ok out
    → decode crc (out ++ rest) limits ≡ ok (some (r, length out))
decode-encode crc limits r out rest l v h =
    let w = encode-Written crc limits r out l h in
    let framed_out : out ++ rest ≡ framed r w.envelope w.checksum rest =
      ap (λ (o : Bytes). o ++ rest) w.shape ∙ framed_append r w.envelope w.checksum rest in
    let n : length out ≡ frame_header_len + length w.envelope + length r.payload =
      ap length w.shape ∙ omega (arith, length-framed r w.envelope w.checksum []) in
    let m : ltb (frame_header_len + length (w.envelope ++ (r.payload ++ rest)))
          (frame_header_len + length w.envelope + length r.payload)
        ≡ false =
      ltb-false _ _ (omega (arith, length-framed r w.envelope w.checksum rest)) in
    rw (framed_out, n)
      (decode-header crc limits r w.envelope w.checksum (w.envelope ++ (r.payload ++ rest))
          (Written-Stored l w)
        ∙ (rw m (
            decode_body_lem crc limits r w.envelope w.checksum rest v.position_u64 w.checksum_u32
              (w.sealed ∙ ap (frame_crc crc) w.shape)
              (decode_envelope-encode_envelope limits r.envelope w.envelope l v.envelope_valid
                w.envelope_written))))
