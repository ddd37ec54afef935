-- ===== src/Format/Frame/Torn.antt =====
-- salamander/src/format/mod.rs: `decode` on a frame that is cut short or damaged.
use salamander_db.Prelude.{
  ℕ, ◌+◌, ◌^◌, ◌≤◌, ◌<◌, ◌≡◌, refl, sym, ap, ◌∙◌, ◌≢◌, inl, inr, none, List, [], ◌∷◌, ◌++◌, arith,
  ltb, ltb→lt, lt→ltb, Bool-cases, length, take, length-append, take-append_length,
}
use salamander_db.Bytes.{Bytes, from_le_bytes-to_le_bytes}
use salamander_db.Errors.{ok, err, corrupt, ok-injective}
use salamander_db.Format.Types.{frame_header_len, StoredRecord, FormatLimits, IsLimits}
use salamander_db.Format.Frame.{frame_crc, encode, decode_body, decode}
use salamander_db.Format.Frame.RoundTrip.{
  header, encode-Written, Stored, decode-header, Written-Stored,
}
use salamander_db.Format.Checksum.{Crc32c}
use salamander_db.Format.Envelope.Encode.{encode_envelope}

-- A list that reaches past `hs` in `hs ++ body` begins with `hs`.
pub append-split {ℓ} :
    {A : Type ℓ} (hs body front back : List A)
    → front ++ back ≡ hs ++ body
    → length hs ≤ length front
    → (t : List A) × (front ≡ hs ++ t) × (t ++ back ≡ body)
append-split [] body front back e h = (front, refl, e)
append-split (x ∷ hs) body [] back e h = absurd (omega arith)
append-split (x ∷ hs) body (y ∷ front) back e h =
    let (t, p, q) = append-split hs body front back (cc e) (omega arith) in
    let head : y ≡ x = cc e in (t, cc (p, head), q)

-- A shorter beginning of the same bytes is a proper prefix.
pub append-split_lt {ℓ} :
    {A : Type ℓ} (out more part back : List A)
    → out ++ more ≡ part ++ back
    → length part < length out
    → (y : A) × (rest : List A) × (out ≡ part ++ (y ∷ rest))
append-split_lt {A} out more part back e h =
    let (t, p, q) = append-split part back out more e (omega arith) in nonempty t p
  where
    nonempty :
        (t : List A) → out ≡ part ++ t → (y : A) × (rest : List A) × (out ≡ part ++ (y ∷ rest))
    nonempty [] p = absurd (omega (arith, ap length p, length-append part []))
    nonempty (y ∷ rest) p = (y, rest, p)

pub decode_short :
    (crc : Crc32c) (limits : FormatLimits) (buf : Bytes)
    → length buf < frame_header_len
    → decode crc buf limits ≡ ok none
unfolding decode
decode_short crc limits buf h = rw (lt→ltb (length buf) frame_header_len h)

-- Every proper prefix of a written frame is an incomplete frame, never an error: `decode` asks for
-- more bytes.
pub decode_torn :
    (crc : Crc32c) (limits : FormatLimits) (r : StoredRecord) (out front : Bytes) (x : ℕ)
    (back : Bytes)
    → IsLimits limits
    → encode crc r limits ≡ ok out
    → out ≡ front ++ (x ∷ back)
    → decode crc front limits ≡ ok none
decode_torn crc limits r out front x back l h e =
    let w = encode-Written crc limits r out l h in
    let split =
      append-split (header r (length w.envelope) w.checksum) (w.envelope ++ (r.payload ++ [])) front
        (x ∷ back) (sym e ∙ w.shape) in
    elim (Bool-cases (ltb (length front) frame_header_len)) [
      | inl short ↦ decode_short crc limits front (ltb→lt _ _ short)
      | inr long ↦
          let (t, p, q) = split (ground (arith, long)) in
          let n : length t < length w.envelope + length r.payload = omega (
            arith,
            ap length q,
            length-append t (x ∷ back),
            length-append w.envelope (r.payload ++ []),
            length-append r.payload [],
          ) in
          rw p (
            decode-header crc limits r w.envelope w.checksum t (Written-Stored l w)
            ∙ rw (
                lt→ltb (frame_header_len + length t)
                  (frame_header_len + length w.envelope + length r.payload) (omega (arith, n))))
    ]

damaged :
    (crc : Crc32c) (limits : FormatLimits) (r : StoredRecord) (envelope : Bytes) (checksum : ℕ)
    (body rest : Bytes)
    → Stored limits r envelope
    → r.position < 2 ^ 64
    → checksum < 2 ^ 32
    → length body ≡ length envelope + length r.payload
    → checksum ≢ frame_crc crc (header r (length envelope) checksum ++ body)
    → decode crc (header r (length envelope) checksum ++ (body ++ rest)) limits
      ≡ err (
          corrupt r.position
            "v2 crc mismatch: stored {stored_crc:#010x}, computed {computed_crc:#010x}")
unfolding decode_body
damaged crc limits r envelope checksum body rest s hp hc hb bad =
    let h : Bytes = header r (length envelope) checksum in
    let total : ℕ = frame_header_len + length envelope + length r.payload in
    let n : total ≡ length (h ++ body) = omega (arith, hb, length-append h body) in
    let whole : take total (h ++ (body ++ rest)) ≡ h ++ body =
      rw n (take-append_length (h ++ body) rest) in
    decode-header crc limits r envelope checksum (body ++ rest) s
    ∙ ground (
      arith,
      whole,
      bad,
      hb,
      length-append body rest,
      from_le_bytes-to_le_bytes 4 checksum hc,
      from_le_bytes-to_le_bytes 8 r.position hp,
    )

-- A complete frame behind whose header the bytes differ from the written ones is answered by the
-- corruption error at its position, whenever the checksum tells the two frames apart.
pub decode_damaged :
    (crc : Crc32c) (limits : FormatLimits) (r : StoredRecord) (out envelope body rest : Bytes)
    → IsLimits limits
    → r.position < 2 ^ 64
    → encode crc r limits ≡ ok out
    → encode_envelope r.envelope limits ≡ ok envelope
    → length body ≡ length envelope + length r.payload
    → frame_crc crc (take frame_header_len out ++ body) ≢ frame_crc crc out
    → decode crc (take frame_header_len out ++ (body ++ rest)) limits
      ≡ err (
          corrupt r.position
            "v2 crc mismatch: stored {stored_crc:#010x}, computed {computed_crc:#010x}")
decode_damaged crc limits r out envelope body rest l hp h he hb bad =
    let w = encode-Written crc limits r out l h in
    let same : w.envelope ≡ envelope = ok-injective (sym w.envelope_written ∙ he) in
    let front : take frame_header_len out ≡ header r (length w.envelope) w.checksum =
      ap (take frame_header_len) w.shape in
    rw front (
      damaged crc limits r w.envelope w.checksum body rest (Written-Stored l w) hp w.checksum_u32
        (hb ∙ ap (λ (e : Bytes). length e + length r.payload) (sym same))
        (λ e. bad (rw front (sym e ∙ w.sealed))))
