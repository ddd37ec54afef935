-- ===== src/Format/Frame/Probe.antt =====
-- salamander/src/format/mod.rs: `decode` and `frame_total_len` on any bytes.
use salamander_db.Prelude.{
  ℕ, ◌+◌, ◌≤◌, ◌<◌, ◌≡◌, refl, sym, ap, ◌∙◌, inl, inr, Bool, true, false, not, Option, none, some,
  ◌++◌, arith, ltb, ◌==◌, if◌then◌else◌, ltb-false, Bool-cases, length, get_or, take, length-append,
  take-append_le, get_or-append_lt,
}
use salamander_db.Bytes.{Bytes, from_le_bytes, slice, slice-append_le, bytes_eq}
use salamander_db.Errors.{SalamanderError, Result, ok, fail_if, bind-eq-ok}
use salamander_db.Format.Types.{
  frame_magic, frame_version, frame_header_len, FrameKind, frame_kind_try_from, StoredRecord,
  FormatLimits,
}
use salamander_db.Format.Frame.{
  validate_flags, total_len, frame_crc, frame_total_len, decode_body, decode,
}
use salamander_db.Format.Cursor.{enforce_limit}
use salamander_db.Format.Checksum.{Crc32c}
use mathlib.Core.Path.{subst₂}

abbrev env_len : Bytes → ℕ
env_len buf = from_le_bytes (slice buf 8 12)

abbrev pay_len : Bytes → ℕ
pay_len buf = from_le_bytes (slice buf 12 16)

-- What `decode` has checked on the bytes that it accepts: the kind and the size first.
record AcceptedRest (crc : Crc32c) (limits : FormatLimits) (buf : Bytes) (r : StoredRecord) (n : ℕ)
    : Type 0 where
  kind : frame_kind_try_from (get_or buf 6 0) ≡ ok r.kind
  size : total_len (env_len buf) (pay_len buf) ≡ ok n
  whole : ltb (length buf) n ≡ false
  body : decode_body crc buf limits r.kind (env_len buf) n ≡ ok (some (r, n))

record Accepted (crc : Crc32c) (limits : FormatLimits) (buf : Bytes) (r : StoredRecord) (n : ℕ)
    : Type 0 where
  long : ltb (length buf) frame_header_len ≡ false
  magic : bytes_eq (slice buf 0 4) frame_magic ≡ true
  version : (from_le_bytes (slice buf 4 6) == frame_version) ≡ true
  flags : validate_flags (get_or buf 7 0) ≡ ok tt
  envelope_fits : enforce_limit "envelope bytes" (env_len buf) limits.max_envelope_bytes ≡ ok tt
  payload_fits : enforce_limit "payload bytes" (pay_len buf) limits.max_payload_bytes ≡ ok tt
  reserved : (from_le_bytes (slice buf 28 32) == 0) ≡ true
  rest : AcceptedRest crc limits buf r n
  open rest use *

fail_if-eq-ok :
    (b : Bool) (e : SalamanderError) {u : Unit {0}} → fail_if (not b) e ≡ ok u → b ≡ true
fail_if-eq-ok true e h = refl
fail_if-eq-ok false e h = cc

body_total :
    (crc : Crc32c) (limits : FormatLimits) (buf : Bytes) (kind : FrameKind) (e total : ℕ)
    (r : StoredRecord) (n : ℕ)
    → decode_body crc buf limits kind e total ≡ ok (some (r, n))
    → (n ≡ total)
      × (r.kind ≡ kind)
      × (from_le_bytes (slice buf 24 28) ≡ frame_crc crc (take total buf))
unfolding decode_body
body_total crc limits buf kind e total r n h = ground arith

not_cut :
    {A : Type 0} (b : Bool) (m : Result (Option A)) {a : A}
    → (if b then ok none else m) ≡ ok (some a)
    → (b ≡ false) × (m ≡ ok (some a))
not_cut true m h = absurd (cc h)
not_cut false m h = (refl, h)

accepted_rest :
    (crc : Crc32c) (limits : FormatLimits) (buf : Bytes) (r : StoredRecord) (n : ℕ) (k : FrameKind)
    (t : ℕ)
    → frame_kind_try_from (get_or buf 6 0) ≡ ok k
    → total_len (env_len buf) (pay_len buf) ≡ ok t
    → (if ltb (length buf) t then ok none else decode_body crc buf limits k (env_len buf) t)
      ≡ ok (some (r, n))
    → AcceptedRest crc limits buf r n
accepted_rest crc limits buf r n k t hk ht h =
    let (hw, hb) = not_cut (ltb (length buf) t) _ h in
    let (en, ek, ec) = body_total crc limits buf k (env_len buf) t r n hb in
    record {
      kind = hk ∙ ap ok (sym ek);
      size = ht ∙ ap ok (sym en);
      whole = ap (ltb (length buf)) en ∙ hw;
      body =
          subst₂ (λ k' t'. decode_body crc buf limits k' (env_len buf) t' ≡ ok (some (r, n)))
            (sym ek) (sym en) hb;
    }

accepted :
    (crc : Crc32c) (limits : FormatLimits) (buf : Bytes) (r : StoredRecord) (n : ℕ)
    → decode crc buf limits ≡ ok (some (r, n))
    → Accepted crc limits buf r n
unfolding decode
accepted crc limits buf r n h = elim (Bool-cases (ltb (length buf) frame_header_len)) [
  | inl short ↦ absurd (no short h)
  | inr long ↦
      let (u1, m, h1) =
        bind-eq-ok (fail_if (not (bytes_eq (slice buf 0 4) frame_magic)) _) _ (rw long at h) in
      let (u2, v, h2) =
        bind-eq-ok (fail_if (not (from_le_bytes (slice buf 4 6) == frame_version)) _) _ h1 in
      let (k, hk, h3) = bind-eq-ok (frame_kind_try_from (get_or buf 6 0)) _ h2 in
      let (u3, f, h4) = bind-eq-ok (validate_flags (get_or buf 7 0)) _ h3 in
      let (u4, el, h5) =
        bind-eq-ok (enforce_limit "envelope bytes" (env_len buf) limits.max_envelope_bytes) _ h4 in
      let (u5, pl, h6) =
        bind-eq-ok (enforce_limit "payload bytes" (pay_len buf) limits.max_payload_bytes) _ h5 in
      let (u6, rs, h7) = bind-eq-ok (fail_if (not (from_le_bytes (slice buf 28 32) == 0)) _) _ h6 in
      let (t, ht, h8) = bind-eq-ok (total_len (env_len buf) (pay_len buf)) _ h7 in
      record {
        long = long;
        magic = fail_if-eq-ok _ _ m;
        version = fail_if-eq-ok _ _ v;
        flags = f;
        envelope_fits = el;
        payload_fits = pl;
        reserved = fail_if-eq-ok _ _ rs;
        rest = accepted_rest crc limits buf r n k t hk ht h8;
      }
]
  where
    no : ltb (length buf) frame_header_len ≡ true → decode crc buf limits ≡ ok (some (r, n)) → ⊥
    no short e = cc (rw short at e)

total_len-le :
    (e p : ℕ) {n : ℕ}
    → total_len e p ≡ ok n
    → (frame_header_len ≤ n) × (n ≡ frame_header_len + e + p)
total_len-le e p h = ground arith

-- What `decode` accepts, the probe sizes: they name the same number of bytes, which is at least a
-- header and is there; the stored checksum is the one computed over the frame.
pub frame_total_len-decode :
    (crc : Crc32c) (limits : FormatLimits) (buf : Bytes) (r : StoredRecord) (n : ℕ)
    → decode crc buf limits ≡ ok (some (r, n))
    → (frame_total_len buf limits ≡ ok (some n))
      × (n ≤ length buf)
      × (frame_header_len ≤ n)
      × (from_le_bytes (slice buf 24 28) ≡ frame_crc crc (take n buf))
unfolding frame_total_len
frame_total_len-decode crc limits buf r n h =
    let a = accepted crc limits buf r n h in
    (
      rw (a.long, a.magic, a.version, a.kind, a.flags, a.envelope_fits, a.payload_fits, a.size),
      ground (arith, a.whole),
      (total_len-le (env_len buf) (pay_len buf) a.size).0,
      (body_total crc limits buf r.kind (env_len buf) n r n a.body).2,
    )

module _ (buf more : Bytes) (long : frame_header_len ≤ length buf) where
  header_slice : (a b : ℕ) → a ≤ b → b ≤ 32 → slice (buf ++ more) a b ≡ slice buf a b
  header_slice a b h k = slice-append_le buf more a b (omega arith) h

  header_byte : (i : ℕ) → i < 32 → get_or (buf ++ more) i 0 ≡ get_or buf i 0
  header_byte i h = get_or-append_lt buf more i 0 (omega arith)

decode_body-append :
    (crc : Crc32c) (limits : FormatLimits) (buf more : Bytes) (kind : FrameKind) (e n : ℕ)
    → n ≤ length buf
    → frame_header_len + e ≤ n
    → decode_body crc (buf ++ more) limits kind e n ≡ decode_body crc buf limits kind e n
unfolding decode_body
decode_body-append crc limits buf more kind e n h k =
    let long : frame_header_len ≤ length buf = omega arith in
    rw (
      header_slice buf more long 16 24 (omega arith) (omega arith),
      header_slice buf more long 24 28 (omega arith) (omega arith),
      header_byte buf more long 7 (omega arith),
      take-append_le n buf more h,
      slice-append_le buf more frame_header_len (frame_header_len + e) (omega arith) (omega arith),
      slice-append_le buf more (frame_header_len + e) n h k,
    )

-- An accepted frame does not depend on what follows it.
pub decode-append :
    (crc : Crc32c) (limits : FormatLimits) (buf more : Bytes) (r : StoredRecord) (n : ℕ)
    → decode crc buf limits ≡ ok (some (r, n))
    → decode crc (buf ++ more) limits ≡ ok (some (r, n))
unfolding decode
decode-append crc limits buf more r n h =
    let a = accepted crc limits buf r n h in
    let (lo, shape) = total_len-le (env_len buf) (pay_len buf) a.size in
    let le : n ≤ length buf = ground (arith, a.whole) in
    let long : frame_header_len ≤ length buf = omega arith in
    rw
      (
        ltb-false (length (buf ++ more)) frame_header_len (omega (arith, length-append buf more)),
        header_slice buf more long 0 4 (omega arith) (omega arith),
        a.magic,
        header_slice buf more long 4 6 (omega arith) (omega arith),
        a.version,
        header_byte buf more long 6 (omega arith),
        a.kind,
        header_byte buf more long 7 (omega arith),
        a.flags,
        header_slice buf more long 8 12 (omega arith) (omega arith),
        a.envelope_fits,
        header_slice buf more long 12 16 (omega arith) (omega arith),
        a.payload_fits,
        header_slice buf more long 28 32 (omega arith) (omega arith),
        a.reserved,
        a.size,
        ltb-false (length (buf ++ more)) n (omega (arith, length-append buf more)),
      )
      (decode_body-append crc limits buf more r.kind (env_len buf) n le (omega arith) ∙ a.body)

-- What `decode` accepts is at least a header long, and is there.
pub decode_size :
    (crc : Crc32c) (limits : FormatLimits) (buf : Bytes) (r : StoredRecord) (n : ℕ)
    → decode crc buf limits ≡ ok (some (r, n))
    → (frame_header_len ≤ n) × (n ≤ length buf)
decode_size crc limits buf r n h =
    let a = accepted crc limits buf r n h in
    ((total_len-le (env_len buf) (pay_len buf) a.size).0, ground (arith, a.whole))
