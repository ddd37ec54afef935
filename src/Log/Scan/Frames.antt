-- ===== src/Log/Scan/Frames.antt =====
-- salamander/src/log/segment.rs: a round of the scan on a frame that `encode_kind` wrote, and on a
-- proper prefix of one.
use salamander_db.Prelude.{
  ℕ, ◌+◌, ◌^◌, ◌<◌, ◌≡◌, refl, ap, none, [], ◌∷◌, ◌++◌, arith, length, drop-append_length,
}
use salamander_db.Bytes.{Bytes, slice-append}
use salamander_db.Errors.{ok}
use salamander_db.Format.Types.{
  FrameKind, RecordEnvelopeV2, StoredRecord, default_limits, IsLimits, IsEnvelope,
}
use salamander_db.Log.Scan.{
  ScanState, rewound, rewind, scan_frame, scan_end, scan_decoded, scan_round,
}
use salamander_db.Format.Checksum.{Crc32c}
use salamander_db.Format.Frame.RoundTrip.{decode-encode}
use salamander_db.Format.Frame.Torn.{decode_torn, decode_short}
use salamander_db.Log.Record.{encode_kind, decode_owned}

pub default_limits-IsLimits : IsLimits default_limits
default_limits-IsLimits = omega arith

-- The record that `encode_kind` frames.
abbrev pub stored : FrameKind → ℕ → RecordEnvelopeV2 → Bytes → StoredRecord
stored kind offset envelope payload = record {
  kind = kind;
  flags = 0;
  position = offset;
  envelope = envelope;
  payload = payload;
}

-- A frame written for a valid envelope at a 64-bit position.
pub record Frame (crc : Crc32c) (kind : FrameKind) (offset : ℕ) (envelope : RecordEnvelopeV2)
    (payload out : Bytes) : Type 0 where
  pub written : encode_kind crc kind offset envelope payload ≡ ok out
  pub offset_u64 : offset < 2 ^ 64
  pub valid : IsEnvelope envelope

module _ {crc : Crc32c} {kind : FrameKind} {offset : ℕ} {envelope : RecordEnvelopeV2}
    {payload out : Bytes} (f : Frame crc kind offset envelope payload out) where
  pub scan_round-frame :
      (front rest : Bytes) (s : ScanState)
      → s.pos ≡ length front
      → scan_round crc (front ++ (out ++ rest)) s
        ≡ scan_frame crc s out (stored kind offset envelope payload) (length out) kind
  unfolding scan_round scan_decoded decode_owned encode_kind
  scan_round-frame front rest s at = rw (
    at,
    drop-append_length front (out ++ rest),
    decode-encode crc default_limits (stored kind offset envelope payload) out rest
        default_limits-IsLimits (record { position_u64 = f.offset_u64; envelope_valid = f.valid })
        f.written,
    slice-append front out rest (length front) (length front + length out) refl refl,
  )

  pub scan_round_torn :
      (front part : Bytes) (x : ℕ) (back : Bytes) (s : ScanState)
      → s.pos ≡ length front
      → out ≡ part ++ (x ∷ back)
      → scan_round crc (front ++ part) s ≡ scan_end (front ++ part) (rewind s)
  unfolding scan_round scan_decoded decode_owned encode_kind
  scan_round_torn front part x back s at cut = rw (
    at,
    drop-append_length front part,
    decode_torn crc default_limits (stored kind offset envelope payload) out part x back
        default_limits-IsLimits f.written cut,
  )

pub rewound_idle : (s : ScanState) → s.pending ≡ none → rewind s ≡ s
unfolding rewound
rewound_idle s idle = ap (rewound s) idle

-- At the end of the bytes the scan stops for good.
pub scan_round_eof :
    (crc : Crc32c) (front : Bytes) (s : ScanState)
    → s.pos ≡ length front
    → scan_round crc (front ++ []) s ≡ scan_end (front ++ []) (rewind s)
unfolding scan_round scan_decoded decode_owned
scan_round_eof crc front s at =
    rw (at, drop-append_length front [], decode_short crc default_limits [] (omega arith))
