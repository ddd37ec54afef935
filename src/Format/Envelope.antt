-- ===== src/Format/Envelope.antt =====
-- salamander/src/format/mod.rs: `encode_envelope` and `decode_envelope`.
pub mod Encode
pub mod Decode
pub mod RoundTrip
