-- ===== src/Bytes.antt =====
-- Byte strings as lists of numbers, and what the standard library gives on them: little-endian
-- integers (`to_le_bytes`, `from_le_bytes`), slices, equality and the lexicographic order.
mod LittleEndian
mod Order
mod Text
pub use LittleEndian.*
pub use Order.*
pub use Text.{codes, is_empty, contains_nul, starts_with}
unfoldable pub use Text.{is_utf8}
