-- ===== src/Bytes/Text.antt =====
-- What the standard library gives on text: a `str` is its UTF-8 bytes.
use Prim.Native.Char.{code}
use Prim.Native.Nat.{pred}
use salamander_db.Prelude.{
  ℕ, String, Bool, true, false, ◌&&◌, ◌||◌, Option, none, some, [], ◌∷◌, ltb, leb, ◌==◌,
  if◌then◌else◌,
}
use salamander_db.Bytes.LittleEndian.{Bytes}

-- The bytes of an ASCII literal.
abbrev pub codes : String → Bytes
codes String.[] = []
codes (String.◌∷◌ c s) = code c ∷ codes s

abbrev pub is_empty : Bytes → Bool
is_empty [] = true
is_empty (b ∷ bs) = false

-- `as_bytes().contains(&0)`
abbrev pub contains_nul : Bytes → Bool
contains_nul [] = false
contains_nul (b ∷ bs) = (b == 0) || contains_nul bs

abbrev pub starts_with : Bytes → Bytes → Bool
starts_with s [] = true
starts_with [] (p ∷ ps) = false
starts_with (b ∷ bs) (p ∷ ps) = (b == p) && starts_with bs ps

-- How many continuation bytes are still due, and the range of the next one.
pub record Utf8State : Type 0 where
  pub due : ℕ
  pub low : ℕ
  pub high : ℕ

abbrev utf8_start : Utf8State
utf8_start = record { due = 0; low = 0; high = 0 }

abbrev expect : ℕ → ℕ → ℕ → Option Utf8State
expect due low high = some (record { due = due; low = low; high = high })

-- The first byte of a character, by the table of well-formed UTF-8 sequences.
utf8_lead : ℕ → Option Utf8State
utf8_lead b =
    if ltb b 0x80
    then expect 0 0 0
    else if ltb b 0xc2
    then none
    else if ltb b 0xe0
    then expect 1 0x80 0xbf
    else if b == 0xe0
    then expect 2 0xa0 0xbf
    else if b == 0xed
    then expect 2 0x80 0x9f
    else if ltb b 0xf0
    then expect 2 0x80 0xbf
    else if b == 0xf0
    then expect 3 0x90 0xbf
    else if ltb b 0xf4
    then expect 3 0x80 0xbf
    else if b == 0xf4
    then expect 3 0x80 0x8f
    else none

utf8_step : Utf8State → ℕ → Option Utf8State
utf8_step s b =
    if s.due == 0
    then utf8_lead b
    else if leb s.low b && leb b s.high
    then expect (pred s.due) 0x80 0xbf
    else none

utf8_run : Utf8State → Bytes → Bool
utf8_run s [] = s.due == 0
utf8_run s (b ∷ bs) = elim (utf8_step s b) [ none ↦ false | some s' ↦ utf8_run s' bs ]

-- `std::str::from_utf8(bytes).is_ok()`
unfoldable pub is_utf8 : Bytes → Bool
unfolding utf8_run utf8_step utf8_lead
is_utf8 = utf8_run utf8_start
