-- ===== src/Log/Store/Chain.antt =====
-- salamander/src/log/mod.rs: closed segments that follow each other without a gap.
use salamander_db.Prelude.{
  ℕ, suc, ◌≤◌, ◌<◌, ◌≡◌, refl, sym, ◌∙◌, List, [], ◌∷◌, ◌++◌, append_assoc, append-nil, arith,
}
use salamander_db.Bytes.{Bytes}
use salamander_db.Format.Types.{StoredRecord}
use salamander_db.Format.Checksum.{Crc32c}
use salamander_db.Log.Scan.{ScanState}
use salamander_db.Log.Segment.{Segment}
use salamander_db.Log.Segment.Sound.{IsSound}
use mathlib.Core.Path.{subst}

-- One file: a sound segment that starts at `n` and holds at least one position.
pub record IsClosed (crc : Crc32c) (n : ℕ) (file : ℕ × Bytes) : Type 0 where
  pub seg : Segment
  pub state : ScanState
  pub sound : IsSound crc seg state
  pub base_same : seg.base_offset ≡ n
  pub key_same : file.0 ≡ n
  pub bytes_same : seg.file ≡ file.1
  pub grows : n < seg.next_offset

-- The files hold the positions from `n` to `m`, and these records.
abbrev pub Chain : Crc32c → ℕ → List (ℕ × Bytes) → ℕ → List StoredRecord → Type 0
Chain crc n [] m records = (n ≡ m) × (records ≡ [])
Chain crc n (file ∷ files) m records =
    (c : IsClosed crc n file) × (later : List StoredRecord) × (records ≡ c.state.records ++ later)
    × Chain crc c.seg.next_offset files m later

pub Chain-snoc :
    (crc : Crc32c) (files : List (ℕ × Bytes)) (n m : ℕ) (records : List StoredRecord)
    (file : ℕ × Bytes)
    → Chain crc n files m records
    → (c : IsClosed crc m file)
    → Chain crc n (files ++ (file ∷ [])) c.seg.next_offset (records ++ c.state.records)
Chain-snoc crc [] n m records file h c =
    subst (λ k. Chain crc k (file ∷ []) c.seg.next_offset (records ++ c.state.records)) (sym h.0)
      (c, [], (λ i. h.1 i ++ c.state.records) ∙ sym (append-nil c.state.records), (refl, refl))
Chain-snoc crc (x ∷ files) n m records file (d, later, same, rest) c = (
  d,
  later ++ c.state.records,
  (λ i. same i ++ c.state.records) ∙ append_assoc d.state.records later c.state.records,
  Chain-snoc crc files d.seg.next_offset m later file rest c,
)

-- The bases of the files rise from `n` and stay below `m`.
abbrev pub IsRising : ℕ → List (ℕ × Bytes) → ℕ → Type 0
IsRising n [] m = n ≤ m
IsRising n (file ∷ files) m = (n ≤ file.0) × IsRising (suc file.0) files m

IsRising-le :
    (files : List (ℕ × Bytes)) (k n m : ℕ) → k ≤ n → IsRising n files m → IsRising k files m
IsRising-le [] k n m le h = omega (arith, le, h)
IsRising-le (file ∷ files) k n m le h = (omega (arith, le, h.0), h.1)

pub Chain-IsRising :
    (crc : Crc32c) (files : List (ℕ × Bytes)) (n m : ℕ) (records : List StoredRecord)
    → Chain crc n files m records
    → IsRising n files m
Chain-IsRising crc [] n m records h = omega (arith, h.0)
Chain-IsRising crc (file ∷ files) n m records (c, later, same, rest) = (
  omega (arith, c.key_same),
  IsRising-le files (suc file.0) c.seg.next_offset m (omega (arith, c.key_same, c.grows))
      (Chain-IsRising crc files c.seg.next_offset m later rest),
)
