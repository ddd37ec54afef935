-- ===== src/Log/Store/Retain/Boundary.antt =====
-- salamander/src/log/mod.rs: where `retention_boundary` puts the floor.
use salamander_db.Prelude.{
  ℕ, ◌≤◌, ◌<◌, ◌≡◌, refl, sym, ◌⊎◌, inl, inr, true, Option, none, some, List, [], ◌∷◌, arith, leb,
  leb→le, le→leb, Bool-cases, All,
}
use salamander_db.Bytes.{Bytes}
use salamander_db.Log.Store.{Log, disk_of}
use Prim.Native.Nat.{max}
use mathlib.Core.Path.{subst}
use salamander_db.Log.Store.Retain.{greatest_base, or_floor, retention_boundary}

abbrev pub IsBase : ℕ → List (ℕ × Bytes) → Type 0
IsBase b [] = ⊥
IsBase b (file ∷ files) = (file.0 ≡ b) ⊎ IsBase b files

greatest_base-IsBase :
    (requested : ℕ) (files : List (ℕ × Bytes)) (b : ℕ)
    → greatest_base requested files ≡ some b
    → IsBase b files × (b ≤ requested)
unfolding greatest_base
greatest_base-IsBase requested [] b h = absurd (cc h)
greatest_base-IsBase requested (file ∷ files) b h =
    go (greatest_base requested files) refl (greatest_base-IsBase requested files)
  where
    go :
        (later : Option ℕ)
        → greatest_base requested files ≡ later
        → ((c : ℕ) → greatest_base requested files ≡ some c → IsBase c files × (c ≤ requested))
        → ((file.0 ≡ b) ⊎ IsBase b files) × (b ≤ requested)
    go none e ih = elim (Bool-cases (leb file.0 requested)) [
      | inl t ↦
          let same : file.0 ≡ b = cc (rw (t, e) at h) in
          (inl same, omega (arith, same, leb→le file.0 requested t))
      | inr f ↦ absurd (cc (rw (f, e) at h))
    ]
    go (some c) e ih =
        let (inside, le) = ih c e in
        elim (Bool-cases (leb file.0 requested)) [
          | inl t ↦
              let same : max file.0 c ≡ b = cc (rw (t, e) at h) in
              elim (Bool-cases (leb file.0 c)) [
                | inl u ↦
                    let it : c ≡ b = omega (arith, same, leb→le file.0 c u) in
                    (inr (subst (λ k. IsBase k files) it inside), omega (arith, it, le))
                | inr n ↦
                    let above : c < file.0 = ground (arith, n) in
                    let it : file.0 ≡ b = omega (arith, same, above) in
                    (inl it, omega (arith, it, leb→le file.0 requested t))
              ]
          | inr f ↦
              let it : c ≡ b = cc (rw (f, e) at h) in
              (inr (subst (λ k. IsBase k files) it inside), omega (arith, it, le))
        ]

greatest_base_covers :
    (requested : ℕ) (files : List (ℕ × Bytes)) (k : ℕ)
    → IsBase k files
    → k ≤ requested
    → (b : ℕ) × (greatest_base requested files ≡ some b) × (k ≤ b)
unfolding greatest_base
greatest_base_covers requested [] k i le = absurd i
greatest_base_covers requested (file ∷ files) k (inl e) le = go (greatest_base requested files) refl
  where
    here_le : leb file.0 requested ≡ true
    here_le = le→leb file.0 requested (omega (arith, e, le))

    go :
        (later : Option ℕ)
        → greatest_base requested files ≡ later
        → (b : ℕ) × (greatest_base requested (file ∷ files) ≡ some b) × (k ≤ b)
    go none q = (file.0, rw (here_le, q, greatest_base) refl, omega (arith, e))
    go (some c) q = (max file.0 c, rw (here_le, q, greatest_base) refl, omega (arith, e))
greatest_base_covers requested (file ∷ files) k (inr i) le =
    let (c, q, up) = greatest_base_covers requested files k i le in
    elim (Bool-cases (leb file.0 requested)) [
      | inl t ↦ (max file.0 c, rw (t, q) refl, omega (arith, up))
      | inr f ↦ (c, rw (f, q) refl, up)
    ]

below : (requested b k : ℕ) → (k ≤ requested → k ≤ b) → (requested < k) ⊎ (k ≤ b)
below requested b k h = elim (Bool-cases (leb k requested)) [
  | inl t ↦ inr (h (leb→le k requested t))
  | inr f ↦ inl (ground (arith, f))
]

All-bases :
    (requested b : ℕ) (files : List (ℕ × Bytes))
    → ((k : ℕ) → IsBase k files → k ≤ requested → k ≤ b)
    → All (λ file. (requested < file.0) ⊎ (file.0 ≤ b)) files
All-bases requested b [] h = tt
All-bases requested b (file ∷ files) h = (
  below requested b file.0 (h file.0 (inl refl)),
  All-bases requested b files (λ k i. h k (inr i)),
)

or_floor-bounds :
    (requested floor : ℕ) (files : List (ℕ × Bytes)) (found : Option ℕ)
    → greatest_base requested files ≡ found
    → (floor ≤ or_floor floor found)
      × ((or_floor floor found ≡ floor)
          ⊎ (IsBase (or_floor floor found) files × (or_floor floor found ≤ requested)))
      × All (λ file. (requested < file.0) ⊎ (file.0 ≤ or_floor floor found)) files
or_floor-bounds requested floor files none e = (
  omega arith,
  inl refl,
  All-bases requested floor files (λ k i le.
      let (b, q, up) = greatest_base_covers requested files k i le in absurd (cc (q, e))),
)
or_floor-bounds requested floor files (some b) e =
    let (inside, le) = greatest_base-IsBase requested files b e in
    (
      omega arith,
      elim (Bool-cases (leb floor b)) [
        | inl t ↦
            let same : max b floor ≡ b = omega (arith, leb→le floor b t) in
            inr (subst (λ k. IsBase k files) (sym same) inside, omega (arith, same, le))
        | inr f ↦ let small : b < floor = ground (arith, f) in inl (omega (arith, small))
      ],
      All-bases requested (max b floor) files (λ k i le'.
          let (c, q, up) = greatest_base_covers requested files k i le' in
          let same : c ≡ b = cc (q, e) in omega (arith, up, same)),
    )

-- The boundary for a requested position is at or above the floor; it is the floor or the base of a
-- segment at or below the request; and every segment of the log starts above the request or at or
-- below the boundary.
pub retention_boundary_lem :
    (requested : ℕ) (log : Log)
    → (log.manifest.retention_floor ≤ (retention_boundary requested log).0)
      × (((retention_boundary requested log).0 ≡ log.manifest.retention_floor)
          ⊎ (IsBase (retention_boundary requested log).0 (disk_of log).segments
              × ((retention_boundary requested log).0 ≤ requested)))
      × All
          (λ file. (requested < file.0) ⊎ (file.0 ≤ (retention_boundary requested log).0))
          (disk_of log).segments
unfolding retention_boundary
retention_boundary_lem requested log =
    or_floor-bounds requested log.manifest.retention_floor (disk_of log).segments
      (greatest_base requested (disk_of log).segments) refl
