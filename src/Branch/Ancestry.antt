-- ===== src/Branch/Ancestry.antt =====
-- salamander/src/branch.rs: what `ancestry` and `validate_depth` find, against the chain of parents.
use salamander_db.Prelude.{
  ℕ, zero, suc, ◌+◌, ◌≤◌, ◌<◌, ◌≡◌, refl, inl, inr, Option, none, some, List, [], ◌∷◌, arith, ltb,
  ltb-false, Bool-cases, Option-cases, length,
}
use salamander_db.Bytes.{bytes_eq}
use salamander_db.Errors.{Result, ok, err, branch_not_found, invalid_branch_ancestry}
use salamander_db.Format.Types.{Id16}
use salamander_db.Branch.{
  BranchInfo, BranchCatalog, max_lineage_depth, depth_rounds, validate_depth, ancestry_loop,
  ancestry,
}
use salamander_db.Branch.Maps.{map_get}
use mathlib.Core.Path.{subst}

-- The chain of parents from `current` up to a branch without a parent, the youngest branch first.
pub data Lineage (c : BranchCatalog) : Option Id16 → List BranchInfo → Type 0 where
  above_root : Lineage c none []
  child_of :
      {id : Id16} {branch : BranchInfo} {older : List BranchInfo}
      → map_get id c.by_id ≡ some branch
      → Lineage c branch.parent older
      → Lineage c (some id) (branch ∷ older)

-- A list reversed onto another one.
abbrev pub reverse_onto {ℓ} : {A : Type ℓ} → List A → List A → List A
reverse_onto [] ys = ys
reverse_onto (x ∷ xs) ys = reverse_onto xs (x ∷ ys)

ancestry_loop-Lineage :
    (c : BranchCatalog) (current : Option Id16) (path result : List BranchInfo) (fuel : ℕ)
    → Lineage c current path
    → length result + length path ≤ 64
    → length path < fuel
    → ancestry_loop c fuel current result ≡ some (ok (reverse_onto path result))
unfolding ancestry_loop
ancestry_loop-Lineage c current path result zero h le lt = absurd (omega arith)
ancestry_loop-Lineage c _ _ result (suc fuel) above_root le lt = refl
ancestry_loop-Lineage c _ _ result (suc fuel) (child_of {branch} {older} e h) le lt =
    rw (e, ltb-false max_lineage_depth (suc (length result)) (omega arith), ancestry_loop)
      (ancestry_loop-Lineage c branch.parent older (branch ∷ result) fuel h (omega arith)
        (omega arith))

-- Where the chain of parents of a branch exists and has at most 64 branches, `ancestry` returns it,
-- the oldest branch first.
pub ancestry-Lineage :
    (c : BranchCatalog) (id : Id16) (path : List BranchInfo)
    → Lineage c (some id) path
    → length path ≤ 64
    → ancestry c id ≡ some (ok (reverse_onto path []))
unfolding ancestry
ancestry-Lineage c id path h le =
    ancestry_loop-Lineage c (some id) path [] 66 h (omega arith) (omega arith)

-- What the loop may return: out of fuel never, a path only along the parents.
abbrev IsWalk :
    BranchCatalog → Option Id16 → List BranchInfo → Option (Result (List BranchInfo)) → Type 0
IsWalk c current result none = Unit
IsWalk c current result (some (err e)) = Unit
IsWalk c current result (some (ok found)) =
    (path : List BranchInfo) × Lineage c current path
    × (found ≡ reverse_onto path result)
    × (length result + length path ≤ 64)

ancestry_loop-IsWalk :
    (c : BranchCatalog) (fuel : ℕ) (current : Option Id16) (result : List BranchInfo)
    → length result ≤ 64
    → IsWalk c current result (ancestry_loop c fuel current result)
unfolding ancestry_loop
ancestry_loop-IsWalk c zero current result le = tt
ancestry_loop-IsWalk c (suc fuel) none result le = ([], above_root, refl, omega arith)
ancestry_loop-IsWalk c (suc fuel) (some id) result le = elim (Option-cases (map_get id c.by_id)) [
  | inl e ↦ rw (e, ancestry_loop) tt
  | inr (branch, e) ↦ elim (Bool-cases (ltb max_lineage_depth (suc (length result)))) [
    | inl t ↦ rw (e, t, ancestry_loop) tt
    | inr f ↦
        rw (e, f, ancestry_loop)
          (step branch e (ancestry_loop c fuel branch.parent (branch ∷ result))
            (ancestry_loop-IsWalk c fuel branch.parent (branch ∷ result) (ground (arith, f))))
  ]
]
  where
    step :
        (branch : BranchInfo)
        → map_get id c.by_id ≡ some branch
        → (o : Option (Result (List BranchInfo))) → IsWalk c branch.parent (branch ∷ result) o
        → IsWalk c (some id) result o
    step branch e none w = tt
    step branch e (some (err x)) w = tt
    step branch e (some (ok found)) (path, h, eq, len) =
        (branch ∷ path, child_of e h, eq, omega (arith, len))

-- Conversely, what `ancestry` returns is the chain of parents, at most 64 branches long.
pub Lineage-ancestry :
    (c : BranchCatalog) (id : Id16) (found : List BranchInfo)
    → ancestry c id ≡ some (ok found)
    → (path : List BranchInfo) × Lineage c (some id) path
      × (found ≡ reverse_onto path [])
      × (length path ≤ 64)
unfolding ancestry
Lineage-ancestry c id found e =
    let (path, h, eq, len) : IsWalk c (some id) [] (some (ok found)) =
      subst (IsWalk c (some id) []) e (ancestry_loop-IsWalk c 66 (some id) [] (omega arith)) in
    (path, h, eq, omega (arith, len))

ancestry_loop_total :
    (c : BranchCatalog) (fuel : ℕ) (current : Option Id16) (result : List BranchInfo)
    → length result ≤ 64
    → 65 < fuel + length result
    → (r : Result (List BranchInfo)) × (ancestry_loop c fuel current result ≡ some r)
unfolding ancestry_loop
ancestry_loop_total c zero current result le lt = absurd (omega arith)
ancestry_loop_total c (suc fuel) none result le lt = (ok result, refl)
ancestry_loop_total c (suc fuel) (some id) result le lt = elim (Option-cases (map_get id c.by_id)) [
  | inl e ↦ (err (branch_not_found id), rw (e, ancestry_loop) refl)
  | inr (branch, e) ↦ elim (Bool-cases (ltb max_lineage_depth (suc (length result)))) [
    | inl t ↦
        (err (invalid_branch_ancestry "lineage depth exceeded"), rw (e, t, ancestry_loop) refl)
    | inr f ↦
        let (r, eq) =
          ancestry_loop_total c fuel branch.parent (branch ∷ result) (ground (arith, f))
            (omega (arith, lt)) in
        (r, rw (e, f, ancestry_loop) eq)
  ]
]

-- `ancestry` returns on every catalog, one with a cycle of parents included.
pub ancestry_total :
    (c : BranchCatalog) (id : Id16) → (r : Result (List BranchInfo)) × (ancestry c id ≡ some r)
unfolding ancestry
ancestry_total c id = ancestry_loop_total c 66 (some id) [] (omega arith) (omega arith)

depth_rounds-Lineage :
    (c : BranchCatalog) (info : BranchInfo) (rounds : ℕ) (parent : Option Id16)
    (path : List BranchInfo)
    → Lineage c parent path
    → depth_rounds c info rounds parent ≡ ok tt
    → length path < rounds
unfolding depth_rounds
depth_rounds-Lineage c info zero parent path h e = absurd (cc e)
depth_rounds-Lineage c info (suc rounds) _ _ above_root e = omega arith
depth_rounds-Lineage c info (suc rounds) _ _ (child_of {id} {branch} {older} g h) e =
    elim (Bool-cases (bytes_eq id info.id)) [
      | inl t ↦ absurd (cc (rw (g, t) at e))
      | inr f ↦
          omega (arith, depth_rounds-Lineage c info rounds branch.parent older h (rw (g, f) at e))
    ]

-- A branch that `validate_depth` accepts has at most 63 ancestors, so `ancestry` accepts it too.
pub validate_depth-Lineage :
    (c : BranchCatalog) (info : BranchInfo) (path : List BranchInfo)
    → Lineage c info.parent path
    → validate_depth c info ≡ ok tt
    → length path < 64
unfolding validate_depth
validate_depth-Lineage c info path h e =
    depth_rounds-Lineage c info max_lineage_depth info.parent path h e
