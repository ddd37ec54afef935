-- ===== src/Branch/Scopes.antt =====
-- salamander/src/branch.rs: the records that a replay of a branch sees, and where two timelines part.
pub mod Cap
pub mod Common
use salamander_db.Prelude.{
  ℕ, zero, suc, min, Option, none, some, List, [], ◌∷◌, if◌then◌else◌, get_elem?, drop,
}
use salamander_db.Bytes.{bytes_eq}
use salamander_db.Errors.{Result, ok, err}
use salamander_db.Format.Types.{Id16}
use salamander_db.Branch.{BranchInfo, BranchCatalog, ancestry}

-- One round of the reversed `map` in `replay_scopes`: the child is the branch behind this one.
abbrev pub cap_by_child : ℕ → ℕ → List BranchInfo → ℕ
cap_by_child upto upper [] = upper
cap_by_child upto upper (child ∷ rest) =
    min upper (elim child.fork_position [ none ↦ upto | some at ↦ at ])

-- The branches from the youngest to the oldest, with the `upper` that is left; the pairs come in the
-- order that the final `reverse` gives them.
unfoldable pub scopes_of : ℕ → List BranchInfo → ℕ × List (Id16 × ℕ)
scopes_of upto [] = (upto, [])
scopes_of upto (branch ∷ rest) =
    let younger : ℕ × List (Id16 × ℕ) = scopes_of upto rest in
    let upper : ℕ = cap_by_child upto younger.0 rest in (upper, (branch.id, upper) ∷ younger.1)

abbrev map_result {ℓ κ} :
    {A : Type ℓ} {B : Type κ} → (A → B) → Option (Result A) → Option (Result B)
map_result f none = none
map_result f (some (err e)) = some (err e)
map_result f (some (ok x)) = some (ok (f x))

unfoldable pub replay_scopes : BranchCatalog → Id16 → ℕ → Option (Result (List (Id16 × ℕ)))
replay_scopes c id upto = map_result (λ path. (scopes_of upto path).1) (ancestry c id)

-- The length of the shared front of two paths.
unfoldable pub shared_count : List BranchInfo → List BranchInfo → ℕ
shared_count [] right = 0
shared_count (a ∷ left) [] = 0
shared_count (a ∷ left) (b ∷ right) =
    let more = shared_count left right in if bytes_eq a.id b.id then suc more else 0

unfoldable pub side_min : ℕ → List BranchInfo → ℕ
side_min until [] = until
side_min until (branch ∷ path) =
    side_min (elim branch.fork_position [ none ↦ until | some at ↦ min until at ]) path

-- `none` is the index out of range at `left_path[shared - 1]`.
unfoldable pub divergence_of : List BranchInfo → ℕ → List BranchInfo → ℕ → Option (BranchInfo × ℕ)
divergence_of left_path left_until right_path right_until =
    elim (shared_count left_path right_path) [
      | zero ↦ none
      | suc before ↦ elim (get_elem? left_path before) [
        | none ↦ none
        | some ancestor ↦ some (
          ancestor,
          min (side_min left_until (drop (suc before) left_path))
              (side_min right_until (drop (suc before) right_path)),
        )
      ]
    ]
