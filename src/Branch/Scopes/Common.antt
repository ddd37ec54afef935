-- ===== src/Branch/Scopes/Common.antt =====
-- salamander/src/branch.rs: `divergence` and `common_ancestor` of two branches of a catalog.
use salamander_db.Prelude.{
  ℕ, zero, suc, ◌≡◌, refl, ap, ◌∙◌, inl, inr, Option, none, some, List, [], ◌∷◌, arith,
  if◌then◌else◌, Bool-cases, Option-cases, get_elem?,
}
use salamander_db.Bytes.{bytes_eq}
use salamander_db.Errors.{Result, ok, err, invalid_branch_ancestry}
use salamander_db.Format.Types.{Id16}
use salamander_db.Branch.{BranchInfo, BranchCatalog, ancestry}
use salamander_db.Branch.Scopes.{shared_count, divergence_of}
use salamander_db.Branch.Scopes.Cap.{shared_count-get_elem?}

-- The two ancestries, each with its `?`.
unfoldable pub with_paths {ℓ} :
    {A : Type ℓ}
    → BranchCatalog
    → Id16
    → Id16
    → (List BranchInfo → List BranchInfo → Option (Result A))
    → Option (Result A)
with_paths c left right body = elim (ancestry c left) [
  | none ↦ none
  | some (err e) ↦ some (err e)
  | some (ok left_path) ↦ elim (ancestry c right) [
    | none ↦ none
    | some (err e) ↦ some (err e)
    | some (ok right_path) ↦ body left_path right_path
  ]
]

-- `none` stands for the panic of `divergence_of` too.
unfoldable pub divergence : BranchCatalog → Id16 → ℕ → Id16 → ℕ → Option (Result (BranchInfo × ℕ))
divergence c left left_until right right_until = with_paths c left right (λ left_path right_path.
    elim (divergence_of left_path left_until right_path right_until) [
      | none ↦ none
      | some found ↦ some (ok found)
    ])

-- `zip`, `take_while`, `map` and `last` in one walk.
unfoldable pub last_shared : List BranchInfo → List BranchInfo → Option BranchInfo
last_shared [] right = none
last_shared (a ∷ left) [] = none
last_shared (a ∷ left) (b ∷ right) =
    let younger : Option BranchInfo = last_shared left right in
    if bytes_eq a.id b.id then elim younger [ none ↦ some a | some x ↦ some x ] else none

unfoldable pub common_ancestor : BranchCatalog → Id16 → Id16 → Option (Result BranchInfo)
common_ancestor c left right = with_paths c left right (λ left_path right_path.
    elim (last_shared left_path right_path) [
      | none ↦ some (err (invalid_branch_ancestry "branches have no common root"))
      | some branch ↦ some (ok branch)
    ])

last_shared-none :
    (left right : List BranchInfo) → shared_count left right ≡ 0 → last_shared left right ≡ none
unfolding last_shared shared_count
last_shared-none [] right h = refl
last_shared-none (a ∷ left) [] h = refl
last_shared-none (a ∷ left) (b ∷ right) h = elim (Bool-cases (bytes_eq a.id b.id)) [
  | inl t ↦ absurd (omega (arith, (rw t at h)))
  | inr f ↦ rw f refl
]

last_shared-get_elem? :
    (left right : List BranchInfo) (n : ℕ)
    → shared_count left right ≡ suc n
    → last_shared left right ≡ get_elem? left n
unfolding last_shared shared_count
last_shared-get_elem? [] right n h = absurd (omega (arith, h))
last_shared-get_elem? (a ∷ left) [] n h = absurd (omega (arith, h))
last_shared-get_elem? (a ∷ left) (b ∷ right) zero h = elim (Bool-cases (bytes_eq a.id b.id)) [
  | inl t ↦ rw (t, last_shared-none left right (omega (arith, (rw t at h)))) refl
  | inr f ↦ absurd (omega (arith, (rw f at h)))
]
last_shared-get_elem? (a ∷ left) (b ∷ right) (suc n) h = elim (Bool-cases (bytes_eq a.id b.id)) [
  | inl t ↦
      let more : shared_count left right ≡ suc n = omega (arith, (rw t at h)) in
      let (x, y, ex, ey, same) = shared_count-get_elem? left right n (omega (arith, more)) in
      rw (t, last_shared-get_elem? left right n more, ex) refl
  | inr f ↦ absurd (omega (arith, (rw f at h)))
]

divergence_of-last_shared :
    (left right : List BranchInfo) (left_until right_until at : ℕ) (ancestor : BranchInfo)
    → divergence_of left left_until right right_until ≡ some (ancestor, at)
    → last_shared left right ≡ some ancestor
unfolding divergence_of
divergence_of-last_shared left right left_until right_until at ancestor h =
    go (shared_count left right) refl
  where
    go : (n : ℕ) → shared_count left right ≡ n → last_shared left right ≡ some ancestor
    go zero e = absurd (cc (rw (e, divergence_of) at h))
    go (suc n) e =
        let (x, y, ex, ey, same) = shared_count-get_elem? left right n (omega (arith, e)) in
        let first : x ≡ ancestor = cc (rw (e, ex, divergence_of) at h) in
        last_shared-get_elem? left right n e ∙ ex ∙ ap some first

-- Where the divergence of two branches is found, its branch is the common ancestor that the
-- catalog reports for them.
pub common_ancestor-divergence :
    (c : BranchCatalog) (left right : Id16) (left_until right_until at : ℕ) (ancestor : BranchInfo)
    → divergence c left left_until right right_until ≡ some (ok (ancestor, at))
    → common_ancestor c left right ≡ some (ok ancestor)
unfolding divergence common_ancestor with_paths
common_ancestor-divergence c left right left_until right_until at ancestor h =
    go (ancestry c left) (ancestry c right) h
  where
    go :
        (l r : Option (Result (List BranchInfo)))
        → elim l [
          | none ↦ none
          | some (err e) ↦ some (err e)
          | some (ok left_path) ↦ elim r [
            | none ↦ none
            | some (err e) ↦ some (err e)
            | some (ok right_path) ↦
                elim (divergence_of left_path left_until right_path right_until) [
                  | none ↦ none
                  | some found ↦ some (ok found)
                ]
          ]
        ]
          ≡ some (ok (ancestor, at))
        → elim l [
          | none ↦ none
          | some (err e) ↦ some (err e)
          | some (ok left_path) ↦ elim r [
            | none ↦ none
            | some (err e) ↦ some (err e)
            | some (ok right_path) ↦ elim (last_shared left_path right_path) [
              | none ↦ some (err (invalid_branch_ancestry "branches have no common root"))
              | some branch ↦ some (ok branch)
            ]
          ]
        ]
          ≡ some (ok ancestor)
    go none r e = absurd (cc e)
    go (some (err x)) r e = absurd (cc e)
    go (some (ok l)) none e = absurd (cc e)
    go (some (ok l)) (some (err x)) e = absurd (cc e)
    go (some (ok l)) (some (ok r)) e =
        elim (Option-cases (divergence_of l left_until r right_until)) [
          | inl n ↦ absurd (cc (rw n at e))
          | inr (found, f) ↦
              let same : found ≡ (ancestor, at) = cc (rw f at e) in
              rw
                (divergence_of-last_shared l r left_until right_until at ancestor
                  (f ∙ ap some same))
                refl
        ]
