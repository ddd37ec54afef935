-- ===== src/Branch/Scopes/Cap.antt =====
-- salamander/src/branch.rs: `replay_scopes` and `divergence_of` cap by the same fork positions.
use salamander_db.Prelude.{
  ℕ, zero, suc, ◌≤◌, ◌<◌, min, ◌≡◌, refl, sym, ap, ◌∙◌, inl, inr, true, false, Option, none, some,
  List, [], ◌∷◌, arith, Bool-cases, get_elem?, drop,
}
use salamander_db.Bytes.{bytes_eq, bytes_eq→eq, bytes_eq_iff}
use salamander_db.Branch.{BranchInfo}
use mathlib.Core.Path.{subst}
use salamander_db.Branch.Scopes.{scopes_of, shared_count, side_min, divergence_of}

-- `until` lowered to a fork position, if there is one.
abbrev lowered : ℕ → Option ℕ → ℕ
lowered until none = until
lowered until (some at) = min until at

lowered-min : (a b : ℕ) (f : Option ℕ) → lowered (min a b) f ≡ min a (lowered b f)
lowered-min a b none = refl
lowered-min a b (some at) = omega arith

side_min-lowered :
    (until : ℕ) (branch : BranchInfo) (path : List BranchInfo)
    → side_min until (branch ∷ path) ≡ side_min (lowered until branch.fork_position) path
unfolding side_min
side_min-lowered until branch path = go branch.fork_position
  where
    go :
        (f : Option ℕ)
        → side_min (elim f [ none ↦ until | some at ↦ min until at ]) path
          ≡ side_min (lowered until f) path
    go none = refl
    go (some at) = refl

side_min-nil : (a : ℕ) → side_min a [] ≡ a
unfolding side_min
side_min-nil a = refl

side_min-min :
    (path : List BranchInfo) (a b : ℕ) → side_min (min a b) path ≡ min a (side_min b path)
side_min-min [] a b = side_min-nil (min a b) ∙ ap (λ k. min a k) (sym (side_min-nil b))
side_min-min (branch ∷ path) a b =
    side_min-lowered (min a b) branch path
    ∙ ap (λ k. side_min k path) (lowered-min a b branch.fork_position)
    ∙ side_min-min path a (lowered b branch.fork_position)
    ∙ ap (λ k. min a k) (sym (side_min-lowered b branch path))

min_same : (n : ℕ) → min n n ≡ n
min_same n = omega arith

min_comm : (m n : ℕ) → min m n ≡ min n m
min_comm m n = omega arith

pub side_min_le : (path : List BranchInfo) (a : ℕ) → side_min a path ≤ a
side_min_le path a =
    let e : side_min (min a a) path ≡ min a (side_min a path) = side_min-min path a a in
    let e' : side_min (min a a) path ≡ side_min a path = ap (λ k. side_min k path) (min_same a) in
    omega (arith, e, e')

cap_lowered :
    (upto rest : ℕ) (path : List BranchInfo) (f : Option ℕ)
    → rest ≡ side_min upto path
    → min rest (elim f [ none ↦ upto | some at ↦ at ]) ≡ side_min (lowered upto f) path
cap_lowered upto rest path none e = omega (arith, e, side_min_le path upto)
cap_lowered upto rest path (some at) e =
    let swapped : side_min (min upto at) path ≡ side_min (min at upto) path =
      ap (λ k. side_min k path) (min_comm upto at) in
    omega (arith, e, swapped, side_min-min path at upto)

-- The bound of a branch is the least of the end of the replay and the forks of all younger branches.
pub scopes_of-side_min :
    (path : List BranchInfo) (branch : BranchInfo) (upto : ℕ)
    → (scopes_of upto (branch ∷ path)).0 ≡ side_min upto path
unfolding scopes_of
scopes_of-side_min [] branch upto = sym (side_min-nil upto)
scopes_of-side_min (child ∷ path) branch upto =
    cap_lowered upto (scopes_of upto (child ∷ path)).0 path child.fork_position
      (scopes_of-side_min path child upto)
    ∙ sym (side_min-lowered upto child path)

-- Each branch of a path is replayed up to the least of the replay's end and the fork positions
-- of all the branches behind it.
pub scopes_of-get_elem? :
    (path : List BranchInfo) (upto i : ℕ) (branch : BranchInfo)
    → get_elem? path i ≡ some branch
    → get_elem? (scopes_of upto path).1 i ≡ some (branch.id, side_min upto (drop (suc i) path))
unfolding scopes_of
scopes_of-get_elem? [] upto i branch h = cc
scopes_of-get_elem? (b ∷ path) upto zero branch h =
    let same : b ≡ branch = cc h in λ i. some ((same i).id, scopes_of-side_min path b upto i)
scopes_of-get_elem? (b ∷ path) upto (suc i) branch h = scopes_of-get_elem? path upto i branch h

pub shared_count-get_elem? :
    (left right : List BranchInfo) (i : ℕ)
    → i < shared_count left right
    → (a : BranchInfo) × (b : BranchInfo) × (get_elem? left i ≡ some a)
      × (get_elem? right i ≡ some b)
      × (a.id ≡ b.id)
unfolding shared_count
shared_count-get_elem? [] right i lt = absurd (omega arith)
shared_count-get_elem? (a ∷ left) [] i lt = absurd (omega arith)
shared_count-get_elem? (a ∷ left) (b ∷ right) zero lt = elim (Bool-cases (bytes_eq a.id b.id)) [
  | inr f ↦ absurd (omega (arith, (rw f at lt)))
  | inl t ↦ (a, b, refl, refl, bytes_eq→eq a.id b.id t)
]
shared_count-get_elem? (a ∷ left) (b ∷ right) (suc i) lt = elim (Bool-cases (bytes_eq a.id b.id)) [
  | inr f ↦ absurd (omega (arith, (rw f at lt)))
  | inl t ↦ shared_count-get_elem? left right i (omega (arith, (rw t at lt)))
]

shared_pos :
    (a b : BranchInfo) (left right : List BranchInfo)
    → bytes_eq a.id b.id ≡ true
    → 0 < shared_count (a ∷ left) (b ∷ right)
unfolding shared_count
shared_pos a b left right t = rw t (omega arith)

shared_count-maximal :
    (left right : List BranchInfo) (x y : BranchInfo)
    → get_elem? left (shared_count left right) ≡ some x
    → get_elem? right (shared_count left right) ≡ some y
    → bytes_eq x.id y.id ≡ false
unfolding shared_count
shared_count-maximal [] right x y e f = absurd (cc e)
shared_count-maximal (a ∷ left) [] x y e f = absurd (cc f)
shared_count-maximal (a ∷ left) (b ∷ right) x y e f = elim (Bool-cases (bytes_eq a.id b.id)) [
  | inr n ↦
      let ex : a ≡ x = cc (rw n at e) in
      let fy : b ≡ y = cc (rw n at f) in (λ i. bytes_eq (sym ex i).id (sym fy i).id) ∙ n
  | inl t ↦ shared_count-maximal left right x y (rw t at e) (rw t at f)
]

-- What `divergence_of` promises of two paths.
pub record Diverges (left right : List BranchInfo) (left_until right_until : ℕ)
    (ancestor : BranchInfo) (at : ℕ) : Type 0 where
  pub index : ℕ
  pub twin : BranchInfo
  pub left_upper : ℕ
  pub right_upper : ℕ
  pub in_left : get_elem? left index ≡ some ancestor
  pub in_right : get_elem? right index ≡ some twin
  pub same_id : ancestor.id ≡ twin.id
  pub deepest :
      (x y : BranchInfo)
      → get_elem? left (suc index) ≡ some x
      → get_elem? right (suc index) ≡ some y
      → bytes_eq x.id y.id ≡ false
  pub left_scope : get_elem? (scopes_of left_until left).1 index ≡ some (ancestor.id, left_upper)
  pub right_scope :
      get_elem? (scopes_of right_until right).1 index ≡ some (ancestor.id, right_upper)
  pub position : at ≡ min left_upper right_upper

-- Two paths that begin at one branch have a divergence. It names a branch that stands at one place in
-- both paths, behind which the paths no longer agree; the position is the smaller of the two bounds
-- up to which the replays of the two timelines read that branch.
pub divergence_of-Diverges :
    (a b : BranchInfo) (left right : List BranchInfo) (left_until right_until : ℕ)
    → a.id ≡ b.id
    → (ancestor : BranchInfo) × (at : ℕ) × (divergence_of
          (a ∷ left)
          left_until
          (b ∷ right)
          right_until
        ≡ some (ancestor, at))
      × Diverges (a ∷ left) (b ∷ right) left_until right_until ancestor at
unfolding divergence_of
divergence_of-Diverges a b left right left_until right_until same =
    go (shared_count (a ∷ left) (b ∷ right)) refl first
  where
    first : 0 < shared_count (a ∷ left) (b ∷ right)
    first = shared_pos a b left right ((bytes_eq_iff a.id b.id).1 same)

    go :
        (n : ℕ)
        → shared_count (a ∷ left) (b ∷ right) ≡ n
        → 0 < shared_count (a ∷ left) (b ∷ right)
        → (ancestor : BranchInfo) × (at : ℕ) × (divergence_of
              (a ∷ left)
              left_until
              (b ∷ right)
              right_until
            ≡ some (ancestor, at))
          × Diverges (a ∷ left) (b ∷ right) left_until right_until ancestor at
    go zero e p = absurd (omega (arith, e, p))
    go (suc n) e p =
        let (x, y, ex, ey, eq) =
          shared_count-get_elem? (a ∷ left) (b ∷ right) n (omega (arith, e)) in
        (
          x,
          min (side_min left_until (drop n left)) (side_min right_until (drop n right)),
          rw (e, ex, divergence_of) refl,
          record {
            index = n;
            twin = y;
            left_upper = side_min left_until (drop n left);
            right_upper = side_min right_until (drop n right);
            in_left = ex;
            in_right = ey;
            same_id = eq;
            deepest = λ u v eu ev.
                shared_count-maximal (a ∷ left) (b ∷ right) u v
                  (subst (λ k. get_elem? (a ∷ left) k ≡ some u) (sym e) eu)
                  (subst (λ k. get_elem? (b ∷ right) k ≡ some v) (sym e) ev);
            left_scope = scopes_of-get_elem? (a ∷ left) left_until n x ex;
            right_scope = rw eq (scopes_of-get_elem? (b ∷ right) right_until n y ey);
            position = refl;
          },
        )
