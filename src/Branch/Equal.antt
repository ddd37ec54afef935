-- ===== src/Branch/Equal.antt =====
-- salamander/src/branch.rs: the derived equality of `BranchInfo` is equality.
use salamander_db.Prelude.{
  ℕ, ◌≡◌, refl, ap, Bool, true, false, ◌&&◌, Option, none, some, [], ◌∷◌, ==_iff,
}
use salamander_db.Bytes.{Bytes, ℤ, bytes_eq, bytes_eq→eq, pos, negsuc}
use salamander_db.Format.Types.{Metadata}
use salamander_db.Branch.{
  BranchInfo, BranchStatus, active, archived, option_bytes_eq, option_eq, int_eq, metadata_eq,
  status_eq, info_eq,
}

both_true : (a b : Bool) → (a && b) ≡ true → (a ≡ true) × (b ≡ true)
both_true true b h = (refl, h)
both_true false b h = cc

option_bytes_eq→eq : (x y : Option Bytes) → option_bytes_eq x y ≡ true → x ≡ y
option_bytes_eq→eq none none h = refl
option_bytes_eq→eq none (some y) h = cc
option_bytes_eq→eq (some x) none h = cc
option_bytes_eq→eq (some x) (some y) h = ap some (bytes_eq→eq x y h)

option_eq→eq : (x y : Option ℕ) → option_eq x y ≡ true → x ≡ y
option_eq→eq none none h = refl
option_eq→eq none (some y) h = cc
option_eq→eq (some x) none h = cc
option_eq→eq (some x) (some y) h = ap some ((==_iff x y).0 h)

int_eq→eq : (x y : ℤ) → int_eq x y ≡ true → x ≡ y
int_eq→eq (pos x) (pos y) h = ap pos ((==_iff x y).0 h)
int_eq→eq (pos x) (negsuc y) h = cc
int_eq→eq (negsuc x) (pos y) h = cc
int_eq→eq (negsuc x) (negsuc y) h = ap negsuc ((==_iff x y).0 h)

metadata_eq→eq : (x y : Metadata) → metadata_eq x y ≡ true → x ≡ y
metadata_eq→eq [] [] h = refl
metadata_eq→eq [] (y ∷ ys) h = cc
metadata_eq→eq (x ∷ xs) [] h = cc
metadata_eq→eq (x ∷ xs) (y ∷ ys) h =
    let (front, tail) = both_true (bytes_eq x.0 y.0 && bytes_eq x.1 y.1) (metadata_eq xs ys) h in
    let (k, v) = both_true (bytes_eq x.0 y.0) (bytes_eq x.1 y.1) front in
    λ i. (bytes_eq→eq x.0 y.0 k i, bytes_eq→eq x.1 y.1 v i) ∷ metadata_eq→eq xs ys tail i

status_eq→eq : (x y : BranchStatus) → status_eq x y ≡ true → x ≡ y
status_eq→eq active active h = refl
status_eq→eq active archived h = cc
status_eq→eq archived active h = cc
status_eq→eq archived archived h = refl

pub info_eq→eq : (a b : BranchInfo) → info_eq a b ≡ true → a ≡ b
unfolding info_eq
info_eq→eq a b h =
    let (h6, e7) =
      both_true
        (bytes_eq a.id b.id
          && bytes_eq a.name b.name
          && option_bytes_eq a.parent b.parent
          && option_eq a.fork_position b.fork_position
          && int_eq a.created_at_unix_nanos b.created_at_unix_nanos
          && metadata_eq a.metadata b.metadata)
        (status_eq a.status b.status) h in
    let (h5, e6) =
      both_true
        (bytes_eq a.id b.id
          && bytes_eq a.name b.name
          && option_bytes_eq a.parent b.parent
          && option_eq a.fork_position b.fork_position
          && int_eq a.created_at_unix_nanos b.created_at_unix_nanos)
        (metadata_eq a.metadata b.metadata) h6 in
    let (h4, e5) =
      both_true
        (bytes_eq a.id b.id
          && bytes_eq a.name b.name
          && option_bytes_eq a.parent b.parent
          && option_eq a.fork_position b.fork_position)
        (int_eq a.created_at_unix_nanos b.created_at_unix_nanos) h5 in
    let (h3, e4) =
      both_true (bytes_eq a.id b.id && bytes_eq a.name b.name && option_bytes_eq a.parent b.parent)
        (option_eq a.fork_position b.fork_position) h4 in
    let (h2, e3) =
      both_true (bytes_eq a.id b.id && bytes_eq a.name b.name) (option_bytes_eq a.parent b.parent)
        h3 in
    let (e1, e2) = both_true (bytes_eq a.id b.id) (bytes_eq a.name b.name) h2 in
    λ i. record {
      id = bytes_eq→eq a.id b.id e1 i;
      name = bytes_eq→eq a.name b.name e2 i;
      parent = option_bytes_eq→eq a.parent b.parent e3 i;
      fork_position = option_eq→eq a.fork_position b.fork_position e4 i;
      created_at_unix_nanos = int_eq→eq a.created_at_unix_nanos b.created_at_unix_nanos e5 i;
      metadata = metadata_eq→eq a.metadata b.metadata e6 i;
      status = status_eq→eq a.status b.status e7 i;
    }
