-- ===== src/Branch.antt =====
-- salamander/src/branch.rs: branch names, branch metadata and the catalog of branches. The two
-- hash maps are association lists; the catalog's order of iteration is not used by what is modelled.
pub mod Maps
pub mod Equal
pub mod Insert
pub mod Rebuild
pub mod Ancestry
pub mod Scopes
mod Runs
use salamander_db.Prelude.{
  ℕ, zero, suc, Bool, true, false, not, ◌&&◌, ◌||◌, Option, none, some, List, [], ◌∷◌, ltb, ◌==◌,
  if◌then◌else◌, length,
}
use salamander_db.Bytes.{Bytes, ℤ, bytes_eq, codes, is_empty, contains_nul, pos, negsuc}
use salamander_db.Errors.{
  Result, ok, err, fail_if, invalid_argument, corrupt, resource_limit, branch_not_found,
  branch_exists, invalid_branch_ancestry, ◌>>=◌, ◌>>◌,
}
use salamander_db.Format.Types.{Id16, id_zero, Metadata, StoredRecord}
use Maps.{Map, map_get, map_insert}

abbrev pub default_branch_name : Bytes
default_branch_name = codes "main"

abbrev pub max_lineage_depth : ℕ
max_lineage_depth = 64

abbrev pub max_name_bytes : ℕ
max_name_bytes = 255

-- A `BranchName` is the bytes that this constructor accepts.
unfoldable pub branch_name_new : Bytes → Result Bytes
branch_name_new value = do
  fail_if (is_empty value || contains_nul value)
      (invalid_argument "branch name must be nonempty and contain no NUL")
  fail_if (ltb max_name_bytes (length value))
      (resource_limit "branch name bytes" (length value) max_name_bytes)
  ok value

pub data BranchStatus : Type 0 where
  active archived : BranchStatus

pub record BranchInfo : Type 0 where
  pub id : Id16
  pub name : Bytes
  pub parent : Option Id16
  pub fork_position : Option ℕ
  pub created_at_unix_nanos : ℤ
  pub metadata : Metadata
  pub status : BranchStatus

pub record BranchCatalog : Type 0 where
  pub by_id : Map BranchInfo
  pub by_name : Map Id16

abbrev pub contains_key {ℓ} : {A : Type ℓ} → Bytes → Map A → Bool
contains_key key m = elim (map_get key m) [ none ↦ false | some x ↦ true ]

unfoldable pub get : Id16 → BranchCatalog → Option BranchInfo
get id c = map_get id c.by_id

unfoldable pub named : Bytes → BranchCatalog → Option BranchInfo
named name c = elim (map_get name c.by_name) [ none ↦ none | some id ↦ map_get id c.by_id ]

abbrev pub parent_of : Option BranchInfo → Option Id16
parent_of none = none
parent_of (some b) = b.parent

-- The loop of `validate_depth`: the rounds that are left, then the parent.
unfoldable pub depth_rounds : BranchCatalog → BranchInfo → ℕ → Option Id16 → Result (Unit {0})
depth_rounds c info zero parent =
    err (invalid_branch_ancestry "lineage exceeds maximum depth {MAX_LINEAGE_DEPTH}")
depth_rounds c info (suc rounds) none = ok tt
depth_rounds c info (suc rounds) (some id) =
    let rest = depth_rounds c info rounds (parent_of (map_get id c.by_id)) in
    if bytes_eq id info.id then err (invalid_branch_ancestry "cycle detected") else rest

unfoldable pub validate_depth : BranchCatalog → BranchInfo → Result (Unit {0})
validate_depth c info = depth_rounds c info max_lineage_depth info.parent

-- The test that a branch with a parent has one in the catalog.
unfoldable pub require_parent : BranchCatalog → Option Id16 → Result (Unit {0})
require_parent c none = ok tt
require_parent c (some parent) =
    fail_if (not (contains_key parent c.by_id)) (branch_not_found parent)

unfoldable pub insert : BranchInfo → BranchCatalog → Result BranchCatalog
insert info c = do
  fail_if (contains_key info.id c.by_id) (branch_exists info.name)
  fail_if (contains_key info.name c.by_name) (branch_exists info.name)
  require_parent c info.parent
  validate_depth c info
  ok (record {
    by_id = map_insert info.id info c.by_id;
    by_name = map_insert info.name info.id c.by_name;
  })

abbrev pub option_bytes_eq : Option Bytes → Option Bytes → Bool
option_bytes_eq none none = true
option_bytes_eq none (some y) = false
option_bytes_eq (some x) none = false
option_bytes_eq (some x) (some y) = bytes_eq x y

abbrev pub option_eq : Option ℕ → Option ℕ → Bool
option_eq none none = true
option_eq none (some y) = false
option_eq (some x) none = false
option_eq (some x) (some y) = x == y

abbrev pub int_eq : ℤ → ℤ → Bool
int_eq (pos x) (pos y) = x == y
int_eq (pos x) (negsuc y) = false
int_eq (negsuc x) (pos y) = false
int_eq (negsuc x) (negsuc y) = x == y

abbrev pub metadata_eq : Metadata → Metadata → Bool
metadata_eq [] [] = true
metadata_eq [] (y ∷ ys) = false
metadata_eq (x ∷ xs) [] = false
metadata_eq (x ∷ xs) (y ∷ ys) = bytes_eq x.0 y.0 && bytes_eq x.1 y.1 && metadata_eq xs ys

abbrev pub status_eq : BranchStatus → BranchStatus → Bool
status_eq active active = true
status_eq active archived = false
status_eq archived active = false
status_eq archived archived = true

-- The derived `PartialEq`.
unfoldable pub info_eq : BranchInfo → BranchInfo → Bool
info_eq a b =
    bytes_eq a.id b.id
    && bytes_eq a.name b.name
    && option_bytes_eq a.parent b.parent
    && option_eq a.fork_position b.fork_position
    && int_eq a.created_at_unix_nanos b.created_at_unix_nanos
    && metadata_eq a.metadata b.metadata
    && status_eq a.status b.status

unfoldable pub archive : BranchInfo → BranchCatalog → Result BranchCatalog
archive info c = elim (map_get info.id c.by_id) [
  | none ↦ err (branch_not_found info.id)
  | some current ↦ do
    fail_if (bytes_eq current.id id_zero) (invalid_argument "the default branch cannot be archived")
    fail_if (not (info_eq info (record current { status = archived })))
        (invalid_branch_ancestry "archive metadata may only change branch status")
    ok (record c { by_id = map_insert info.id info c.by_id })
]

abbrev pub default_branch : BranchInfo
default_branch = record {
  id = id_zero;
  name = default_branch_name;
  parent = none;
  fork_position = none;
  created_at_unix_nanos = pos 0;
  metadata = [];
  status = active;
}

abbrev pub initial_catalog : BranchCatalog
initial_catalog = record {
  by_id = (id_zero, default_branch) ∷ [];
  by_name = (default_branch_name, id_zero) ∷ [];
}

-- `serde_json::from_slice` for a `BranchInfo`.
abbrev pub FromJson : Type 0
FromJson = Bytes → Option BranchInfo

unfoldable pub rebuild_record : FromJson → StoredRecord → BranchCatalog → Result BranchCatalog
rebuild_record from_json rec c =
    let created : Bool = bytes_eq rec.envelope.event_type (codes "salamander.branch.created") in
    if not created && not (bytes_eq rec.envelope.event_type (codes "salamander.branch.archived"))
    then ok c
    else elim (from_json rec.payload) [
      | none ↦ err (corrupt rec.position "branch metadata decode: {error}")
      | some info ↦ if created then insert info c else archive info c
    ]

unfoldable pub rebuild_from :
    FromJson → List (Result StoredRecord) → BranchCatalog → Result BranchCatalog
rebuild_from from_json [] c = ok c
rebuild_from from_json (item ∷ items) c = do
  rec ← item
  c' ← rebuild_record from_json rec c
  rebuild_from from_json items c'

unfoldable pub rebuild : FromJson → List (Result StoredRecord) → Result BranchCatalog
rebuild from_json items = do
  name ← branch_name_new default_branch_name
  rebuild_from from_json items initial_catalog

-- The loop of `ancestry` on fuel; `none` means that the fuel ran out. The vector is kept in the
-- order that the final `reverse` gives it, so a push goes to its front.
unfoldable pub ancestry_loop :
    BranchCatalog → ℕ → Option Id16 → List BranchInfo → Option (Result (List BranchInfo))
ancestry_loop c zero current result = none
ancestry_loop c (suc fuel) none result = some (ok result)
ancestry_loop c (suc fuel) (some branch_id) result = elim (map_get branch_id c.by_id) [
  | none ↦ some (err (branch_not_found branch_id))
  | some branch ↦
      if ltb max_lineage_depth (suc (length result))
      then some (err (invalid_branch_ancestry "lineage depth exceeded"))
      else ancestry_loop c fuel branch.parent (branch ∷ result)
]

-- The vector has at most 64 branches after a round that goes on.
unfoldable pub ancestry : BranchCatalog → Id16 → Option (Result (List BranchInfo))
ancestry c id = ancestry_loop c 66 (some id) []
