-- ===== src/Branch/Runs.antt =====
-- Runs of the catalog of salamander/src/branch.rs, and its theorems at concrete inputs.
use salamander_db.Prelude.{
  ℕ, ◌≡◌, refl, false, none, some, List, [], ◌∷◌, ◌==◌, if◌then◌else◌, get_elem?,
}
use salamander_db.Bytes.{bytes_eq, codes, pos}
use salamander_db.Errors.{Result, ok}
use salamander_db.Format.Types.{Id16, id_zero, StoredRecord, system}
use salamander_db.Format.Runs.{sample_envelope}
use salamander_db.Branch.{
  BranchInfo, BranchCatalog, active, archived, default_branch, initial_catalog, FromJson, rebuild,
  rebuild_from, rebuild_record, insert, archive, info_eq, require_parent, validate_depth,
  depth_rounds, ancestry, get, branch_name_new, ancestry_loop,
}
use salamander_db.Branch.Maps.{map_get, map_insert}
use salamander_db.Branch.Ancestry.{Lineage, reverse_onto, ancestry_total}
use salamander_db.Branch.Insert.{IsCatalog, insert-IsCatalog, initial_catalog-IsCatalog}
use salamander_db.Branch.Rebuild.{archive_lem, rebuild-IsCatalog, ancestry-IsCatalog}
use salamander_db.Branch.Scopes.{scopes_of, side_min, divergence_of, shared_count}
use salamander_db.Branch.Scopes.Common.{
  divergence, common_ancestor, with_paths, common_ancestor-divergence,
}
use salamander_db.Branch.Scopes.Cap.{scopes_of-get_elem?, Diverges, divergence_of-Diverges}

abbrev draft : BranchInfo
draft = record {
  id = 1 ∷ [];
  name = codes "draft";
  parent = some id_zero;
  fork_position = some 8;
  created_at_unix_nanos = pos 3;
  metadata = [];
  status = active;
}

-- A fork below its parent's own fork.
abbrev review : BranchInfo
review = record {
  id = 2 ∷ [];
  name = codes "review";
  parent = some (1 ∷ []);
  fork_position = some 5;
  created_at_unix_nanos = pos 4;
  metadata = [];
  status = active;
}

abbrev first_byte_from_json : FromJson
first_byte_from_json [] = none
first_byte_from_json (x ∷ xs) = if x == 1 then some draft else if x == 2 then some review else none

abbrev created : ℕ → Result StoredRecord
created n = ok (record {
  kind = system;
  flags = 0;
  position = 0;
  envelope = record sample_envelope { event_type = codes "salamander.branch.created" };
  payload = n ∷ [];
})

abbrev two_branches : BranchCatalog
two_branches = record {
  by_id = (id_zero, default_branch) ∷ (1 ∷ [], draft) ∷ (2 ∷ [], review) ∷ [];
  by_name = (codes "main", id_zero) ∷ (codes "draft", 1 ∷ []) ∷ (codes "review", 2 ∷ []) ∷ [];
}

rebuild_two : rebuild first_byte_from_json (created 1 ∷ created 2 ∷ []) ≡ ok two_branches
unfolding rebuild rebuild_from rebuild_record branch_name_new insert require_parent validate_depth
    depth_rounds map_get map_insert
rebuild_two = refl

two_branches_valid : IsCatalog two_branches
two_branches_valid =
    rebuild-IsCatalog first_byte_from_json (created 1 ∷ created 2 ∷ []) two_branches rebuild_two

rebuild-IsCatalog_example : IsCatalog two_branches
rebuild-IsCatalog_example =
    rebuild-IsCatalog first_byte_from_json (created 1 ∷ created 2 ∷ []) two_branches rebuild_two

abbrev one_branch : BranchCatalog
one_branch = record {
  by_id = (id_zero, default_branch) ∷ (1 ∷ [], draft) ∷ [];
  by_name = (codes "main", id_zero) ∷ (codes "draft", 1 ∷ []) ∷ [];
}

insert-draft : insert draft initial_catalog ≡ ok one_branch
unfolding insert require_parent validate_depth depth_rounds map_get map_insert
insert-draft = refl

insert-IsCatalog_example : IsCatalog one_branch
insert-IsCatalog_example =
    insert-IsCatalog draft initial_catalog one_branch initial_catalog-IsCatalog insert-draft

abbrev closed_draft : BranchInfo
closed_draft = record draft { status = archived }

abbrev draft_archived : BranchCatalog
draft_archived = record two_branches {
  by_id = (id_zero, default_branch) ∷ (1 ∷ [], closed_draft) ∷ (2 ∷ [], review) ∷ [];
}

archive_draft : archive closed_draft two_branches ≡ ok draft_archived
unfolding archive info_eq map_get map_insert
archive_draft = refl

archive_lem_example :
    IsCatalog draft_archived
    × (bytes_eq (1 ∷ []) id_zero ≡ false)
    × ((current : BranchInfo) × (get (1 ∷ []) two_branches ≡ some current)
        × (get (1 ∷ []) draft_archived ≡ some (record current { status = archived })))
    × ((id : Id16) → bytes_eq id (1 ∷ []) ≡ false → get id draft_archived ≡ get id two_branches)
archive_lem_example =
    archive_lem closed_draft two_branches draft_archived two_branches_valid archive_draft

get-review : get (2 ∷ []) two_branches ≡ some review
unfolding get map_get
get-review = refl

ancestry-IsCatalog_example :
    (path : List BranchInfo) × Lineage two_branches (some (2 ∷ [])) path
    × (ancestry two_branches (2 ∷ []) ≡ some (ok (reverse_onto path [])))
ancestry-IsCatalog_example =
    ancestry-IsCatalog two_branches (2 ∷ []) review two_branches_valid get-review

ancestry_total_example : (r : Result (List BranchInfo)) × (ancestry two_branches (2 ∷ []) ≡ some r)
ancestry_total_example = ancestry_total two_branches (2 ∷ [])

scopes_of-get_elem?_example :
    get_elem? (scopes_of 20 (default_branch ∷ draft ∷ review ∷ [])).1 0
    ≡ some (id_zero, side_min 20 (draft ∷ review ∷ []))
scopes_of-get_elem?_example =
    scopes_of-get_elem? (default_branch ∷ draft ∷ review ∷ []) 20 0 default_branch refl

divergence_of-Diverges_example :
    (ancestor : BranchInfo) × (at : ℕ) × (divergence_of
        (default_branch ∷ draft ∷ [])
        12
        (default_branch ∷ draft ∷ review ∷ [])
        17
      ≡ some (ancestor, at))
    × Diverges
        (default_branch ∷ draft ∷ [])
        (default_branch ∷ draft ∷ review ∷ [])
        12
        17
        ancestor
        at
divergence_of-Diverges_example =
    divergence_of-Diverges default_branch default_branch (draft ∷ []) (draft ∷ review ∷ []) 12 17
      refl

fork_divergence : divergence two_branches (1 ∷ []) 12 (2 ∷ []) 17 ≡ some (ok (draft, 5))
unfolding divergence with_paths ancestry ancestry_loop map_get divergence_of shared_count side_min
fork_divergence = refl

common_ancestor-divergence_example :
    common_ancestor two_branches (1 ∷ []) (2 ∷ []) ≡ some (ok draft)
common_ancestor-divergence_example =
    common_ancestor-divergence two_branches (1 ∷ []) (2 ∷ []) 12 17 5 draft fork_divergence
