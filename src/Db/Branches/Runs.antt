-- ===== src/Db/Branches/Runs.antt =====
-- Runs of the branch operations of salamander/src/db.rs: a fork of the default branch of a new database, its
-- archiving, and the theorems at these.
use salamander_db.Prelude.{
  ℕ, ◌≡◌, refl, sym, ap, ◌∙◌, ◌⊎◌, Bool, true, false, none, some, List, [], ◌∷◌, if◌then◌else◌,
}
use salamander_db.Bytes.{Bytes, bytes_eq, codes}
use salamander_db.Errors.{Result, ok, err, corrupt, ok-injective}
use salamander_db.Format.Types.{id_zero, event_type_new, StoredRecord}
use salamander_db.Format.Checksum.{mixing}
use salamander_db.Format.Runs.{sample_envelope}
use salamander_db.Format.Frame.{encode, validate_flags, frame_crc}
use salamander_db.Format.Metadata.{validate_metadata_key}
use salamander_db.Format.Envelope.Encode.{encode_envelope, encode_entries, encode_entry}
use salamander_db.Format.Cursor.{enforce_limit, write_short_bytes}
use salamander_db.Branch.{
  BranchInfo, archived, initial_catalog, get, insert, archive, info_eq, validate_depth,
  depth_rounds, require_parent, FromJson, rebuild, rebuild_from, rebuild_record, branch_name_new,
}
use salamander_db.Branch.Equal.{info_eq→eq}
use salamander_db.Branch.Maps.{map_get, map_insert}
use salamander_db.Commit.{manual}
use salamander_db.Log.Record.{encode_kind}
use salamander_db.Log.Segment.{create, append_system}
use salamander_db.Log.Store.{append_system_record, make_room, roll}
use salamander_db.Log.Store.Reopen.{fresh_log}
use salamander_db.Stream.Rebuild.{empty_catalog}
use salamander_db.Db.{Db, commit, persist_core_catalog}
use salamander_db.Db.Digest.{timestamp_nanos}
use salamander_db.Db.Branches.{
  BranchEnv, new_branch, branch_envelope, is_batch_boundary, check_fork, fork_branch,
  archive_branch,
}
use salamander_db.Db.Branches.Logged.{branch_record, Logged}
use salamander_db.Db.Branches.Rebuilt.{Checked, fork_branch-Logged, archive_branch-Logged}
mod Ends

abbrev lone_db : Db ℕ
lone_db = record {
  log = fresh_log sample_envelope.event_id 4096;
  views = [];
  policy = manual;
  pending_bytes = 0;
  pending_count = 0;
  catalog = empty_catalog;
  branches = initial_catalog;
  durable_head = 0;
  checkpoint = none;
}

abbrev branch_env : BranchEnv
branch_env = record {
  timestamp_ms = 5;
  branch_id = sample_envelope.event_id;
  event_id = sample_envelope.stream_id;
}

abbrev draft_branch : BranchInfo
draft_branch = new_branch branch_env id_zero 0 (codes "draft") []

abbrev done_branch : BranchInfo
done_branch = record draft_branch { status = archived }

-- A printer and its parser: these two branches print, as one byte, and nothing else does.
abbrev print_as : Bool → Bool → Result Bytes
print_as true other = ok (1 ∷ [])
print_as false true = ok (2 ∷ [])
print_as false false = err (corrupt 0 "json")

abbrev print_branch : BranchInfo → Result Bytes
print_branch info = print_as (info_eq info draft_branch) (info_eq info done_branch)

abbrev parse_branch : FromJson
parse_branch payload =
    if bytes_eq payload (1 ∷ [])
    then some draft_branch
    else if bytes_eq payload (2 ∷ [])
    then some done_branch
    else none

print_round : (i : BranchInfo) (b : Bytes) → print_branch i ≡ ok b → parse_branch b ≡ some i
print_round i b h = go (info_eq i draft_branch) (info_eq i done_branch) refl refl h
  where
    go :
        (x y : Bool)
        → info_eq i draft_branch ≡ x
        → info_eq i done_branch ≡ y
        → print_as x y ≡ ok b
        → parse_branch b ≡ some i
    go true y e1 e2 h =
        ap (λ k. parse_branch k) (sym (ok-injective h))
        ∙ ap (λ k. some k) (sym (info_eq→eq i draft_branch e1))
    go false true e1 e2 h =
        ap (λ k. parse_branch k) (sym (ok-injective h))
        ∙ ap (λ k. some k) (sym (info_eq→eq i done_branch e2))
    go false false e1 e2 h = absurd (cc h)

abbrev after_fork : Db ℕ × Result BranchInfo
after_fork = fork_branch mixing print_branch branch_env id_zero 0 (codes "draft") [] [] lone_db

after_fork_is : after_fork ≡ (after_fork.0, ok draft_branch)
unfolding fork_branch check_fork is_batch_boundary insert get map_get map_insert require_parent
    validate_depth depth_rounds branch_envelope timestamp_nanos append_system_record make_room roll
    append_system create encode_kind encode encode_envelope encode_entries encode_entry frame_crc
    enforce_limit write_short_bytes validate_metadata_key validate_flags event_type_new info_eq
after_fork_is = refl

no_records : rebuild parse_branch [] ≡ ok lone_db.branches
unfolding rebuild rebuild_from branch_name_new
no_records = refl

fork_branch-Logged_example :
    Checked id_zero 0 [] draft_branch lone_db after_fork.0.branches
    × Logged mixing parse_branch print_branch branch_env
        (codes "salamander.branch.created")
        draft_branch
        []
        lone_db
        after_fork.0
    × (draft_branch ≡ draft_branch)
fork_branch-Logged_example =
    fork_branch-Logged mixing parse_branch print_branch branch_env [] lone_db after_fork.0
      draft_branch id_zero 0 (codes "draft") [] [] print_round no_records after_fork_is

abbrev fork_records : List (Result StoredRecord)
fork_records =
    ok (
      branch_record 0 branch_env sample_envelope.event_id draft_branch.id
        (codes "salamander.branch.created") (1 ∷ []))
    ∷ []

fork_read : rebuild parse_branch fork_records ≡ ok after_fork.0.branches
unfolding rebuild rebuild_from rebuild_record branch_name_new fork_branch check_fork
    is_batch_boundary insert get map_get map_insert require_parent validate_depth depth_rounds
    branch_envelope timestamp_nanos append_system_record make_room roll append_system create
    encode_kind encode encode_envelope encode_entries encode_entry frame_crc enforce_limit
    write_short_bytes validate_metadata_key validate_flags event_type_new info_eq
fork_read = refl

abbrev after_archive : Db ℕ × Result BranchInfo
after_archive = archive_branch mixing print_branch branch_env sample_envelope.event_id after_fork.0

after_archive_is : after_archive ≡ (after_archive.0, ok done_branch)
unfolding archive_branch archive commit persist_core_catalog fork_branch check_fork
    is_batch_boundary insert get map_get map_insert require_parent validate_depth depth_rounds
    branch_envelope timestamp_nanos append_system_record make_room roll append_system create
    encode_kind encode encode_envelope encode_entries encode_entry frame_crc enforce_limit
    write_short_bytes validate_metadata_key validate_flags event_type_new info_eq
after_archive_is = refl

archive_branch-Logged_example :
    (bytes_eq sample_envelope.event_id id_zero ≡ false)
    × ((info : BranchInfo) × (get sample_envelope.event_id after_fork.0.branches ≡ some info)
        × (((info.status ≡ archived) × (after_fork.0 ≡ after_archive.0) × (info ≡ done_branch))
            ⊎ (Logged mixing parse_branch print_branch branch_env
                  (codes "salamander.branch.archived")
                  done_branch
                  fork_records
                  after_fork.0
                  after_archive.0
                × (record info { status = archived } ≡ done_branch)
                × (archive done_branch after_fork.0.branches ≡ ok after_archive.0.branches))))
archive_branch-Logged_example =
    archive_branch-Logged mixing parse_branch print_branch branch_env fork_records after_fork.0
      after_archive.0 done_branch sample_envelope.event_id print_round fork_read after_archive_is
