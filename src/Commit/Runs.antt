-- ===== src/Commit/Runs.antt =====
-- The policy of salamander/src/commit.rs at a concrete input.
use salamander_db.Prelude.{◌/◌, ◌%◌, ◌^◌, ◌≡◌, ◌↔◌, ◌⊎◌, true, none, some}
use salamander_db.Commit.{every_bytes, and_millis, should_commit, IsCrossed, should_commit_iff}

should_commit_iff_example :
    (should_commit (and_millis 200 (every_bytes 65536)) 12 1 250000000 ≡ true) ↔ (
      IsCrossed (some 65536) 12
      ⊎ (IsCrossed none 1 ⊎ IsCrossed (some 200) (250000000 / 1000000 % 2 ^ 64)))
should_commit_iff_example = should_commit_iff (and_millis 200 (every_bytes 65536)) 12 1 250000000
