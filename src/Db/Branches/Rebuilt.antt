-- ===== src/Db/Branches/Rebuilt.antt =====
-- salamander/src/db.rs: what forks and archivings do to the catalog of branches, in memory and in the log.
use salamander_db.Prelude.{
  ℕ, ◌≤◌, ◌≡◌, refl, ap, ◌∙◌, ◌⊎◌, inl, inr, Bool, true, false, not, some, List, arith, ltb,
  if◌then◌else◌, Bool-cases, Option-cases,
}
use salamander_db.Bytes.{Bytes, bytes_eq, codes}
use salamander_db.Errors.{
  SalamanderError, Result, ok, err, fail_if, offset_beyond_head, position_unavailable,
  branch_not_found, not_batch_boundary, bind-eq-ok, ok-injective,
}
use mathlib.Core.Path.{subst}
use salamander_db.Format.Types.{Id16, id_zero, Metadata, StoredRecord}
use salamander_db.Format.Checksum.{Crc32c}
use salamander_db.Branch.{
  BranchInfo, BranchStatus, BranchCatalog, active, archived, get, insert, archive, FromJson,
  rebuild,
}
use salamander_db.Log.Store.{head}
use salamander_db.Db.{Db}
use salamander_db.Db.Branches.{
  is_none, is_batch_boundary, BranchEnv, new_branch, check_fork, fork_branch, archived_with,
  archive_branch, status_is_archived,
}
use salamander_db.Db.Branches.Logged.{
  Logged, rebuild_from-archived, published-Logged, forked-Logged,
}

-- What a fork that succeeded went through.
pub record Checked {V : Type 0} (parent : Id16) (at : ℕ) (items : List (Result StoredRecord))
    (info : BranchInfo) (db : Db V) (updated : BranchCatalog) : Type 0 where
  pub parent_known : is_none (get parent db.branches) ≡ false
  pub below_head : at ≤ head db.log
  pub above_floor : db.log.manifest.retention_floor ≤ at
  pub boundary : is_batch_boundary db at items ≡ ok true
  pub inserted : insert info db.branches ≡ ok updated

fail_if-le : (x y : ℕ) (e : SalamanderError) (t : Unit {0}) → fail_if (ltb x y) e ≡ ok t → y ≤ x
fail_if-le x y e t h = elim (Bool-cases (ltb x y)) [
  | inl u ↦ absurd (cc (rw u at h))
  | inr f ↦ ground (arith, f)
]

fail_if-none : (b : Bool) (e : SalamanderError) (t : Unit {0}) → fail_if b e ≡ ok t → b ≡ false
fail_if-none true e t h = cc
fail_if-none false e t h = refl

check_fork-Checked :
    {V : Type 0} (env : BranchEnv) (parent : Id16) (at : ℕ) (name : Bytes) (metadata : Metadata)
    (items : List (Result StoredRecord)) (db : Db V) (updated : BranchCatalog)
    → check_fork env parent at name metadata items db ≡ ok updated
    → Checked parent at items (new_branch env parent at name metadata) db updated
unfolding check_fork
check_fork-Checked env parent at name metadata items db updated h =
    let (u1, e1, h1) =
      bind-eq-ok (fail_if (is_none (get parent db.branches)) (branch_not_found parent)) _ h in
    let (u2, e2, h2) = bind-eq-ok (fail_if (ltb (head db.log) at) (offset_beyond_head at)) _ h1 in
    let (u3, e3, h3) =
      bind-eq-ok
        (fail_if (ltb at db.log.manifest.retention_floor)
          (position_unavailable at db.log.manifest.retention_floor (head db.log) false))
        _ h2 in
    let (whole, e4, h4) = bind-eq-ok (is_batch_boundary db at items) _ h3 in
    let (u5, e5, h5) = bind-eq-ok (fail_if (not whole) (not_batch_boundary at)) _ h4 in
    record {
      parent_known = fail_if-none _ _ u1 e1;
      below_head = fail_if-le _ _ _ u2 e2;
      above_floor = fail_if-le _ _ _ u3 e3;
      boundary = e4 ∙ ap (λ b. ok b) (not-false whole (fail_if-none _ _ u5 e5));
      inserted = h5;
    }
  where
    not-false : (b : Bool) → not b ≡ false → b ≡ true
    not-false true e = refl
    not-false false e = cc e

module _ {V : Type 0} (crc : Crc32c) (from_json : FromJson) (to_json : BranchInfo → Result Bytes)
    (env : BranchEnv) (older : List (Result StoredRecord)) (db db' : Db V) (r : BranchInfo) where
  -- A fork that succeeds has a known parent, stands at a batch boundary between the retention floor and the
  -- head, and puts its branch into the catalog; the change is a system record of the log, committed, and a
  -- rebuild that reads it after the older records gives the catalog that the handle has. The catalog was the
  -- rebuild of the older records, and the JSON parser reads back what the printer wrote.
  pub fork_branch-Logged :
      (parent : Id16) (at : ℕ) (name : Bytes) (metadata : Metadata)
      (items : List (Result StoredRecord))
      → ((i : BranchInfo) (b : Bytes) → to_json i ≡ ok b → from_json b ≡ some i)
      → rebuild from_json older ≡ ok db.branches
      → fork_branch crc to_json env parent at name metadata items db ≡ (db', ok r)
      → Checked parent at items (new_branch env parent at name metadata) db db'.branches
        × Logged crc from_json to_json env (codes "salamander.branch.created") r older db db'
        × (new_branch env parent at name metadata ≡ r)
  unfolding fork_branch
  fork_branch-Logged parent at name metadata items round read h =
      let info : BranchInfo = new_branch env parent at name metadata in
      let (logged, same, up) =
        forked-Logged crc from_json to_json round env older db read info
          (check_fork env parent at name metadata items db) (to_json info) db' r refl
          (λ updated e.
            (check_fork-Checked env parent at name metadata items db updated e).inserted)
          h in
      (
        check_fork-Checked env parent at name metadata items db db'.branches up,
        subst
            (λ i.
              Logged crc from_json to_json env (codes "salamander.branch.created") i older db db')
            same logged,
        same,
      )

  archived_with-Logged :
      (round : (i : BranchInfo) (b : Bytes) → to_json i ≡ ok b → from_json b ≡ some i)
      (read : rebuild from_json older ≡ ok db.branches) (info : BranchInfo)
      (updated : Result BranchCatalog) (payload : Result Bytes)
      → archive info db.branches ≡ updated
      → to_json info ≡ payload
      → archived_with crc to_json env info db updated ≡ (db', ok r)
      → Logged crc from_json to_json env (codes "salamander.branch.archived") r older db db'
        × (info ≡ r)
        × (archive info db.branches ≡ ok db'.branches)
  archived_with-Logged round read info (err e) payload h1 h2 eq = absurd (cc (ap (λ x. x.1) eq))
  archived_with-Logged round read info (ok updated) (err e) h1 h2 eq =
      absurd (cc (ap (λ x. x.1) (rw h2 at eq)))
  archived_with-Logged round read info (ok updated) (ok payload) h1 h2 eq =
      let (logged, same, up) =
        published-Logged crc from_json to_json round env older db read
          (codes "salamander.branch.archived") info updated payload db' r _ h2
          (rebuild_from-archived from_json (head db.log) env db.log.manifest.database_id info
            payload (round info payload h2) db.branches updated h1)
          refl (rw h2 at eq) in
      (
        subst
            (λ i.
              Logged crc from_json to_json env (codes "salamander.branch.archived") i older db db')
            same logged,
        same,
        h1 ∙ ap (λ u. ok u) up,
      )

  -- An archiving that succeeds is not of the default branch. It leaves the handle as it is and gives the branch
  -- where that is archived already; or else the change of status is a system record of the log, committed, and a
  -- rebuild that reads it after the older records gives the catalog that the handle has. The catalog was
  -- the rebuild of the older records, and the JSON parser reads back what the printer wrote.
  pub archive_branch-Logged :
      (id : Id16)
      → ((i : BranchInfo) (b : Bytes) → to_json i ≡ ok b → from_json b ≡ some i)
      → rebuild from_json older ≡ ok db.branches
      → archive_branch crc to_json env id db ≡ (db', ok r)
      → (bytes_eq id id_zero ≡ false)
        × ((info : BranchInfo) × (get id db.branches ≡ some info)
            × (((info.status ≡ archived) × (db ≡ db') × (info ≡ r))
                ⊎ (Logged crc from_json to_json env
                      (codes "salamander.branch.archived")
                      r
                      older
                      db
                      db'
                    × (record info { status = archived } ≡ r)
                    × (archive r db.branches ≡ ok db'.branches))))
  unfolding archive_branch
  archive_branch-Logged id round read h = elim (Option-cases (get id db.branches)) [
    | inl n ↦ absurd (cc (ap (λ x. x.1) (rw (n, archive_branch) at h)))
    | inr (info, s) ↦ elim (Bool-cases (bytes_eq id id_zero)) [
      | inl t ↦ absurd (cc (ap (λ x. x.1) (rw (s, t, archive_branch) at h)))
      | inr f ↦ (f, (info, s, known info (rw (s, f, archive_branch) at h)))
    ]
  ]
    where
      is_archived : (status : BranchStatus) → status_is_archived status ≡ true → status ≡ archived
      is_archived archived e = refl
      is_archived active e = cc e

      known :
          (info : BranchInfo)
          → (if status_is_archived info.status
              then (db, ok info)
              else archived_with crc to_json env
                  (record info { status = archived })
                  db
                  (archive (record info { status = archived }) db.branches))
            ≡ (db', ok r)
          → ((info.status ≡ archived) × (db ≡ db') × (info ≡ r))
            ⊎ (Logged crc from_json to_json env (codes "salamander.branch.archived") r older db db'
                × (record info { status = archived } ≡ r)
                × (archive r db.branches ≡ ok db'.branches))
      known info e = elim (Bool-cases (status_is_archived info.status)) [
        | inl t ↦
            let e' : ◌≡◌ {A = Db V × Result BranchInfo} (db, ok info) (db', ok r) = rw t at e in
            inl (is_archived info.status t, ap (λ x. x.0) e', ok-injective (ap (λ x. x.1) e'))
        | inr f ↦
            let (logged, same, up) =
              archived_with-Logged round read (record info { status = archived })
                (archive (record info { status = archived }) db.branches)
                (to_json (record info { status = archived })) refl refl (rw f at e) in
            inr (logged, same, subst (λ i. archive i db.branches ≡ ok db'.branches) same up)
      ]
