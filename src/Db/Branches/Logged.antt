-- ===== src/Db/Branches/Logged.antt =====
-- salamander/src/db.rs: a change to the branches as a system record of the log.
use salamander_db.Prelude.{ℕ, ◌≡◌, refl, sym, ap, ◌∙◌, some, List, [], ◌∷◌, ◌++◌}
use salamander_db.Bytes.{Bytes, codes}
use salamander_db.Errors.{Result, ok, err, bind-eq-ok, ok-injective}
use salamander_db.Format.Types.{Id16, StoredRecord, system}
use salamander_db.Format.Checksum.{Crc32c}
use salamander_db.Branch.{
  BranchInfo, BranchCatalog, insert, archive, FromJson, rebuild, rebuild_from, rebuild_record,
  branch_name_new, default_branch_name, initial_catalog,
}
use salamander_db.Log.Store.{Log, head, append_system_record}
use salamander_db.Db.{Db, commit, persist_core_catalog}
use salamander_db.Db.Branches.{BranchEnv, branch_envelope, published, forked}

-- The system record of a change to a branch, as recovery reads it.
abbrev pub branch_record : ℕ → BranchEnv → Id16 → Id16 → Bytes → Bytes → StoredRecord
branch_record at env database id event_type payload = record {
  kind = system;
  flags = 0;
  position = at;
  envelope = branch_envelope env database id event_type;
  payload = payload;
}

rebuild_from-append :
    (from_json : FromJson) (items more : List (Result StoredRecord)) (c c' : BranchCatalog)
    → rebuild_from from_json items c ≡ ok c'
    → rebuild_from from_json (items ++ more) c ≡ rebuild_from from_json more c'
unfolding rebuild_from
rebuild_from-append from_json [] more c c' h =
    ap (λ k. rebuild_from from_json more k) (ok-injective h)
rebuild_from-append from_json (item ∷ items) more c c' h =
    let (rec, e1, h1) = bind-eq-ok item _ h in
    let (c1, e2, h2) = bind-eq-ok (rebuild_record from_json rec c) _ h1 in
    rw (e1, e2, rebuild_from-append from_json items more c1 c' h2) refl

rebuild-append :
    (from_json : FromJson) (items more : List (Result StoredRecord)) (c : BranchCatalog)
    → rebuild from_json items ≡ ok c
    → rebuild from_json (items ++ more) ≡ rebuild_from from_json more c
unfolding rebuild
rebuild-append from_json items more c h =
    let (name, e1, h1) = bind-eq-ok (branch_name_new default_branch_name) _ h in
    rw (e1, rebuild_from-append from_json items more initial_catalog c h1) refl

module _ (from_json : FromJson) (at : ℕ) (env : BranchEnv) (database : Id16) (info : BranchInfo)
    (payload : Bytes) (parsed : from_json payload ≡ some info) (c updated : BranchCatalog) where
  rebuild_from-created :
      insert info c ≡ ok updated
      → rebuild_from from_json
          (ok (branch_record at env database info.id (codes "salamander.branch.created") payload)
            ∷ [])
          c
        ≡ ok updated
  unfolding rebuild_from rebuild_record branch_envelope
  rebuild_from-created h = rw (parsed, h) refl

  pub rebuild_from-archived :
      archive info c ≡ ok updated
      → rebuild_from from_json
          (ok (branch_record at env database info.id (codes "salamander.branch.archived") payload)
            ∷ [])
          c
        ≡ ok updated
  unfolding rebuild_from rebuild_record branch_envelope
  rebuild_from-archived h = rw (parsed, h) refl

-- The change is a system record of the log, committed, and a rebuild that reads it after the older ones
-- gives the catalog that the handle has.
pub record Logged {V : Type 0} (crc : Crc32c) (from_json : FromJson)
    (to_json : BranchInfo → Result Bytes) (env : BranchEnv) (event_type : Bytes) (info : BranchInfo)
    (older : List (Result StoredRecord)) (db db' : Db V) : Type 0 where
  pub payload : Bytes
  pub serialized : to_json info ≡ ok payload
  pub logged :
      append_system_record crc
        (branch_envelope env db.log.manifest.database_id info.id event_type)
        payload
        db.log
      ≡ (db'.log, ok tt)
  pub rebuilt :
      rebuild from_json (
        older
        ++ (ok (
              branch_record
                (head db.log)
                env
                db.log.manifest.database_id
                info.id
                event_type
                payload)
            ∷ []))
      ≡ ok db'.branches
  pub durable : db'.durable_head ≡ head db'.log
  pub streams_same : db'.catalog ≡ db.catalog
  pub views_same : db'.views ≡ db.views

module _ {V : Type 0} (crc : Crc32c) (from_json : FromJson) (to_json : BranchInfo → Result Bytes)
    (round : (i : BranchInfo) (b : Bytes) → to_json i ≡ ok b → from_json b ≡ some i)
    (env : BranchEnv) (older : List (Result StoredRecord)) (db : Db V)
    (read : rebuild from_json older ≡ ok db.branches) where
  pub published-Logged :
      (event_type : Bytes) (info : BranchInfo) (updated : BranchCatalog) (payload : Bytes)
      (db' : Db V) (r : BranchInfo) (w : Log × Result (Unit {0}))
      → to_json info ≡ ok payload
      → rebuild_from from_json
          (ok (
              branch_record
                (head db.log)
                env
                db.log.manifest.database_id
                info.id
                event_type
                payload)
            ∷ [])
          db.branches
        ≡ ok updated
      → append_system_record crc
          (branch_envelope env db.log.manifest.database_id info.id event_type)
          payload
          db.log
        ≡ w
      → published info updated db w ≡ (db', ok r)
      → Logged crc from_json to_json env event_type info older db db'
        × (info ≡ r)
        × (updated ≡ db'.branches)
  unfolding commit persist_core_catalog
  published-Logged event_type info updated payload db' r (log, err e) h1 h2 h3 eq =
      absurd (cc (ap (λ x. x.1) eq))
  published-Logged event_type info updated payload db' r (log, ok done) h1 h2 h3 eq =
      let e : record (commit (record db { log = log })) { branches = updated } ≡ db' =
        ap (λ x. x.0) eq in
      (
        record {
          payload = payload;
          serialized = h1;
          logged = h3 ∙ ap (λ d. (d.log, ok tt)) e;
          rebuilt =
              rebuild-append from_json older
                (ok (
                    branch_record (head db.log) env db.log.manifest.database_id info.id event_type
                      payload)
                  ∷ [])
                db.branches read
              ∙ h2
              ∙ ap (λ d. ok d.branches) e;
          durable = ap (λ d. d.durable_head) (sym e) ∙ ap (λ d. head d.log) e;
          streams_same = ap (λ d. d.catalog) (sym e);
          views_same = ap (λ d. d.views) (sym e);
        },
        ok-injective (ap (λ x. x.1) eq),
        ap (λ d. d.branches) e,
      )

  pub forked-Logged :
      (info : BranchInfo) (checked : Result BranchCatalog) (payload : Result Bytes) (db' : Db V)
      (r : BranchInfo)
      → to_json info ≡ payload
      → ((updated : BranchCatalog) → checked ≡ ok updated → insert info db.branches ≡ ok updated)
      → forked crc to_json env info db checked ≡ (db', ok r)
      → Logged crc from_json to_json env (codes "salamander.branch.created") info older db db'
        × (info ≡ r)
        × (checked ≡ ok db'.branches)
  forked-Logged info (err e) payload db' r h inserted eq = absurd (cc (ap (λ x. x.1) eq))
  forked-Logged info (ok updated) (err e) db' r h inserted eq =
      absurd (cc (ap (λ x. x.1) (rw h at eq)))
  forked-Logged info (ok updated) (ok payload) db' r h inserted eq =
      let (logged, same, up) =
        published-Logged (codes "salamander.branch.created") info updated payload db' r _ h
          (rebuild_from-created from_json (head db.log) env db.log.manifest.database_id info payload
            (round info payload h) db.branches updated (inserted updated refl))
          refl (rw h at eq) in
      (logged, same, ap (λ u. ok u) up)
