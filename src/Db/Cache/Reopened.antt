-- ===== src/Db/Cache/Reopened.antt =====
-- salamander/src/db.rs: a handle that is opened, called and opened again.
use salamander_db.Prelude.{
  ℕ, ◌≡◌, refl, sym, ap, ◌∙◌, ◌⊎◌, inl, inr, Bool, true, false, not, ◌||◌, Option, none, some, List,
  [], ◌∷◌, arith, ◌==◌, ==_iff, Bool-cases, Option-cases,
}
use salamander_db.Bytes.{Bytes, bytes_eq}
use salamander_db.Errors.{Result, ok, bind-eq-ok, ok-injective}
use salamander_db.Format.Types.{Id16, StoredRecord}
use salamander_db.Format.Checksum.{Crc32c}
use salamander_db.Log.Store.{head}
use salamander_db.Stream.{AppendRequest, StreamCatalog}
use salamander_db.Stream.Rebuild.{rebuild_streams}
use salamander_db.Db.{Db, Event, Checkpoint, commit, load_core_catalog}
use salamander_db.Db.Plan.{Env}
use salamander_db.Db.Append.{append_batch_with_id}
use salamander_db.Db.Cache.{
  open_catalog, IsCached, some-injective, commit-IsCached, append_batch_with_id-IsCached,
}

-- A call of `append_batch_with_id`, or of `commit`.
pub data Call (B : Type 0) : Type 0 where
  append_call : Env → AppendRequest B → Option Id16 → Call B
  commit_call : Call B

module _ {B V : Type 0} (apply : Event B → V → V) (crc : Crc32c)
    (serialize : B → Result Bytes) where
  abbrev pub run_call : Call B → Db V → Db V
  run_call (append_call env request supplied) db =
      (append_batch_with_id apply crc serialize env request supplied db).0
  run_call commit_call db = commit db

  abbrev pub run_calls : List (Call B) → Db V → Db V
  run_calls [] db = db
  run_calls (call ∷ calls) db = run_calls calls (run_call call db)

  run_calls-IsCached :
      (calls : List (Call B)) (db : Db V) → IsCached db → IsCached (run_calls calls db)
  run_calls-IsCached [] db h = h
  run_calls-IsCached (append_call env request supplied ∷ calls) db h =
      run_calls-IsCached calls _
        (append_batch_with_id-IsCached crc serialize apply env request supplied db h)
  run_calls-IsCached (commit_call ∷ calls) db h = run_calls-IsCached calls _ (commit-IsCached db)

loaded :
    (id : Id16) (at : ℕ) (c : Checkpoint) (catalog : StreamCatalog)
    → load_core_catalog id at (some c) ≡ some catalog
    → (c.head ≡ at) × (c.catalog ≡ catalog)
unfolding load_core_catalog
loaded id at c catalog h =
    elim (Bool-cases (not (bytes_eq c.database_id id) || not (c.head == at))) [
      | inl t ↦ absurd (cc (rw t at h))
      | inr f ↦ (
        (==_iff c.head at).0 (second (bytes_eq c.database_id id) (c.head == at) f),
        some-injective (rw f at h),
      )
    ]
  where
    second : (x y : Bool) → (not x || not y) ≡ false → y ≡ true
    second x true e = refl
    second true false e = cc e
    second false false e = cc e

loaded_none :
    {A : Type 0} (id : Id16) (at : ℕ) (catalog : StreamCatalog)
    → load_core_catalog id at none ≡ some catalog
    → A
unfolding load_core_catalog
loaded_none id at catalog h = absurd (cc h)

pair-injective :
    {A B : Type 0} (a a' : A) (b b' : B)
    → ◌≡◌ {A = Result (A × B)} (ok (a, b)) (ok (a', b'))
    → (a ≡ a') × (b ≡ b')
pair-injective a a' b b' e = let p = ok-injective e in (ap (λ x. x.0) p, ap (λ x. x.1) p)

loaded-IsCached :
    {V : Type 0} (id : Id16) (checkpoint : Option Checkpoint) (catalog : StreamCatalog) (db : Db V)
    → load_core_catalog id (head db.log) checkpoint ≡ some catalog
    → catalog ≡ db.catalog
    → checkpoint ≡ db.checkpoint
    → IsCached db
loaded-IsCached id none catalog db h e1 e2 = loaded_none id (head db.log) catalog h
loaded-IsCached id (some k) catalog db h e1 e2 =
    let (at_head, same) = loaded id (head db.log) k catalog h in
    record {
      behind = λ c e.
          let there = ap (λ x. x.head) (some-injective (e2 ∙ e)) in omega (arith, there, at_head);
      current = λ c e here. sym (ap (λ x. x.catalog) (some-injective (e2 ∙ e))) ∙ same ∙ e1;
    }

-- What `open_internal` gives satisfies the invariant.
open_catalog-IsCached :
    {V : Type 0} (crc : Crc32c) (id : Id16) (checkpoint : Option Checkpoint)
    (items : List (Result StoredRecord)) (db : Db V)
    → open_catalog crc id (head db.log) checkpoint items ≡ ok (db.catalog, db.checkpoint)
    → IsCached db
unfolding open_catalog
open_catalog-IsCached crc id checkpoint items db h =
    elim (Option-cases (load_core_catalog id (head db.log) checkpoint)) [
      | inl n ↦
          let (catalog, h1, h2) =
            bind-eq-ok (rebuild_streams crc items) _ (rw (n, open_catalog) at h) in
          let (e1, e2) =
            pair-injective catalog db.catalog
              (some (record { database_id = id; head = head db.log; catalog = catalog }))
              db.checkpoint h2 in
          record {
            behind = λ c e.
                let there = ap (λ x. x.head) (some-injective (e2 ∙ e)) in omega (arith, there);
            current = λ c e here. sym (ap (λ x. x.catalog) (some-injective (e2 ∙ e))) ∙ e1;
          }
      | inr (catalog, s) ↦
          let (e1, e2) =
            pair-injective catalog db.catalog checkpoint db.checkpoint
              (rw (s, open_catalog) at h) in
          loaded-IsCached id checkpoint catalog db s e1 e2
    ]

loaded-current :
    {V : Type 0} (id : Id16) (db : Db V) (checkpoint : Option Checkpoint) (catalog : StreamCatalog)
    → IsCached db
    → db.checkpoint ≡ checkpoint
    → load_core_catalog id (head db.log) checkpoint ≡ some catalog
    → catalog ≡ db.catalog
loaded-current id db none catalog cached e h = loaded_none id (head db.log) catalog h
loaded-current id db (some c) catalog cached e h =
    let (at_head, same) = loaded id (head db.log) c catalog h in
    sym same ∙ cached.current c e at_head

-- Where a handle was opened by open_catalog and used by any appends and commits, a reopening that
-- succeeds at its head with its checkpoint gives the catalog that the handle had, or the one that the
-- rebuild from the records of the log gives.
pub open_catalog-run_calls :
    {B V : Type 0} (apply : Event B → V → V) (crc : Crc32c) (serialize : B → Result Bytes)
    (id : Id16) (checkpoint kept : Option Checkpoint) (before after : List (Result StoredRecord))
    (db : Db V) (calls : List (Call B)) (catalog : StreamCatalog)
    → open_catalog crc id (head db.log) checkpoint before ≡ ok (db.catalog, db.checkpoint)
    → open_catalog crc id
        (head (run_calls apply crc serialize calls db).log)
        (run_calls apply crc serialize calls db).checkpoint
        after
      ≡ ok (catalog, kept)
    → (catalog ≡ (run_calls apply crc serialize calls db).catalog)
      ⊎ (rebuild_streams crc after ≡ ok catalog)
unfolding open_catalog
open_catalog-run_calls {B} {V} apply crc serialize id checkpoint kept before after db calls catalog
      h h' =
    let closed : Db V = run_calls apply crc serialize calls db in
    elim (Option-cases (load_core_catalog id (head closed.log) closed.checkpoint)) [
      | inl n ↦
          let (found, h1, h2) =
            bind-eq-ok (rebuild_streams crc after) _ (rw (n, open_catalog) at h') in
          inr (h1 ∙ ap (λ c. ok c) (ap (λ x. x.0) (ok-injective h2)))
      | inr (found, s) ↦
          let e : found ≡ catalog = ap (λ x. x.0) (ok-injective (rw (s, open_catalog) at h')) in
          inl (
            sym e
            ∙ loaded-current id closed closed.checkpoint found
                (run_calls-IsCached apply crc serialize calls db
                  (open_catalog-IsCached crc id checkpoint before db h))
                refl s)
    ]
