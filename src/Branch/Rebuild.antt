-- ===== src/Branch/Rebuild.antt =====
-- salamander/src/branch.rs: archiving, and the catalog that a rebuild from the system records gives.
use salamander_db.Prelude.{
  ◌≤◌, ◌≡◌, refl, sym, ap, ◌∙◌, ◌⊎◌, inl, inr, Bool, true, false, not, ◌&&◌, Option, none, some,
  List, [], ◌∷◌, arith, if◌then◌else◌, Bool-cases, Option-cases, length,
}
use salamander_db.Bytes.{bytes_eq, bytes_eq→eq, bytes_eq_iff, codes}
use salamander_db.Errors.{Result, ok, err, fail_if, corrupt, bind-eq-ok, ok-injective}
use salamander_db.Format.Types.{Id16, id_zero, StoredRecord}
use salamander_db.Branch.{
  BranchInfo, BranchCatalog, ancestry, archived, get, insert, archive, info_eq, default_branch_name,
  branch_name_new, initial_catalog, FromJson, rebuild_record, rebuild_from, rebuild,
}
use salamander_db.Branch.Maps.{map_get, map_insert, get-insert, get-insert_other}
use salamander_db.Branch.Ancestry.{Lineage, reverse_onto, ancestry-Lineage}
use salamander_db.Branch.Equal.{info_eq→eq}
use salamander_db.Branch.Insert.{
  IsCatalog, Lineage-kept, fail_if-ok, insert-IsCatalog, initial_catalog-IsCatalog,
}
use mathlib.Core.Path.{subst}

-- What a successful `archive` found and made.
pub record Archived (info : BranchInfo) (c c' : BranchCatalog) : Type 0 where
  pub current : BranchInfo
  pub found : map_get info.id c.by_id ≡ some current
  pub not_default : bytes_eq current.id id_zero ≡ false
  pub only_status : info ≡ record current { status = archived }
  pub shape : c' ≡ record c { by_id = map_insert info.id info c.by_id }

not-false : (b : Bool) → not b ≡ false → b ≡ true
not-false true h = refl
not-false false h = cc

archive-Archived :
    (info : BranchInfo) (c c' : BranchCatalog) → archive info c ≡ ok c' → Archived info c c'
unfolding archive
archive-Archived info c c' h = elim (Option-cases (map_get info.id c.by_id)) [
  | inl n ↦ absurd (cc (rw (n, archive) at h))
  | inr (current, g) ↦
      let h0 = rw (g, archive) at h in
      let (u1, e1, h1) = bind-eq-ok (fail_if (bytes_eq current.id id_zero) _) _ h0 in
      let (u2, e2, h2) =
        bind-eq-ok (fail_if (not (info_eq info (record current { status = archived }))) _) _ h1 in
      record {
        current = current;
        found = g;
        not_default = fail_if-ok _ _ u1 e1;
        only_status =
            info_eq→eq info (record current { status = archived })
              (not-false _ (fail_if-ok _ _ u2 e2));
        shape = sym (ok-injective h2);
      }
]

module _ (info : BranchInfo) (c : BranchCatalog) (v : IsCatalog c) (current : BranchInfo)
    (found : map_get info.id c.by_id ≡ some current)
    (not_default : bytes_eq current.id id_zero ≡ false)
    (only_status : info ≡ record current { status = archived }) where
  abbrev closed : BranchCatalog
  closed = record c { by_id = map_insert info.id info c.by_id }

  closed-cases :
      (id : Id16) (b : BranchInfo)
      → map_get id closed.by_id ≡ some b
      → ((id ≡ info.id) × (b ≡ info)) ⊎ (map_get id c.by_id ≡ some b)
  closed-cases id b e = elim (Bool-cases (bytes_eq id info.id)) [
    | inl t ↦ inl (
      bytes_eq→eq id info.id t,
      cc (get-insert info.id info c.by_id, bytes_eq→eq id info.id t, e),
    )
    | inr f ↦ inr (sym (get-insert_other info.id id info c.by_id f) ∙ e)
  ]

  -- Every branch is still there with its name and its parent.
  still :
      (id : Id16) (b : BranchInfo)
      → map_get id c.by_id ≡ some b
      → (b' : BranchInfo) × (map_get id closed.by_id ≡ some b')
        × (b'.parent ≡ b.parent)
        × (b'.name ≡ b.name)
  still id b e = elim (Bool-cases (bytes_eq id info.id)) [
    | inl t ↦
        let same = bytes_eq→eq id info.id t in
        let old : b ≡ current = cc (e, found, same) in
        (
          info,
          rw same (get-insert info.id info c.by_id),
          (λ i. (only_status i).parent) ∙ (λ i. (sym old i).parent),
          (λ i. (only_status i).name) ∙ (λ i. (sym old i).name),
        )
    | inr f ↦ (b, get-insert_other info.id id info c.by_id f ∙ e, refl, refl)
  ]

  old_chain :
      (id : Id16) (b : BranchInfo)
      → map_get id closed.by_id ≡ some b
      → (path : List BranchInfo) × Lineage c (some id) path × (length path ≤ 64)
  old_chain id b e = elim (closed-cases id b e) [
    | inl (x, y) ↦ rw x (v.lineage info.id current found)
    | inr g ↦ v.lineage id b g
  ]

  default_not_archived : bytes_eq id_zero info.id ≡ true → ⊥
  default_not_archived t = cc (
    not_default,
    (bytes_eq_iff current.id id_zero).1
        (v.keyed info.id current found ∙ sym (bytes_eq→eq id_zero info.id t)),
  )

  closed-IsCatalog : IsCatalog closed
  closed-IsCatalog = record {
    keyed = λ id b e. elim (closed-cases id b e) [ inl (x, y) ↦ cc | inr g ↦ v.keyed id b g ];
    has_name = λ id b e. elim (closed-cases id b e) [
      | inl (x, y) ↦ rw (x, y, ap (λ z. z.name) only_status) (v.has_name info.id current found)
      | inr g ↦ v.has_name id b g
    ];
    name_leads = λ name id e.
        let (b, g, n) = v.name_leads name id e in
        let (b', g', same, named) = still id b g in (b', g', named ∙ n);
    lineage = λ id b e.
        let (path, h, len) = old_chain id b e in
        let (path', h', same) =
          Lineage-kept c closed (λ i o g. let (b', g', p, n) = still i o g in (b', g', p)) (some id)
            path h in
        (path', h', omega (arith, len, same));
    has_default =
        let (b, g, p, a) = v.has_default in
        elim (Bool-cases (bytes_eq id_zero info.id)) [
          | inl t ↦ absurd (default_not_archived t)
          | inr f ↦ (b, get-insert_other info.id id_zero info c.by_id f ∙ g, p, a)
        ];
  }

-- A successful `archive` keeps the catalog's invariant; the branch that it archives was in the
-- catalog and is not the default branch; the branch that is stored differs from it in its status
-- only, and every other branch is what it was.
pub archive_lem :
    (info : BranchInfo) (c c' : BranchCatalog)
    → IsCatalog c
    → archive info c ≡ ok c'
    → IsCatalog c'
      × (bytes_eq info.id id_zero ≡ false)
      × ((current : BranchInfo) × (get info.id c ≡ some current)
          × (get info.id c' ≡ some (record current { status = archived })))
      × ((id : Id16) → bytes_eq id info.id ≡ false → get id c' ≡ get id c)
unfolding get
archive_lem info c c' v h =
    let a = archive-Archived info c c' h in
    (
      subst IsCatalog (sym a.shape)
          (closed-IsCatalog info c v a.current a.found a.not_default a.only_status),
      ap (λ x. bytes_eq x id_zero) (sym (v.keyed info.id a.current a.found)) ∙ a.not_default,
      (
        a.current,
        a.found,
        ap (λ x. map_get info.id x.by_id) a.shape
            ∙ get-insert info.id info c.by_id
            ∙ ap some a.only_status,
      ),
      λ id f. ap (λ x. map_get id x.by_id) a.shape ∙ get-insert_other info.id id info c.by_id f,
    )

rebuild_record-IsCatalog :
    (from_json : FromJson) (rec : StoredRecord) (c c' : BranchCatalog)
    → IsCatalog c
    → rebuild_record from_json rec c ≡ ok c'
    → IsCatalog c'
unfolding rebuild_record
rebuild_record-IsCatalog from_json rec c c' v h =
    go (bytes_eq rec.envelope.event_type (codes "salamander.branch.created"))
      (bytes_eq rec.envelope.event_type (codes "salamander.branch.archived"))
      (from_json rec.payload) h
  where
    go :
        (created archives : Bool) (parsed : Option BranchInfo)
        → (if not created && not archives then ok c else elim parsed [
          | none ↦ err (corrupt rec.position "branch metadata decode: {error}")
          | some info ↦ if created then insert info c else archive info c
        ])
          ≡ ok c'
        → IsCatalog c'
    go true archives none e = absurd (cc e)
    go true archives (some info) e = insert-IsCatalog info c c' v e
    go false true none e = absurd (cc e)
    go false true (some info) e = (archive_lem info c c' v e).0
    go false false parsed e = subst IsCatalog (ok-injective e) v

rebuild_from-IsCatalog :
    (from_json : FromJson) (items : List (Result StoredRecord)) (c c' : BranchCatalog)
    → IsCatalog c
    → rebuild_from from_json items c ≡ ok c'
    → IsCatalog c'
unfolding rebuild_from
rebuild_from-IsCatalog from_json [] c c' v h = subst IsCatalog (ok-injective h) v
rebuild_from-IsCatalog from_json (item ∷ items) c c' v h =
    let (rec, e, h1) = bind-eq-ok item _ h in
    let (mid, e', h2) = bind-eq-ok (rebuild_record from_json rec c) _ h1 in
    rebuild_from-IsCatalog from_json items mid c'
      (rebuild_record-IsCatalog from_json rec c mid v e') h2

-- Whatever system records the log holds, a rebuild that succeeds gives a catalog with the
-- invariant: ids and names agree, every chain of parents ends within 64 branches, and the
-- default branch is there and active.
pub rebuild-IsCatalog :
    (from_json : FromJson) (items : List (Result StoredRecord)) (c : BranchCatalog)
    → rebuild from_json items ≡ ok c
    → IsCatalog c
unfolding rebuild
rebuild-IsCatalog from_json items c h =
    let (name, e, h1) = bind-eq-ok (branch_name_new default_branch_name) _ h in
    rebuild_from-IsCatalog from_json items initial_catalog c initial_catalog-IsCatalog h1

-- In a catalog with the invariant, `ancestry` succeeds at every branch that the catalog holds, and
-- gives its chain of parents from the oldest branch down to it.
pub ancestry-IsCatalog :
    (c : BranchCatalog) (id : Id16) (b : BranchInfo)
    → IsCatalog c
    → get id c ≡ some b
    → (path : List BranchInfo) × Lineage c (some id) path
      × (ancestry c id ≡ some (ok (reverse_onto path [])))
unfolding get
ancestry-IsCatalog c id b v e =
    let (path, h, len) = v.lineage id b e in (path, h, ancestry-Lineage c id path h len)
