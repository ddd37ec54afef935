-- ===== src/Branch/Insert.antt =====
-- salamander/src/branch.rs: the invariant of the catalog, and that every operation keeps it.
use salamander_db.Prelude.{
  ◌≤◌, ◌≡◌, refl, sym, ap, ◌∙◌, ◌⊎◌, inl, inr, Bool, true, false, not, Option, none, some, List, [],
  ◌∷◌, arith, Bool-cases, Option-cases, length,
}
use salamander_db.Bytes.{Bytes, bytes_eq, bytes_eq→eq}
use salamander_db.Errors.{SalamanderError, ok, fail_if, bind-eq-ok, ok-injective}
use salamander_db.Format.Types.{Id16, id_zero}
use salamander_db.Branch.{
  BranchInfo, BranchCatalog, active, default_branch_name, contains_key, insert, require_parent,
  validate_depth, default_branch, initial_catalog,
}
use salamander_db.Branch.Maps.{map_get, map_insert, get-insert, get-insert_other}
use salamander_db.Branch.Ancestry.{Lineage, above_root, child_of, validate_depth-Lineage}
use mathlib.Core.Path.{subst}

-- Branches stand under their ids and names point at them; a chain of parents ends and is no deeper
-- than `ancestry` allows; the default branch is there, without a parent, and active.
pub record IsCatalog (c : BranchCatalog) : Type 0 where
  pub keyed : (id : Id16) (b : BranchInfo) → map_get id c.by_id ≡ some b → b.id ≡ id
  pub has_name :
      (id : Id16) (b : BranchInfo)
      → map_get id c.by_id ≡ some b
      → map_get b.name c.by_name ≡ some id
  pub name_leads :
      (name : Bytes) (id : Id16)
      → map_get name c.by_name ≡ some id
      → (b : BranchInfo) × (map_get id c.by_id ≡ some b) × (b.name ≡ name)
  pub lineage :
      (id : Id16) (b : BranchInfo)
      → map_get id c.by_id ≡ some b
      → (path : List BranchInfo) × Lineage c (some id) path × (length path ≤ 64)
  pub has_default :
      (b : BranchInfo) × (map_get id_zero c.by_id ≡ some b)
      × (b.parent ≡ none)
      × (b.status ≡ active)

initial_get :
    (id : Id16) (b : BranchInfo)
    → map_get id initial_catalog.by_id ≡ some b
    → (id ≡ id_zero) × (b ≡ default_branch)
unfolding map_get
initial_get id b e = elim (Bool-cases (bytes_eq id id_zero)) [
  | inl t ↦ (bytes_eq→eq id id_zero t, sym (cc (rw t at e)))
  | inr f ↦ absurd (cc (rw f at e))
]

initial_name :
    (name : Bytes) (id : Id16)
    → map_get name initial_catalog.by_name ≡ some id
    → (name ≡ default_branch_name) × (id ≡ id_zero)
unfolding map_get
initial_name name id e = elim (Bool-cases (bytes_eq name default_branch_name)) [
  | inl t ↦ (bytes_eq→eq name default_branch_name t, sym (cc (rw t at e)))
  | inr f ↦ absurd (cc (rw f at e))
]

pub initial_catalog-IsCatalog : IsCatalog initial_catalog
unfolding map_get
initial_catalog-IsCatalog = record {
  keyed = λ id b e. ap (λ x. x.id) (initial_get id b e).1 ∙ sym (initial_get id b e).0;
  has_name = λ id b e. rw ((initial_get id b e).0, (initial_get id b e).1) refl;
  name_leads = λ name id e.
      (default_branch, rw (initial_name name id e).1 refl, sym (initial_name name id e).0);
  lineage = λ id b e.
      (default_branch ∷ [], child_of (rw (initial_get id b e).0 refl) above_root, omega arith);
  has_default = (default_branch, refl, refl, refl);
}

-- A lineage survives where every branch keeps its parent.
pub Lineage-kept :
    (c c' : BranchCatalog)
    → ((id : Id16) (b : BranchInfo)
        → map_get id c.by_id ≡ some b
        → (b' : BranchInfo) × (map_get id c'.by_id ≡ some b') × (b'.parent ≡ b.parent))
    → (current : Option Id16) (path : List BranchInfo) → Lineage c current path
    → (path' : List BranchInfo) × Lineage c' current path' × (length path' ≡ length path)
Lineage-kept c c' k _ _ above_root = ([], above_root, refl)
Lineage-kept c c' k _ _ (child_of {id} {branch} {older} e h) =
    let (b', e', same) = k id branch e in
    let (path', h', len) = Lineage-kept c c' k branch.parent older h in
    (b' ∷ path', child_of e' (subst (λ p. Lineage c' p path') (sym same) h'), omega (arith, len))

contains_key-false {ℓ} :
    {A : Type ℓ} (key : Bytes) (o : Option A)
    → elim o [ none ↦ false | some x ↦ true ] ≡ false
    → o ≡ none
contains_key-false key none h = refl
contains_key-false key (some x) h = cc

contains_key-true {ℓ} :
    {A : Type ℓ} (key : Bytes) (o : Option A)
    → elim o [ none ↦ false | some x ↦ true ] ≡ true
    → (x : A) × (o ≡ some x)
contains_key-true key none h = cc
contains_key-true key (some x) h = (x, refl)

pub fail_if-ok : (b : Bool) (e : SalamanderError) (t : Unit {0}) → fail_if b e ≡ ok t → b ≡ false
fail_if-ok true e t h = cc
fail_if-ok false e t h = refl

-- What a successful `insert` found and made.
pub record Inserted (info : BranchInfo) (c c' : BranchCatalog) : Type 0 where
  pub fresh_id : map_get info.id c.by_id ≡ none
  pub fresh_name : map_get info.name c.by_name ≡ none
  pub parent_there : require_parent c info.parent ≡ ok tt
  pub depth_valid : validate_depth c info ≡ ok tt
  pub shape : c' ≡ record {
    by_id = map_insert info.id info c.by_id;
    by_name = map_insert info.name info.id c.by_name;
  }

pub insert-Inserted :
    (info : BranchInfo) (c c' : BranchCatalog) → insert info c ≡ ok c' → Inserted info c c'
unfolding insert
insert-Inserted info c c' h =
    let (u1, e1, h1) = bind-eq-ok (fail_if (contains_key info.id c.by_id) _) _ h in
    let (u2, e2, h2) = bind-eq-ok (fail_if (contains_key info.name c.by_name) _) _ h1 in
    let (u3, e3, h3) = bind-eq-ok (require_parent c info.parent) _ h2 in
    let (u4, e4, h4) = bind-eq-ok (validate_depth c info) _ h3 in
    record {
      fresh_id = contains_key-false info.id _ (fail_if-ok _ _ u1 e1);
      fresh_name = contains_key-false info.name _ (fail_if-ok _ _ u2 e2);
      parent_there = e3;
      depth_valid = e4;
      shape = sym (ok-injective h4);
    }

module _ (info : BranchInfo) (c : BranchCatalog) (v : IsCatalog c)
    (fresh_id : map_get info.id c.by_id ≡ none) (fresh_name : map_get info.name c.by_name ≡ none)
    (parent_there : require_parent c info.parent ≡ ok tt)
    (depth_valid : validate_depth c info ≡ ok tt) where
  abbrev grown : BranchCatalog
  grown = record {
    by_id = map_insert info.id info c.by_id;
    by_name = map_insert info.name info.id c.by_name;
  }

  -- A branch of the grown catalog is the new one or an old one.
  grown-cases :
      (id : Id16) (b : BranchInfo)
      → map_get id grown.by_id ≡ some b
      → ((id ≡ info.id) × (b ≡ info))
        ⊎ ((bytes_eq id info.id ≡ false) × (map_get id c.by_id ≡ some b))
  grown-cases id b e = elim (Bool-cases (bytes_eq id info.id)) [
    | inl t ↦ inl (
      bytes_eq→eq id info.id t,
      cc (get-insert info.id info c.by_id, bytes_eq→eq id info.id t, e),
    )
    | inr f ↦ inr (f, sym (get-insert_other info.id id info c.by_id f) ∙ e)
  ]

  kept_id :
      (id : Id16) (b : BranchInfo) → map_get id c.by_id ≡ some b → map_get id grown.by_id ≡ some b
  kept_id id b e = elim (Bool-cases (bytes_eq id info.id)) [
    | inl t ↦ absurd (cc (bytes_eq→eq id info.id t, e, fresh_id))
    | inr f ↦ get-insert_other info.id id info c.by_id f ∙ e
  ]

  kept_name :
      (name : Bytes) (id : Id16)
      → map_get name c.by_name ≡ some id
      → map_get name grown.by_name ≡ some id
  kept_name name id e = elim (Bool-cases (bytes_eq name info.name)) [
    | inl t ↦ absurd (cc (bytes_eq→eq name info.name t, e, fresh_name))
    | inr f ↦ get-insert_other info.name name info.id c.by_name f ∙ e
  ]

  missing :
      (e : SalamanderError) (o : Option BranchInfo)
      → o ≡ none
      → ¬ (fail_if (not (elim o [ none ↦ false | some x ↦ true ])) e ≡ ok tt)
  missing e none n h = cc
  missing e (some b) n h = cc

  parent_chain :
      (p : Option Id16) → require_parent c p ≡ ok tt → (path : List BranchInfo) × Lineage c p path
  unfolding require_parent
  parent_chain none e = ([], above_root)
  parent_chain (some id) e = elim (Option-cases (map_get id c.by_id)) [
    | inl n ↦ absurd (missing _ (map_get id c.by_id) n e)
    | inr (b, g) ↦ let (path, h, len) = v.lineage id b g in (path, h)
  ]

  old_chain :
      (current : Option Id16) (path : List BranchInfo)
      → Lineage c current path
      → (path' : List BranchInfo) × Lineage grown current path' × (length path' ≡ length path)
  old_chain = Lineage-kept c grown (λ id b e. (b, kept_id id b e, refl))

  new_chain : (path : List BranchInfo) × Lineage grown (some info.id) path × (length path ≤ 64)
  new_chain =
      let (older, h) = parent_chain info.parent parent_there in
      let (older', h', len) = old_chain info.parent older h in
      (
        info ∷ older',
        child_of (get-insert info.id info c.by_id) h',
        omega (arith, len, validate_depth-Lineage c info older h depth_valid),
      )

  grown-IsCatalog : IsCatalog grown
  grown-IsCatalog = record {
    keyed = λ id b e. elim (grown-cases id b e) [ inl (x, y) ↦ cc | inr (f, g) ↦ v.keyed id b g ];
    has_name = λ id b e. elim (grown-cases id b e) [
      | inl (x, y) ↦ rw (x, y) (get-insert info.name info.id c.by_name)
      | inr (f, g) ↦ kept_name b.name id (v.has_name id b g)
    ];
    name_leads = λ name id e. elim (Bool-cases (bytes_eq name info.name)) [
      | inl t ↦
          let same = bytes_eq→eq name info.name t in
          (
            info,
            cc (get-insert info.name info.id c.by_name, get-insert info.id info c.by_id, same, e),
            sym same,
          )
      | inr f ↦
          let (b, g, n) =
            v.name_leads name id (sym (get-insert_other info.name name info.id c.by_name f) ∙ e) in
          (b, kept_id id b g, n)
    ];
    lineage = λ id b e. elim (grown-cases id b e) [
      | inl (x, y) ↦ rw x new_chain
      | inr (f, g) ↦
          let (path, h, len) = v.lineage id b g in
          let (path', h', same) = old_chain (some id) path h in
          (path', h', omega (arith, len, same))
    ];
    has_default = let (b, g, p, a) = v.has_default in (b, kept_id id_zero b g, p, a);
  }

-- A successful `insert` keeps the invariant of the catalog.
pub insert-IsCatalog :
    (info : BranchInfo) (c c' : BranchCatalog) → IsCatalog c → insert info c ≡ ok c' → IsCatalog c'
insert-IsCatalog info c c' v h =
    let i = insert-Inserted info c c' h in
    subst IsCatalog (sym i.shape)
      (grown-IsCatalog info c v i.fresh_id i.fresh_name i.parent_there i.depth_valid)
