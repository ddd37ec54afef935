-- ===== src/Format/Metadata.antt =====
-- salamander/src/format/mod.rs: checks on metadata keys, and the `BTreeMap` operations that the
-- program makes on metadata.
use salamander_db.Prelude.{
  ◌≡◌, refl, inl, inr, Bool, true, false, not, ◌&&◌, ◌||◌, Option, none, some, [], ◌∷◌, ◌++◌, arith,
  if◌then◌else◌, Bool-cases, All,
}
use salamander_db.Bytes.{
  Bytes, bytes_eq, bytes_lt, bytes_eq_self, bytes_eq→eq, bytes_lt_irrefl, bytes_lt_trans,
  bytes_lt_asymm, bytes_lt_total, codes, is_empty, contains_nul, starts_with,
}
use mathlib.Core.Path.{subst}
use salamander_db.Errors.{invalid_format, Result, fail_if, ◌>>◌}
use salamander_db.Format.Types.{Metadata, IsOrdered}

abbrev pub reserved_metadata_prefix : Bytes
reserved_metadata_prefix = codes "salamander."

unfoldable pub is_known_reserved_key : Bytes → Bool
is_known_reserved_key key =
    bytes_eq key (codes "salamander.stream_name")
    || bytes_eq key (codes "salamander.v1_offset")
    || bytes_eq key (codes "salamander.v1_namespace")
    || bytes_eq key (codes "salamander.batch_count")
    || bytes_eq key (codes "salamander.batch_digest")
    || bytes_eq key (codes "salamander.idempotency_key")
    || bytes_eq key (codes "salamander.request_digest")

unfoldable pub validate_metadata_key : Bytes → Result (Unit {0})
unfolding is_known_reserved_key
validate_metadata_key key = do
  fail_if (is_empty key || contains_nul key)
      (invalid_format "metadata key must be nonempty UTF-8 without NUL")
  fail_if (starts_with key reserved_metadata_prefix && not (is_known_reserved_key key))
      (invalid_format "unknown reserved metadata key {key}")

-- `BTreeMap::get`
unfoldable pub metadata_get : Bytes → Metadata → Option Bytes
metadata_get key [] = none
metadata_get key ((k, v) ∷ m) = if bytes_eq k key then some v else metadata_get key m

-- `BTreeMap::insert`, its new map.
unfoldable pub metadata_insert : Bytes → Bytes → Metadata → Metadata
metadata_insert key value [] = (key, value) ∷ []
metadata_insert key value ((k, v) ∷ m) =
    if bytes_eq k key
    then (key, value) ∷ m
    else if bytes_lt key k
    then (key, value) ∷ (k, v) ∷ m
    else (k, v) ∷ metadata_insert key value m

pub metadata_get-insert_self :
    (key value : Bytes) (m : Metadata) → metadata_get key (metadata_insert key value m) ≡ some value
unfolding metadata_get metadata_insert
metadata_get-insert_self key value [] = rw (bytes_eq_self key)
metadata_get-insert_self key value ((k, v) ∷ m) =
    ground (arith, bytes_eq_self key, metadata_get-insert_self key value m)

pub metadata_get-insert_ne :
    (key other value : Bytes) (m : Metadata)
    → bytes_eq key other ≡ false
    → metadata_get other (metadata_insert key value m) ≡ metadata_get other m
unfolding metadata_get metadata_insert
metadata_get-insert_ne key other value [] h = rw h
metadata_get-insert_ne key other value ((k, v) ∷ m) h =
    ground (arith, bytes_eq→eq k key, metadata_get-insert_ne key other value m)

-- An insertion above every key goes to the end.
module _ (key value : Bytes) (es : Metadata) where
  pub metadata_insert_last :
      (m : Metadata)
      → IsOrdered (m ++ ((key, value) ∷ es))
      → metadata_insert key value m ≡ m ++ ((key, value) ∷ [])
  unfolding metadata_insert
  metadata_insert_last [] h = refl
  metadata_insert_last ((k, v) ∷ m) h = ground (
    arith,
    last-above m h.0,
    bytes_eq→eq k key,
    bytes_lt_irrefl key,
    bytes_lt_asymm k key,
    metadata_insert_last m h.1,
  )
    where
      last-above :
          (n : Metadata)
          → All (λ e. bytes_lt k e.0 ≡ true) (n ++ ((key, value) ∷ es))
          → bytes_lt k key ≡ true
      last-above [] a = a.0
      last-above (x ∷ n) a = last-above n a.1

  pub metadata_get_last :
      (m : Metadata) → IsOrdered (m ++ ((key, value) ∷ es)) → metadata_get key m ≡ none
  unfolding metadata_get
  metadata_get_last [] h = refl
  metadata_get_last ((k, v) ∷ m) h =
      ground
        (arith, last-above m h.0, bytes_eq→eq k key, bytes_lt_irrefl key, metadata_get_last m h.1)
    where
      last-above :
          (n : Metadata)
          → All (λ e. bytes_lt k e.0 ≡ true) (n ++ ((key, value) ∷ es))
          → bytes_lt k key ≡ true
      last-above [] a = a.0
      last-above (x ∷ n) a = last-above n a.1

-- An insertion keeps what holds of every entry, and the order of the keys.
pub All-metadata_insert {κ} :
    (P : Bytes × Bytes → Type κ) (key value : Bytes) (m : Metadata)
    → P (key, value)
    → All P m
    → All P (metadata_insert key value m)
unfolding metadata_insert
All-metadata_insert P key value [] new all = (new, tt)
All-metadata_insert P key value ((k, v) ∷ m) new all =
    go (bytes_eq k key) (bytes_lt key k) (All-metadata_insert P key value m new all.1)
  where
    go :
        (same below : Bool)
        → All P (metadata_insert key value m)
        → All P (
            if same
            then (key, value) ∷ m
            else if below
            then (key, value) ∷ (k, v) ∷ m
            else (k, v) ∷ metadata_insert key value m)
    go true below rest = (new, all.1)
    go false true rest = (new, all)
    go false false rest = (all.0, rest)

IsOrdered_above :
    (a b : Bytes) (m : Metadata)
    → bytes_lt a b ≡ true
    → All (λ e. bytes_lt b e.0 ≡ true) m
    → All (λ e. bytes_lt a e.0 ≡ true) m
IsOrdered_above a b [] h all = tt
IsOrdered_above a b ((k, v) ∷ m) h all =
    (bytes_lt_trans a b k h all.0, IsOrdered_above a b m h all.1)

pub IsOrdered-metadata_insert :
    (key value : Bytes) (m : Metadata) → IsOrdered m → IsOrdered (metadata_insert key value m)
unfolding metadata_insert
IsOrdered-metadata_insert key value [] ordered = (tt, tt)
IsOrdered-metadata_insert key value ((k, v) ∷ m) ordered =
    go (bytes_eq k key) (bytes_lt key k) refl refl (IsOrdered-metadata_insert key value m ordered.1)
  where
    go :
        (same below : Bool)
        → bytes_eq k key ≡ same
        → bytes_lt key k ≡ below
        → IsOrdered (metadata_insert key value m)
        → IsOrdered (
            if same
            then (key, value) ∷ m
            else if below
            then (key, value) ∷ (k, v) ∷ m
            else (k, v) ∷ metadata_insert key value m)
    go true below e l ih = (
      subst (λ x. All (λ e'. bytes_lt x e'.0 ≡ true) m) (bytes_eq→eq k key e) ordered.0,
      ordered.1,
    )
    go false true e l ih = ((l, IsOrdered_above key k m l ordered.0), ordered)
    go false false e l ih =
        (All-metadata_insert (λ e'. bytes_lt k e'.0 ≡ true) key value m above ordered.0, ih)
      where
        above : bytes_lt k key ≡ true
        above = elim (Bool-cases (bytes_lt k key)) [
          | inl yes_lt ↦ yes_lt
          | inr no_lt ↦ absurd (not_same (bytes_lt_total k key no_lt l))
        ]
          where
            not_same : k ≡ key → ⊥
            not_same p = let same : bytes_eq k key ≡ true = rw p (bytes_eq_self key) in cc (e, same)
