-- ===== src/Branch/Maps.antt =====
-- Association lists for the hash maps of salamander/src/branch.rs.
use salamander_db.Prelude.{
  ◌≡◌, refl, sym, inl, inr, false, Option, none, some, List, [], ◌∷◌, if◌then◌else◌, Bool-cases,
}
use salamander_db.Bytes.{Bytes, bytes_eq, bytes_eq_self, bytes_eq→eq}

abbrev pub Map {ℓ} : Type ℓ → Type ℓ
Map A = List (Bytes × A)

module _ {ℓ} {A : Type ℓ} where
  unfoldable pub map_get : Bytes → Map A → Option A
  map_get key [] = none
  map_get key ((k, v) ∷ m) = if bytes_eq key k then some v else map_get key m

  unfoldable pub map_insert : Bytes → A → Map A → Map A
  map_insert key value [] = (key, value) ∷ []
  map_insert key value ((k, v) ∷ m) =
      if bytes_eq key k then (key, value) ∷ m else (k, v) ∷ map_insert key value m

  pub get-insert :
      (key : Bytes) (value : A) (m : Map A) → map_get key (map_insert key value m) ≡ some value
  unfolding map_get map_insert
  get-insert key value [] = rw (bytes_eq_self key) refl
  get-insert key value ((k, v) ∷ m) = elim (Bool-cases (bytes_eq key k)) [
    | inl e ↦ rw (e, bytes_eq_self key) refl
    | inr e ↦ rw (e, e, get-insert key value m) refl
  ]

  pub get-insert_other :
      (key other : Bytes) (value : A) (m : Map A)
      → bytes_eq other key ≡ false
      → map_get other (map_insert key value m) ≡ map_get other m
  unfolding map_get map_insert
  get-insert_other key other value [] h = rw h refl
  get-insert_other key other value ((k, v) ∷ m) h = elim (Bool-cases (bytes_eq key k)) [
    | inl e ↦ rw (e, h, sym (bytes_eq→eq key k e), h) refl
    | inr e ↦ rw (e, get-insert_other key other value m h) refl
  ]
