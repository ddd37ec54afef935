-- ===== src/Stream/Overwrite.antt =====
-- The maps of salamander/src/stream.rs: what a second insertion and a change of the values do.
use salamander_db.Prelude.{ℕ, ◌≡◌, refl, inl, inr, ◌&&◌, List, [], ◌∷◌, ◌++◌, Bool-cases}
use salamander_db.Bytes.{Bytes, bytes_eq, bytes_eq_self}
use salamander_db.Format.Types.{Id16}
use salamander_db.Branch.Maps.{Map, map_get, map_insert}
use salamander_db.Stream.{map_some, extend_ids}
use salamander_db.Stream.Keys.{PairMap, pair_insert}

module _ {ℓ} {A : Type ℓ} where
  pub map_insert_again :
      (key : Bytes) (x y : A) (m : Map A)
      → map_insert key y (map_insert key x m) ≡ map_insert key y m
  unfolding map_insert
  map_insert_again key x y [] = rw (bytes_eq_self key) refl
  map_insert_again key x y ((k, v) ∷ m) = elim (Bool-cases (bytes_eq key k)) [
    | inl e ↦ rw (e, bytes_eq_self key) refl
    | inr e ↦ rw (e, e, map_insert_again key x y m) refl
  ]

  pub pair_insert_again :
      (a b : Bytes) (x y : A) (m : PairMap A)
      → pair_insert a b y (pair_insert a b x m) ≡ pair_insert a b y m
  unfolding pair_insert
  pair_insert_again a b x y [] = rw (bytes_eq_self a, bytes_eq_self b) refl
  pair_insert_again a b x y ((k, v) ∷ m) = elim (Bool-cases (bytes_eq a k.0 && bytes_eq b k.1)) [
    | inl e ↦ rw (e, bytes_eq_self a, bytes_eq_self b) refl
    | inr e ↦ rw (e, e, pair_insert_again a b x y m) refl
  ]

module _ {ℓ κ} {A : Type ℓ} {B : Type κ} (f : A → B) where
  abbrev pub map_values : Map A → Map B
  map_values [] = []
  map_values ((k, v) ∷ m) = (k, f v) ∷ map_values m

  abbrev pub pair_values : PairMap A → PairMap B
  pair_values [] = []
  pair_values ((k, v) ∷ m) = (k, f v) ∷ pair_values m

  pub map_values-map_insert :
      (key : Bytes) (x : A) (m : Map A)
      → map_values (map_insert key x m) ≡ map_insert key (f x) (map_values m)
  unfolding map_insert
  map_values-map_insert key x [] = refl
  map_values-map_insert key x ((k, v) ∷ m) = elim (Bool-cases (bytes_eq key k)) [
    | inl e ↦ rw e refl
    | inr e ↦ rw (e, map_values-map_insert key x m) refl
  ]

  pub pair_values-pair_insert :
      (a b : Bytes) (x : A) (m : PairMap A)
      → pair_values (pair_insert a b x m) ≡ pair_insert a b (f x) (pair_values m)
  unfolding pair_insert
  pair_values-pair_insert a b x [] = refl
  pair_values-pair_insert a b x ((k, v) ∷ m) =
      elim (Bool-cases (bytes_eq a k.0 && bytes_eq b k.1)) [
        | inl e ↦ rw e refl
        | inr e ↦ rw (e, pair_values-pair_insert a b x m) refl
      ]

  pub map_get-map_values :
      (key : Bytes) (m : Map A) → map_get key (map_values m) ≡ map_some f (map_get key m)
  unfolding map_get
  map_get-map_values key [] = refl
  map_get-map_values key ((k, v) ∷ m) = elim (Bool-cases (bytes_eq key k)) [
    | inl e ↦ rw e refl
    | inr e ↦ rw (e, map_get-map_values key m) refl
  ]

pub extend_ids_last :
    (ds : List (Id16 × ℕ)) (id : Id16) (digest : ℕ) (batch : Id16) (m : Map (ℕ × Id16))
    → extend_ids (ds ++ ((id, digest) ∷ [])) batch m
      ≡ map_insert id (digest, batch) (extend_ids ds batch m)
unfolding extend_ids
extend_ids_last [] id digest batch m = refl
extend_ids_last ((i, d) ∷ ds) id digest batch m =
    extend_ids_last ds id digest batch (map_insert i (d, batch) m)
