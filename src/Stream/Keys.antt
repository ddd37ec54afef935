-- ===== src/Stream/Keys.antt =====
-- Association lists for the hash maps of salamander/src/stream.rs whose keys are pairs.
use salamander_db.Prelude.{
  ◌≡◌, refl, inl, inr, ◌&&◌, Option, none, some, List, [], ◌∷◌, if◌then◌else◌, Bool-cases,
}
use salamander_db.Bytes.{Bytes, bytes_eq, bytes_eq_self}

abbrev pub PairMap {ℓ} : Type ℓ → Type ℓ
PairMap A = List ((Bytes × Bytes) × A)

module _ {ℓ} {A : Type ℓ} where
  unfoldable pub pair_get : Bytes → Bytes → PairMap A → Option A
  pair_get a b [] = none
  pair_get a b ((k, v) ∷ m) = if bytes_eq a k.0 && bytes_eq b k.1 then some v else pair_get a b m

  unfoldable pub pair_insert : Bytes → Bytes → A → PairMap A → PairMap A
  pair_insert a b value [] = ((a, b), value) ∷ []
  pair_insert a b value ((k, v) ∷ m) =
      if bytes_eq a k.0 && bytes_eq b k.1
      then ((a, b), value) ∷ m
      else (k, v) ∷ pair_insert a b value m

  pub pair_get-pair_insert :
      (a b : Bytes) (value : A) (m : PairMap A)
      → pair_get a b (pair_insert a b value m) ≡ some value
  unfolding pair_get pair_insert
  pair_get-pair_insert a b value [] = rw (bytes_eq_self a, bytes_eq_self b) refl
  pair_get-pair_insert a b value ((k, v) ∷ m) =
      elim (Bool-cases (bytes_eq a k.0 && bytes_eq b k.1)) [
        | inl e ↦ rw (e, bytes_eq_self a, bytes_eq_self b) refl
        | inr e ↦ rw (e, e, pair_get-pair_insert a b value m) refl
      ]
