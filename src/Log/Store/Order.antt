-- ===== src/Log/Store/Order.antt =====
-- salamander/src/log/mod.rs: the segments of a directory, sorted by base, and how `open` tells them
-- apart.
use salamander_db.Prelude.{
  ℕ, suc, ◌≤◌, ◌<◌, ◌≡◌, refl, sym, ap, ◌∙◌, Option, some, List, [], ◌∷◌, ◌++◌, append_assoc,
  append-nil, arith, le→leb,
}
use salamander_db.Bytes.{Bytes}
use salamander_db.Errors.{ok}
use Prim.Native.Nat.{compare, Ordering}
use salamander_db.Format.Checksum.{Crc32c}
use salamander_db.Log.Segment.{Segment, open_segment}
use salamander_db.Log.Store.{insert_by_base, discover_segments, classify}
use salamander_db.Log.Store.Chain.{IsRising}

-- Sorting changes nothing where the bases rise already.
pub discover_rising :
    (files : List (ℕ × Bytes)) (n m : ℕ) → IsRising n files m → discover_segments files ≡ files
unfolding discover_segments insert_by_base
discover_rising [] n m h = refl
discover_rising (x ∷ []) n m h = refl
discover_rising (x ∷ y ∷ files) n m h =
    rw (discover_rising (y ∷ files) (suc x.0) m h.1, le→leb x.0 y.0 (omega (arith, h.1.0))) refl

compare-lt : (a b : ℕ) → a < b → compare a b ≡ Ordering.lt
compare-lt a b h = ground arith

compare-eq : (a : ℕ) → compare a a ≡ Ordering.eq
compare-eq a = ground arith

compare-gt : (a b : ℕ) → b < a → compare a b ≡ Ordering.gt
compare-gt a b h = ground arith

-- Files below the active base are closed ones.
pub classify_below :
    (crc : Crc32c) (base n : ℕ) (closed files rest : List (ℕ × Bytes)) (active : Option Segment)
    → IsRising n files base
    → classify crc base closed active (files ++ rest)
      ≡ classify crc base (closed ++ files) active rest
unfolding classify
classify_below crc base n closed [] rest active h =
    ap (λ c. classify crc base c active rest) (sym (append-nil closed))
classify_below crc base n closed (x ∷ files) rest active h =
    step
    ∙ classify_below crc base (suc x.0) (closed ++ (x ∷ [])) files rest active h.1
    ∙ ap (λ c. classify crc base c active rest) (append_assoc closed (x ∷ []) files)
  where
    below : (fs : List (ℕ × Bytes)) (k : ℕ) → IsRising k fs base → k ≤ base
    below [] k g = g
    below (y ∷ fs) k g = omega (arith, g.0, below fs (suc y.0) g.1)

    step :
        classify crc base closed active (x ∷ (files ++ rest))
        ≡ classify crc base (closed ++ (x ∷ [])) active (files ++ rest)
    step = rw (compare-lt x.0 base (omega (arith, below files (suc x.0) h.1)), classify) refl

pub classify_active :
    (crc : Crc32c) (base : ℕ) (closed rest : List (ℕ × Bytes)) (active : Option Segment)
    (bytes : Bytes) (s : Segment)
    → open_segment crc base bytes ≡ some (ok s)
    → classify crc base closed active ((base, bytes) ∷ rest)
      ≡ classify crc base closed (some s) rest
unfolding classify
classify_active crc base closed rest active bytes s e = rw (compare-eq base, e, classify) refl

-- An empty file above the active one is left out.
pub classify_orphan :
    (crc : Crc32c) (base b : ℕ) (closed rest : List (ℕ × Bytes)) (active : Option Segment)
    → base < b
    → classify crc base closed active ((b, []) ∷ rest) ≡ classify crc base closed active rest
unfolding classify
classify_orphan crc base b closed rest active h = rw (compare-gt b base h, classify) refl
