-- ===== src/Db/Branches/Batches.antt =====
-- salamander/src/db.rs: the loop of `is_batch_boundary` over the records of one batch.
use salamander_db.Prelude.{
  ℕ, suc, ◌+◌, ◌-◌, ◌<◌, ◌≡◌, refl, sym, ap, ◌∙◌, inl, inr, true, false, not, Option, some, List,
  [], ◌∷◌, ◌++◌, arith, leb, ◌==◌, if◌then◌else◌, ==_iff, Bool-cases, length, All,
}
use salamander_db.Bytes.{Bytes, bytes_eq, bytes_eq_self}
use salamander_db.Errors.{Result, ok}
use salamander_db.Format.Types.{Id16, RecordEnvelopeV2, StoredRecord}
use salamander_db.Log.Segment.Batch.{batch_records}
use salamander_db.Db.Recovery.Whole.{all_ok}
use salamander_db.Db.Branches.{boundary_loop, differs}

abbrev pub Events : Type 0
Events = List (RecordEnvelopeV2 × Bytes)

-- The records at or behind a position, which the reader gives in order.
abbrev pub from_position : ℕ → List StoredRecord → List StoredRecord
from_position at [] = []
from_position at (rec ∷ records) =
    let rest : List StoredRecord = from_position at records in
    if leb at rec.position then rec ∷ rest else rest

module _ (at : ℕ) (before : Option Id16) (rec : StoredRecord)
    (items : List (Result StoredRecord)) where
  step_skip :
      rec.position + 1 < at
      → boundary_loop at before (ok rec ∷ items) ≡ boundary_loop at before items
  unfolding boundary_loop
  step_skip h =
      let here : (rec.position + 1 == at) ≡ false = ground (arith, h) in
      let past : leb at rec.position ≡ false = ground (arith, h) in rw (here, past) refl

  step_here :
      rec.position + 1 ≡ at
      → boundary_loop at before (ok rec ∷ items)
        ≡ boundary_loop at (some rec.envelope.batch_id) items
  unfolding boundary_loop
  step_here h = let here : (rec.position + 1 == at) ≡ true = ground (arith, h) in rw here refl

  pub step_at :
      rec.position ≡ at
      → boundary_loop at before (ok rec ∷ items) ≡ ok (differs before rec.envelope.batch_id)
  unfolding boundary_loop
  step_at h =
      let here : (rec.position + 1 == at) ≡ false = ground (arith, h) in
      let past : leb at rec.position ≡ true = ground (arith, h) in
      let it : (rec.position == at) ≡ true = ground (arith, h) in rw (here, past, it) refl

-- The loop passes over what the reader leaves out.
pub from_position-all_ok :
    (at : ℕ) (records : List StoredRecord) (before : Option Id16)
    → 0 < at
    → boundary_loop at before (all_ok (from_position (at - 1) records))
      ≡ boundary_loop at before (all_ok records)
unfolding boundary_loop
from_position-all_ok at [] before up = refl
from_position-all_ok at (rec ∷ records) before up = elim (Bool-cases (leb (at - 1) rec.position)) [
  | inl t ↦
      rw
        (
          t,
          from_position-all_ok at records
              (if rec.position + 1 == at then some rec.envelope.batch_id else before) up,
        )
        refl
  | inr f ↦
      let low : rec.position + 1 < at = ground (arith, f, up) in
      ap (λ rs. boundary_loop at before (all_ok rs)) (dropped f)
      ∙ from_position-all_ok at records before up
      ∙ sym (step_skip at before rec (all_ok records) low)
]
  where
    dropped :
        leb (at - 1) rec.position ≡ false
        → from_position (at - 1) (rec ∷ records) ≡ from_position (at - 1) records
    dropped f = rw f refl

module _ (at first : ℕ) (rest : List StoredRecord) where
  pub skip_batch :
      (events : Events) (index : ℕ) (before : Option Id16)
      → first + index + length events < at
      → boundary_loop at before (all_ok (batch_records first index events ++ rest))
        ≡ boundary_loop at before (all_ok rest)
  skip_batch [] index before h = refl
  skip_batch ((e, x) ∷ events) index before h =
      step_skip at before _ (all_ok (batch_records first (index + 1) events ++ rest))
        (omega (arith, h))
      ∙ skip_batch events (index + 1) before (omega (arith, h))

  pub end_batch :
      (e : RecordEnvelopeV2) (x : Bytes) (events : Events) (id : Id16) (index : ℕ)
      (before : Option Id16)
      → e.batch_id ≡ id
      → All (λ y. y.0.batch_id ≡ id) events
      → first + index + suc (length events) ≡ at
      → boundary_loop at before (all_ok (batch_records first index ((e, x) ∷ events) ++ rest))
        ≡ boundary_loop at (some id) (all_ok rest)
  end_batch e x [] id index before same all h =
      step_here at before _ (all_ok rest) (omega (arith, h))
      ∙ ap (λ i. boundary_loop at (some i) (all_ok rest)) same
  end_batch e x ((e', x') ∷ events) id index before same all h =
      step_skip at before _ (all_ok (batch_records first (index + 1) ((e', x') ∷ events) ++ rest))
        (omega (arith, h))
      ∙ end_batch e' x' events id (index + 1) before all.0 all.1 (omega (arith, h))

  pub inside_batch :
      (e : RecordEnvelopeV2) (x : Bytes) (events : Events) (id : Id16) (index : ℕ)
      (before : Option Id16)
      → e.batch_id ≡ id
      → All (λ y. y.0.batch_id ≡ id) events
      → first + index < at
      → at < first + index + suc (length events)
      → boundary_loop at before (all_ok (batch_records first index ((e, x) ∷ events) ++ rest))
        ≡ ok false
  inside_batch e x [] id index before same all lo hi = absurd (omega (arith, lo, hi))
  inside_batch e x ((e', x') ∷ events) id index before same all lo hi =
      elim (Bool-cases (first + index + 1 == at)) [
        | inl t ↦
            let here : first + index + 1 ≡ at = (==_iff _ _).0 t in
            step_here at before _
              (all_ok (batch_records first (index + 1) ((e', x') ∷ events) ++ rest)) here
            ∙ step_at at (some e.batch_id) _
                (all_ok (batch_records first (index + 1 + 1) events ++ rest)) (omega (arith, here))
            ∙ ap (λ b. ok (not b)) ((λ i. bytes_eq (same i) (all.0 i)) ∙ bytes_eq_self id)
        | inr f ↦
            let low : first + index + 1 < at = ground (arith, f, lo) in
            step_skip at before _
              (all_ok (batch_records first (index + 1) ((e', x') ∷ events) ++ rest)) low
            ∙ inside_batch e' x' events id (index + 1) before all.0 all.1 (omega (arith, low))
                (omega (arith, hi))
      ]
