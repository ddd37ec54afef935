-- ===== src/Log/Store/Retain/Reclaim.antt =====
-- salamander/src/log/mod.rs: what the closed segments hold when those below the floor go, and a log that
-- can no longer roll.
use salamander_db.Prelude.{
  ℕ, suc, ◌≤◌, ◌≡◌, refl, sym, ap, ◌∙◌, ◌⊎◌, inl, inr, Bool, true, false, List, [], ◌∷◌, ◌++◌,
  append_assoc, arith, leb, leb→le, le→leb, ==_self, Bool-cases,
}
use salamander_db.Bytes.{Bytes}
use salamander_db.Errors.{ok}
use salamander_db.Format.Types.{StoredRecord}
use salamander_db.Format.Checksum.{Crc32c}
use salamander_db.Log.Segment.Appends.{Append}
use salamander_db.Log.Store.{Log, roll, make_room, has_base}
use salamander_db.Log.Store.Chain.{Chain, IsRising, Chain-IsRising}
use salamander_db.Log.Store.Appends.{
  log_append, Stepped, refused, rolled, appended, log_append-Stepped,
}
use mathlib.Core.Path.{subst}
use salamander_db.Log.Store.Retain.{retain_from}
use salamander_db.Log.Store.Retain.Boundary.{IsBase}

rising_kept :
    (floor n m : ℕ) (files : List (ℕ × Bytes))
    → IsRising n files m
    → floor ≤ n
    → (retain_from floor files).0 ≡ files
unfolding retain_from
rising_kept floor n m [] h le = refl
rising_kept floor n m (file ∷ files) h le =
    rw
      (
        le→leb floor file.0 (omega (arith, le, h.0)),
        rising_kept floor (suc file.0) m files h.1 (omega (arith, le, h.0)),
      )
      refl

rising_le : (n m : ℕ) (files : List (ℕ × Bytes)) → IsRising n files m → n ≤ m
rising_le n m [] h = h
rising_le n m (file ∷ files) h = omega (arith, h.0, rising_le (suc file.0) m files h.1)

rising_base : (n m b : ℕ) (files : List (ℕ × Bytes)) → IsRising n files m → IsBase b files → n ≤ b
rising_base n m b [] h i = absurd i
rising_base n m b (file ∷ files) h (inl e) = omega (arith, h.0, e)
rising_base n m b (file ∷ files) h (inr i) =
    omega (arith, h.0, rising_base (suc file.0) m b files h.1 i)

retain_from-skip :
    (floor : ℕ) (file : ℕ × Bytes) (files : List (ℕ × Bytes))
    → leb floor file.0 ≡ false
    → (retain_from floor (file ∷ files)).0 ≡ (retain_from floor files).0
unfolding retain_from
retain_from-skip floor file files f = rw f refl

next_le_floor :
    (crc : Crc32c) (floor m : ℕ) (file : ℕ × Bytes) (files : List (ℕ × Bytes)) (n : ℕ)
    (records : List StoredRecord)
    → Chain crc n files m records
    → leb floor file.0 ≡ false
    → IsBase floor (file ∷ files) ⊎ (floor ≡ m)
    → (n ≤ floor) × (IsBase floor files ⊎ (floor ≡ m))
next_le_floor crc floor m file files n records h f (inl (inl e)) = absurd (ground (arith, f, e))
next_le_floor crc floor m file files n records h f (inl (inr i)) =
    (rising_base n m floor files (Chain-IsRising crc files n m records h) i, inl i)
next_le_floor crc floor m file files n records h f (inr e) =
    (omega (arith, e, rising_le n m files (Chain-IsRising crc files n m records h)), inr e)

retain_nil : (floor : ℕ) → (retain_from floor []).0 ≡ []
unfolding retain_from
retain_nil floor = refl

no_base : (b : ℕ) → IsBase b [] → ⊥
no_base b i = i

-- Reclaiming keeps a chain of closed segments whole: where the floor is the start of one of them
-- or their end, the files that stay hold every record from the floor on, and those that go hold
-- the positions below it.
pub retain_from-Chain :
    (crc : Crc32c) (floor n m : ℕ) (files : List (ℕ × Bytes)) (records : List StoredRecord)
    → Chain crc n files m records
    → n ≤ floor
    → IsBase floor files ⊎ (floor ≡ m)
    → (gone : List (ℕ × Bytes)) × (older : List StoredRecord) × (later : List StoredRecord) × (files
        ≡ gone ++ (retain_from floor files).0)
      × (records ≡ older ++ later)
      × Chain crc n gone floor older
      × Chain crc floor (retain_from floor files).0 m later
retain_from-Chain crc floor n m [] records h le at =
    let same : n ≡ floor = done at in
    (
      [],
      [],
      [],
      rw (retain_nil floor) refl,
      h.1,
      (same, refl),
      subst (λ k. Chain crc floor k m []) (sym (retain_nil floor)) (sym same ∙ h.0, refl),
    )
  where
    done : IsBase floor [] ⊎ (floor ≡ m) → n ≡ floor
    done (inl i) = absurd (no_base floor i)
    done (inr e) = h.0 ∙ sym e
retain_from-Chain crc floor n m (file ∷ files) records (c, after, split, h) le at =
    elim (Bool-cases (leb floor file.0)) [
      | inl t ↦
          let same : n ≡ floor = omega (arith, le, c.key_same, leb→le floor file.0 t) in
          let whole : Chain crc n (file ∷ files) m records = (c, after, split, h) in
          let all =
            rising_kept floor n m (file ∷ files)
              (Chain-IsRising crc (file ∷ files) n m records whole) (omega (arith, same)) in
          (
            [],
            [],
            records,
            sym all,
            refl,
            (same, refl),
            subst (λ fs. Chain crc floor fs m records) (sym all)
                (subst (λ k. Chain crc k (file ∷ files) m records) same whole),
          )
      | inr f ↦
          let (up, at') = next_le_floor crc floor m file files c.seg.next_offset after h f at in
          let (gone, older, later, fs, rs, before, behind) =
            retain_from-Chain crc floor c.seg.next_offset m files after h up at' in
          let skip = retain_from-skip floor file files f in
          (
            file ∷ gone,
            c.state.records ++ older,
            later,
            ap (λ k. file ∷ k) fs ∙ ap (λ k. file ∷ (gone ++ k)) (sym skip),
            split
                ∙ ap (λ k. c.state.records ++ k) rs
                ∙ sym (append_assoc c.state.records older later),
            (c, older, refl, before),
            subst (λ k. Chain crc floor k m later) (sym skip) behind,
          )
    ]

taken :
    (closed : List (ℕ × Bytes)) (b : ℕ) (file : Bytes)
    → has_base b (closed ++ ((b, file) ∷ [])) ≡ true
taken [] b file = ground (arith, ==_self b)
taken (x ∷ closed) b file = ground (arith, taken closed b file)

no_room :
    (log roomy : Log)
    → log.segment_max_bytes ≤ log.active.len_bytes
    → log.active.next_offset ≡ log.active.base_offset
    → make_room log ≡ ok roomy
    → ⊥
unfolding make_room roll
no_room log roomy full empty h =
    let t = taken log.closed log.active.next_offset log.active.file in
    let t' : has_base log.active.next_offset
          (log.closed ++ ((log.active.base_offset, log.active.file) ∷ []))
        ≡ true =
      (λ i. has_base log.active.next_offset (log.closed ++ ((sym empty i, log.active.file) ∷ [])))
      ∙ t in
    cc (rw (le→leb log.segment_max_bytes log.active.len_bytes full, make_room, t', roll) at h)

-- Once the active segment has reached the size limit without holding a position, no append of any
-- kind succeeds, and none changes the log: the roll would create a file whose name is taken.
pub log_append-stuck :
    (crc : Crc32c) (a : Append) (log : Log)
    → log.segment_max_bytes ≤ log.active.len_bytes
    → log.active.next_offset ≡ log.active.base_offset
    → log_append crc a log ≡ (log, false)
log_append-stuck crc a log full empty = go (log_append crc a log) (log_append-Stepped crc a log)
  where
    go : (after : Log × Bool) → Stepped crc a log after → after ≡ (log, false)
    go after refused = refl
    go after (rolled m) = absurd (no_room log _ full empty m)
    go after (appended m e) = absurd (no_room log _ full empty m)
