-- ===== src/Db/Took.antt =====
-- salamander/src/db.rs: what a batch does to the log.
use salamander_db.Errors.{◌>>=◌, SalamanderError, Result, ok, err, ok-injective}
use salamander_db.Prelude.{
  ℕ, ◌+◌, ◌-◌, ◌≡◌, refl, sym, ap, inl, inr, List, [], ◌∷◌, ◌++◌, arith, leb, Bool-cases, length,
}
use salamander_db.Bytes.{Bytes}
use salamander_db.Format.Types.{RecordEnvelopeV2}
use salamander_db.Format.Checksum.{Crc32c}
use salamander_db.Log.Segment.{create, append_batch, encode_batch, write_all}
use salamander_db.Log.Store.{
  Log, head, roll, make_room, has_base, append_events, after_room, after_write,
}

pub head-make_room : (log log' : Log) → make_room log ≡ ok log' → head log' ≡ head log
unfolding make_room roll create
head-make_room log log' h = elim (Bool-cases (leb log.segment_max_bytes log.active.len_bytes)) [
  | inr f ↦ ap (λ l. head l) (sym (ok-injective (rw (f, make_room) at h)))
  | inl t ↦
      elim (Bool-cases (
        has_base log.active.next_offset
          (log.closed ++ ((log.active.base_offset, log.active.file) ∷ [])))) [
            | inl u ↦ absurd (cc (rw (t, make_room, u, roll) at h))
            | inr n ↦ ap (λ l. head l) (sym (ok-injective (rw (t, make_room, n, roll) at h)))
          ]
]

-- What a batch did to the log.
pub data Took (log : Log) (n : ℕ) : Log × Result (ℕ × ℕ) → Type 0 where
  not_taken : {log' : Log} {e : SalamanderError} → head log' ≡ head log → Took log n (log', err e)
  taken :
      {log' : Log} {first last : ℕ}
      → first ≡ head log
      → head log' ≡ head log + n
      → last + 1 ≡ head log'
      → Took log n (log', ok (first, last))

append_batch-Took :
    (crc : Crc32c) (events : List (RecordEnvelopeV2 × Bytes)) (log roomy : Log)
    → head roomy ≡ head log
    → Took log (length events) (after_write roomy (append_batch crc events roomy.active))
unfolding append_batch
append_batch-Took crc [] log roomy h = not_taken h
append_batch-Took crc ((envelope, payload) ∷ events) log roomy h =
    go (encode_batch crc roomy.active.next_offset envelope ((envelope, payload) ∷ events))
  where
    go :
        (r : Result Bytes)
        → Took log (length ((envelope, payload) ∷ events)) (
            after_write roomy (
              r >>= (λ encoded. ok (
                (
                  roomy.active.next_offset,
                  (write_all roomy.active encoded
                        (length ((envelope, payload) ∷ events))).next_offset
                      - 1,
                ),
                write_all roomy.active encoded (length ((envelope, payload) ∷ events)),
              ))))
    go (err e) = not_taken h
    go (ok encoded) = taken h (omega (arith, h)) (omega arith)

pub append_events-Took :
    (crc : Crc32c) (events : List (RecordEnvelopeV2 × Bytes)) (log : Log)
    → Took log (length events) (append_events crc events log)
unfolding append_events
append_events-Took crc events log = go (make_room log) refl
  where
    go :
        (r : Result Log)
        → make_room log ≡ r
        → Took log (length events) (after_room (append_batch crc events) log r)
    go (err e) m = not_taken refl
    go (ok roomy) m = append_batch-Took crc events log roomy (head-make_room log roomy m)
