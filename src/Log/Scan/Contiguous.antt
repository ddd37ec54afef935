-- ===== src/Log/Scan/Contiguous.antt =====
-- salamander/src/log/segment.rs: what the scan returns for any bytes at all.
use salamander_db.Prelude.{
  ℕ, zero, suc, ◌+◌, ◌%◌, ◌^◌, ◌≤◌, ◌≡◌, refl, sym, inl, inr, true, not, ◌||◌, Option, none, some,
  List, [], ◌∷◌, ◌++◌, arith, leb, ◌==◌, ==_iff, Bool-cases, length, drop, length-append,
}
use salamander_db.Bytes.{Bytes, slice, bytes_eq}
use salamander_db.Errors.{SalamanderError, Result, ok, err, corrupt, Result-cases}
use salamander_db.Format.Types.{FrameKind, StoredRecord, event, system, batch_begin, batch_commit}
use salamander_db.Log.Scan.{
  PendingBatch, ScanState, ScanResult, Round, scan_start, rewound, scan_begin, scan_event,
  commit_matches, scan_commit, scan_system, scan_frame, scan_end, scan_error, scan_decoded,
  scan_round, scan_loop, scan_records, again, break_with, return_err,
}
use salamander_db.Log.Scan.Rounds.{
  scan_round_moves, scan_loop-again, scan_loop-break_with, scan_loop-return_err,
}
use salamander_db.Format.Checksum.{Crc32c}
use salamander_db.Log.Batch.{parse_batch_control}
use salamander_db.Log.Record.{decode_owned}
use mathlib.Core.Path.{subst}

-- The positions count up from `n`.
abbrev pub IsContiguous : ℕ → List StoredRecord → Type 0
IsContiguous n [] = Unit
IsContiguous n (r ∷ rs) = (r.position ≡ n) × IsContiguous (n + 1) rs

IsContiguous-append :
    (n : ℕ) (xs ys : List StoredRecord)
    → IsContiguous n xs
    → IsContiguous (n + length xs) ys
    → IsContiguous n (xs ++ ys)
IsContiguous-append n [] ys hx hy = subst (λ k. IsContiguous k ys) (omega arith) hy
IsContiguous-append n (x ∷ xs) ys hx hy =
    (hx.0, IsContiguous-append (n + 1) xs ys hx.1 (subst (λ k. IsContiguous k ys) (omega arith) hy))

abbrev IsPending : ℕ → ℕ → ℕ → Option PendingBatch → Type 0
IsPending next_offset valid_bytes reached none = Unit
IsPending next_offset valid_bytes reached (some b) =
    (b.first_position ≡ next_offset)
    × IsContiguous b.first_position b.events
    × (valid_bytes ≤ b.start_byte)
    × (b.start_byte ≤ reached)

record IsScan (base_offset : ℕ) (s : ScanState) : Type 0 where
  next : s.next_offset ≡ base_offset + length s.records
  contiguous : IsContiguous base_offset s.records
  valid_le : s.valid_bytes ≤ s.pos
  batch : IsPending s.next_offset s.valid_bytes s.pos s.pending

-- What survives of the invariant when the loop breaks.
record IsEnd (base_offset top : ℕ) (s : ScanState) : Type 0 where
  next : s.next_offset ≡ base_offset + length s.records
  contiguous : IsContiguous base_offset s.records
  within : s.valid_bytes ≤ top

abbrev IsRound : ℕ → ℕ → Round → Type 0
IsRound base_offset top (again s) = IsScan base_offset s
IsRound base_offset top (break_with s stop) = IsEnd base_offset top s
IsRound base_offset top (return_err e) = Unit

one-IsContiguous :
    (base_offset : ℕ) (s : ScanState) (rec : StoredRecord)
    → s.next_offset ≡ base_offset + length s.records
    → IsContiguous base_offset s.records
    → rec.position ≡ s.next_offset
    → IsContiguous base_offset (s.records ++ (rec ∷ []))
one-IsContiguous base_offset s rec n c p =
    IsContiguous-append base_offset s.records (rec ∷ []) c (omega (arith, p, n), tt)

module _ (base_offset : ℕ) (s : ScanState) (n : s.next_offset ≡ base_offset + length s.records)
    (c : IsContiguous base_offset s.records) (le : s.valid_bytes ≤ s.pos) (top : ℕ)
    (w : s.valid_bytes ≤ top) where
  none-IsPending : (a b d : ℕ) → s.pending ≡ none → IsPending a b d s.pending
  none-IsPending a b d q = subst (IsPending a b d) (sym q) tt

  event-IsRound :
      (frame : Bytes) (rec : StoredRecord) (p : Option PendingBatch)
      → s.pending ≡ p
      → IsPending s.next_offset s.valid_bytes s.pos p
      → IsRound base_offset top (scan_event s frame rec p)
  unfolding scan_event
  event-IsRound frame rec none q h = elim (Bool-cases (rec.position == s.next_offset)) [
    | inl e ↦ rw e (record {
      next = omega (arith, n, length-append s.records (rec ∷ []));
      contiguous = one-IsContiguous base_offset s rec n c ((==_iff _ _).0 e);
      valid_le = omega arith;
      batch = none-IsPending _ _ _ q;
    })
    | inr e ↦ rw e (record { next = n; contiguous = c; within = w })
  ]
  event-IsRound frame rec (some b) q h =
      elim (Bool-cases (rec.position == b.first_position + length b.events)) [
        | inl e ↦
            elim (Bool-cases (
              not (rec.position == b.first_position + length b.events)
              || not (bytes_eq rec.envelope.batch_id b.batch_id)
              || not (rec.envelope.batch_index == length b.events % 2 ^ 32)
              || leb b.count (length b.events))) [
                | inl t ↦ rw t (record { next = n; contiguous = c; within = w })
                | inr f ↦ rw f (record {
                  next = n;
                  contiguous = c;
                  valid_le = le;
                  batch = (
                    h.0,
                    IsContiguous-append b.first_position b.events (rec ∷ []) h.1
                        ((==_iff _ _).0 e, tt),
                    h.2,
                    h.3,
                  );
                })
              ]
        | inr f ↦ rw f (record { next = n; contiguous = c; within = w })
      ]

  begin-IsRound :
      (frame_start : ℕ) (rec : StoredRecord) (p : Option PendingBatch)
      → s.valid_bytes ≤ frame_start
      → frame_start ≤ s.pos
      → IsRound base_offset top (scan_begin s frame_start rec p)
  unfolding scan_begin
  begin-IsRound frame_start rec (some b) u v = record { next = n; contiguous = c; within = w }
  begin-IsRound frame_start rec none u v = elim (Bool-cases (rec.position == s.next_offset)) [
    | inr f ↦ rw f (record { next = n; contiguous = c; within = w })
    | inl e ↦ elim (Result-cases (parse_batch_control rec.payload)) [
      | inl (x, q) ↦ rw (e, q) tt
      | inr (x, q) ↦
          rw (e, q)
            (record {
              next = n;
              contiguous = c;
              valid_le = le;
              batch = ((==_iff _ _).0 e, tt, u, v);
            })
    ]
  ]

  system-IsRound :
      (rec : StoredRecord) (p : Option PendingBatch)
      → s.pending ≡ p
      → IsRound base_offset top (scan_system s rec p)
  unfolding scan_system
  system-IsRound rec (some b) q = record { next = n; contiguous = c; within = w }
  system-IsRound rec none q = elim (Bool-cases (rec.position == s.next_offset)) [
    | inl e ↦ rw e (record {
      next = n;
      contiguous = c;
      valid_le = omega arith;
      batch = none-IsPending _ _ _ q;
    })
    | inr f ↦ rw f (record { next = n; contiguous = c; within = w })
  ]

  commit_matches-length :
      (crc : Crc32c) (rec : StoredRecord) (b : PendingBatch) (count digest : ℕ)
      → commit_matches crc rec b count digest ≡ true
      → length b.events ≡ b.count
  unfolding commit_matches
  commit_matches-length crc rec b count digest e = ground arith

  commit-IsRound :
      (crc : Crc32c) (rec : StoredRecord) (p : Option PendingBatch)
      → IsPending s.next_offset s.valid_bytes s.pos p
      → IsRound base_offset top (scan_commit crc s rec p)
  unfolding scan_commit
  commit-IsRound crc rec none h = record { next = n; contiguous = c; within = w }
  commit-IsRound crc rec (some b) h = elim (Result-cases (parse_batch_control rec.payload)) [
    | inl (x, q) ↦ rw (q, scan_commit) tt
    | inr (x, q) ↦ elim (Bool-cases (commit_matches crc rec b x.0 x.1)) [
      | inr f ↦ rw (q, f, scan_commit) (record { next = n; contiguous = c; within = w })
      | inl t ↦
          rw (q, t, scan_commit)
            (record {
              next = omega (
                arith,
                n,
                commit_matches-length crc rec b x.0 x.1 t,
                length-append s.records b.events,
              );
              contiguous =
                  IsContiguous-append base_offset s.records b.events c
                    (subst (λ k. IsContiguous k b.events) (omega (arith, h.0, n)) h.1);
              valid_le = omega arith;
              batch = tt;
            })
    ]
  ]

scan_frame-IsRound :
    (base_offset top : ℕ) (crc : Crc32c) (s : ScanState) (frame : Bytes) (rec : StoredRecord)
    (consumed : ℕ) (k : FrameKind)
    → IsScan base_offset s
    → s.valid_bytes ≤ top
    → IsRound base_offset top (scan_frame crc s frame rec consumed k)
unfolding scan_frame
scan_frame-IsRound base_offset top crc s frame rec consumed batch_begin h w =
    begin-IsRound base_offset (record s { pos = s.pos + consumed }) h.next h.contiguous
      (omega (arith, h.valid_le)) top w s.pos rec s.pending h.valid_le (omega arith)
scan_frame-IsRound base_offset top crc s frame rec consumed event h w =
    event-IsRound base_offset (record s { pos = s.pos + consumed }) h.next h.contiguous
      (omega (arith, h.valid_le)) top w frame rec s.pending refl (later s.pending h.batch)
  where
    later :
        (p : Option PendingBatch)
        → IsPending s.next_offset s.valid_bytes s.pos p
        → IsPending s.next_offset s.valid_bytes (s.pos + consumed) p
    later none x = tt
    later (some b) x = (x.0, x.1, x.2, omega (arith, x.3))
scan_frame-IsRound base_offset top crc s frame rec consumed batch_commit h w =
    commit-IsRound base_offset (record s { pos = s.pos + consumed }) h.next h.contiguous
      (omega (arith, h.valid_le)) top w crc rec s.pending (later s.pending h.batch)
  where
    later :
        (p : Option PendingBatch)
        → IsPending s.next_offset s.valid_bytes s.pos p
        → IsPending s.next_offset s.valid_bytes (s.pos + consumed) p
    later none x = tt
    later (some b) x = (x.0, x.1, x.2, omega (arith, x.3))
scan_frame-IsRound base_offset top crc s frame rec consumed system h w =
    system-IsRound base_offset (record s { pos = s.pos + consumed }) h.next h.contiguous
      (omega (arith, h.valid_le)) top w rec s.pending refl

rewind-IsEnd :
    (base_offset top : ℕ) (s : ScanState) (p : Option PendingBatch)
    → IsScan base_offset s
    → s.valid_bytes ≤ top
    → IsEnd base_offset top (rewound s p)
unfolding rewound
rewind-IsEnd base_offset top s none h w = record {
  next = h.next;
  contiguous = h.contiguous;
  within = w;
}
rewind-IsEnd base_offset top s (some b) h w = record {
  next = h.next;
  contiguous = h.contiguous;
  within = w;
}

scan_error-IsRound :
    (base_offset top : ℕ) (s : ScanState) (e : SalamanderError)
    → IsScan base_offset s
    → s.valid_bytes ≤ top
    → IsRound base_offset top (scan_error s e)
unfolding scan_error
scan_error-IsRound base_offset top s (corrupt offset reason) h w =
    rewind-IsEnd base_offset top s s.pending h w
scan_error-IsRound base_offset top s _ h w = tt

scan_decoded-IsRound :
    (base_offset top : ℕ) (crc : Crc32c) (buf : Bytes) (s : ScanState)
    (d : Result (Option (StoredRecord × ℕ)))
    → IsScan base_offset s
    → s.valid_bytes ≤ top
    → IsRound base_offset top (scan_decoded crc buf s d)
unfolding scan_decoded scan_end
scan_decoded-IsRound base_offset top crc buf s (ok none) h w =
    rewind-IsEnd base_offset top s s.pending h w
scan_decoded-IsRound base_offset top crc buf s (ok (some (rec, consumed))) h w =
    scan_frame-IsRound base_offset top crc s (slice buf s.pos (s.pos + consumed)) rec consumed
      rec.kind h w
scan_decoded-IsRound base_offset top crc buf s (err e) h w =
    scan_error-IsRound base_offset top s e h w

-- What a result of the scan satisfies.
pub record IsScanned (base_offset : ℕ) (buf : Bytes) (res : ScanResult) : Type 0 where
  pub next : res.next_offset ≡ base_offset + length res.records
  pub contiguous : IsContiguous base_offset res.records
  pub within : res.valid_bytes ≤ length buf

abbrev IsOutcome : ℕ → Bytes → Option (Result ScanResult) → Type 0
IsOutcome base_offset buf none = Unit
IsOutcome base_offset buf (some (err e)) = Unit
IsOutcome base_offset buf (some (ok res)) = IsScanned base_offset buf res

scan_round-IsRound :
    (crc : Crc32c) (buf : Bytes) (base_offset : ℕ) (s : ScanState)
    → IsScan base_offset s
    → s.pos ≤ length buf
    → IsRound base_offset (length buf) (scan_round crc buf s)
unfolding scan_round
scan_round-IsRound crc buf base_offset s h le =
    scan_decoded-IsRound base_offset (length buf) crc buf s (decode_owned crc (drop s.pos buf)) h
      (omega (arith, h.valid_le, le))

scan_loop-IsOutcome :
    (crc : Crc32c) (buf : Bytes) (base_offset fuel : ℕ) (s : ScanState)
    → IsScan base_offset s
    → s.pos ≤ length buf
    → IsOutcome base_offset buf (scan_loop crc buf fuel s)
unfolding scan_loop
scan_loop-IsOutcome crc buf base_offset zero s h le = tt
scan_loop-IsOutcome crc buf base_offset (suc fuel) s h le =
    go (scan_round crc buf s) refl (scan_round-IsRound crc buf base_offset s h le)
      (scan_loop-IsOutcome crc buf base_offset fuel)
  where
    go :
        (o : Round)
        → scan_round crc buf s ≡ o
        → IsRound base_offset (length buf) (scan_round crc buf s)
        → ((t : ScanState)
            → IsScan base_offset t
            → t.pos ≤ length buf
            → IsOutcome base_offset buf (scan_loop crc buf fuel t))
        → IsOutcome base_offset buf (scan_loop crc buf (suc fuel) s)
    go (again t) e g ih =
        rw (scan_loop-again crc buf fuel s t e)
          (ih t (subst (IsRound base_offset (length buf)) e g) (scan_round_moves crc buf s t e).1)
    go (break_with t stop) e g ih =
        let end : IsEnd base_offset (length buf) t = subst (IsRound base_offset (length buf)) e g in
        rw (scan_loop-break_with crc buf fuel s t stop e) (record {
          next = end.next;
          contiguous = end.contiguous;
          within = omega (arith, end.within);
        })
    go (return_err x) e g ih = rw (scan_loop-return_err crc buf fuel s x e) tt

-- On any bytes at all, a scan that returns a result returns records whose positions count up from
-- the segment's base without a gap, the next position behind the last of them, and a valid prefix
-- that is no longer than the bytes: a truncation to it never extends the file.
pub scan_records-IsScanned :
    (crc : Crc32c) (buf : Bytes) (base_offset : ℕ) (res : ScanResult)
    → scan_records crc buf base_offset ≡ some (ok res)
    → IsScanned base_offset buf res
unfolding scan_records
scan_records-IsScanned crc buf base_offset res e = subst (IsOutcome base_offset buf) e (
    scan_loop-IsOutcome crc buf base_offset (suc (length buf)) (scan_start base_offset)
      (record { next = omega arith; contiguous = tt; valid_le = omega arith; batch = tt })
      (omega arith))
