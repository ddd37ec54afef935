-- ===== src/Db/Cache.antt =====
-- salamander/src/db.rs: the core catalog's checkpoint follows the catalog, and `open_internal` on a log
-- with a complete prefix.
pub mod Reopened
use salamander_db.Prelude.{
  ℕ, ◌+◌, ◌≤◌, ◌<◌, ◌≡◌, refl, sym, ap, ◌∙◌, inl, inr, Bool, true, false, not, ◌&&◌, ◌||◌, Option,
  none, some, List, arith, Bool-cases, length,
}
use salamander_db.Bytes.{Bytes}
use salamander_db.Errors.{Result, ok, err, ◌>>=◌}
use salamander_db.Format.Types.{Id16, StoredRecord}
use salamander_db.Format.Checksum.{Crc32c}
use salamander_db.Commit.{should_commit}
use salamander_db.Log.Store.{Log, head, append_events}
use salamander_db.Stream.{AppendRequest, AppendReceipt, Durability, StreamCatalog}
use salamander_db.Stream.Rebuild.{rebuild_streams}
use salamander_db.Db.{Db, Event, Checkpoint, commit, persist_core_catalog, load_core_catalog}
use salamander_db.Db.Plan.{Env, Prepared, Plan, answer, write, plan_append}
use salamander_db.Db.Append.{
  append_batch_with_id, finish, finish_write, give_answer, is_sync, is_synced, settle, closed,
  total, appended, recorded,
}
use salamander_db.Db.Planned.{Planned, plan_append-Planned}
use salamander_db.Db.Outcome.{length-stored, validate_request-some}
use salamander_db.Db.Took.{Took, not_taken, taken, append_events-Took}

-- The catalog that `open_internal` gives: the checkpoint's if it is of this head, or else rebuilt from the
-- log and kept.
unfoldable pub open_catalog :
    Crc32c
    → Id16
    → ℕ
    → Option Checkpoint
    → List (Result StoredRecord)
    → Result (StreamCatalog × Option Checkpoint)
open_catalog crc id at checkpoint items = elim (load_core_catalog id at checkpoint) [
  | some catalog ↦ ok (catalog, checkpoint)
  | none ↦ do
    catalog ← rebuild_streams crc items
    ok (catalog, some (record { database_id = id; head = at; catalog = catalog }))
]

-- No checkpoint is of a head to come, and one of the head of the log holds the catalog.
pub record IsCached {V : Type 0} (db : Db V) : Type 0 where
  pub behind : (c : Checkpoint) → db.checkpoint ≡ some c → c.head ≤ head db.log
  pub current :
      (c : Checkpoint) → db.checkpoint ≡ some c → c.head ≡ head db.log → c.catalog ≡ db.catalog

some-injective : {A : Type 0} {x y : A} → some x ≡ some y → x ≡ y
some-injective e = cc e

persist_core_catalog-IsCached :
    {V : Type 0} (at : ℕ) (db : Db V) → at ≡ head db.log → IsCached (persist_core_catalog at db)
unfolding persist_core_catalog
persist_core_catalog-IsCached at db h = record {
  behind = λ c e. ground (arith, h, ap (λ k. k.head) (some-injective e));
  current = λ c e here. ap (λ k. k.catalog) (sym (some-injective e));
}

commit-IsCached : {V : Type 0} (db : Db V) → IsCached (commit db)
unfolding commit
commit-IsCached db = persist_core_catalog-IsCached (head db.log) _ refl

give_answer-IsCached :
    {V : Type 0} (d : Durability) (receipt : AppendReceipt) (db : Db V)
    → IsCached db
    → IsCached (give_answer d receipt db).0
unfolding give_answer
give_answer-IsCached d receipt db h =
    elim (Bool-cases (is_sync d && not (is_synced receipt.durability))) [
      | inl t ↦ rw t (commit-IsCached db)
      | inr f ↦ rw f h
    ]

module _ {B V : Type 0} (request : AppendRequest B) (p : Prepared) (receipt : AppendReceipt) where
  closed-IsCached :
      (now : Bool) (db after : Db V)
      → IsCached db
      → head db.log < head after.log
      → after.checkpoint ≡ db.checkpoint
      → IsCached (closed request p receipt now after)
  unfolding commit recorded persist_core_catalog
  closed-IsCached true db after h more same =
      persist_core_catalog-IsCached (head after.log) (recorded request p receipt (commit after))
        refl
  closed-IsCached false db after h more same = record {
    behind = λ c e. let b = h.behind c (sym same ∙ e) in omega (arith, more, b);
    current =
        λ c e here. let b = h.behind c (sym same ∙ e) in absurd (omega (arith, more, b, here));
  }

module _ {B V : Type 0} (crc : Crc32c) (serialize : B → Result Bytes) (apply : Event B → V → V)
    (env : Env) (request : AppendRequest B) (supplied : Option Id16) (db : Db V)
    (cached : IsCached db) where
  finish_write-IsCached :
      (p : Prepared)
      → Planned crc serialize env request supplied db p
      → (r : Log × Result (ℕ × ℕ)) → Took db.log (length p.stored) r
      → IsCached (finish_write apply env request p db r).0
  unfolding settle appended
  finish_write-IsCached p planned (log, err e) (not_taken h) = record {
    behind = λ c e. let b = cached.behind c e in omega (arith, h, b);
    current = λ c e here. cached.current c e (here ∙ h);
  }
  finish_write-IsCached p planned (log, ok (first, last)) (taken h1 h2 h3) =
      closed-IsCached request p _
        (is_sync request.durability
          || should_commit db.policy (db.pending_bytes + total p.serialized)
              (db.pending_count + length request.events) env.elapsed)
        db (appended apply env request p first log db) cached
        (let some_events = validate_request-some request planned.valid in
          let as_many = length-stored crc serialize env request supplied db p planned in
          omega (arith, h2, some_events, as_many))
        refl

  finish-IsCached :
      (r : Result Plan)
      → plan_append crc serialize env request supplied db ≡ r
      → IsCached (finish apply crc env request db r).0
  finish-IsCached (err e) h = cached
  finish-IsCached (ok (answer receipt)) h =
      give_answer-IsCached request.durability receipt db cached
  finish-IsCached (ok (write p)) h =
      finish_write-IsCached p (plan_append-Planned crc serialize env request supplied db p h)
        (append_events crc p.stored db.log) (append_events-Took crc p.stored db.log)

  append_batch_with_id-IsCached :
      IsCached (append_batch_with_id apply crc serialize env request supplied db).0
  unfolding append_batch_with_id
  append_batch_with_id-IsCached =
      finish-IsCached (plan_append crc serialize env request supplied db) refl
