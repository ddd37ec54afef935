-- ===== src/Stream/Runs.antt =====
-- The catalog of salamander/src/stream.rs at concrete inputs.
use salamander_db.Prelude.{ℕ, ◌≡◌, refl, Option, none, some, [], ◌∷◌}
use salamander_db.Bytes.{Bytes, codes, is_utf8}
use salamander_db.Errors.{ok}
use salamander_db.Format.Types.{Id16, id_zero}
use salamander_db.Format.Metadata.{metadata_get}
use salamander_db.Format.Checksum.{mixing}
use salamander_db.Format.Runs.{sample}
use salamander_db.Branch.Maps.{map_get, map_insert}
use salamander_db.Stream.{
  StreamCatalog, AppendReceipt, buffered, revision, stream_id, batch_receipt, event_receipt,
  idempotent, record_batch,
}
use salamander_db.Stream.Keys.{pair_get, pair_insert}
use salamander_db.Stream.Rebuild.{
  stream_name, grown_entry, grown_receipt, event_fingerprint, rebuild_event, rebuild_events,
  rebuild_streams, empty_catalog,
}
use salamander_db.Stream.Receipts.{
  empty-HasReceipts, HasReceipts, record_batch_lem, event_receipt-rebuild_streams,
}

abbrev first_receipt : AppendReceipt
first_receipt = record {
  batch_id = 9 ∷ [];
  first_position = 4;
  last_position = 5;
  stream_id = 8 ∷ [];
  previous_revision = none;
  current_revision = 1;
  durability = buffered;
}

abbrev after_batch : StreamCatalog
after_batch =
    record_batch id_zero (codes "orders") (8 ∷ []) ((1 ∷ [], 77) ∷ (2 ∷ [], 78) ∷ [])
      (some (codes "key", 5)) first_receipt empty_catalog

record_batch_lem_example :
    HasReceipts after_batch.event_ids after_batch.receipts
    × (revision id_zero (codes "orders") after_batch ≡ some 1)
    × (stream_id id_zero (codes "orders") after_batch ≡ some (8 ∷ []))
    × (batch_receipt (9 ∷ []) after_batch ≡ some first_receipt)
    × ((k : Bytes) (digest : ℕ)
        → ◌≡◌ {A = Option (Bytes × ℕ)} (some (codes "key", 5)) (some (k, digest))
        → idempotent id_zero k after_batch ≡ some (digest, first_receipt))
record_batch_lem_example =
    record_batch_lem id_zero (codes "orders") (8 ∷ []) ((1 ∷ [], 77) ∷ (2 ∷ [], 78) ∷ [])
      (some (codes "key", 5)) first_receipt empty_catalog empty-HasReceipts

abbrev sample_catalog : StreamCatalog
sample_catalog = record {
  streams =
      ((id_zero, codes "s"), record { id = sample.envelope.stream_id; last_revision = 7 }) ∷ [];
  event_ids = (sample.envelope.event_id, (823628188, sample.envelope.batch_id)) ∷ [];
  idempotency = [];
  receipts =
      (
        sample.envelope.batch_id,
        record {
          batch_id = sample.envelope.batch_id;
          first_position = 300;
          last_position = 300;
          stream_id = sample.envelope.stream_id;
          previous_revision = some 6;
          current_revision = 7;
          durability = buffered;
        },
      )
      ∷ [];
}

rebuild-sample : rebuild_streams mixing (ok sample ∷ []) ≡ ok sample_catalog
unfolding rebuild_streams rebuild_events rebuild_event stream_name is_utf8 metadata_get grown_entry
    grown_receipt pair_get pair_insert map_get map_insert event_fingerprint
rebuild-sample = refl

sample_known :
    ◌≡◌ {A = Option (ℕ × Id16)}
      (map_get sample.envelope.event_id sample_catalog.event_ids)
      (some (823628188, sample.envelope.batch_id))
unfolding map_get
sample_known = refl

event_receipt-rebuild_streams_example :
    (r : AppendReceipt) × (event_receipt sample.envelope.event_id sample_catalog
      ≡ some (823628188, r))
    × (r.batch_id ≡ sample.envelope.batch_id)
event_receipt-rebuild_streams_example =
    event_receipt-rebuild_streams mixing (ok sample ∷ []) sample_catalog sample.envelope.event_id
      sample.envelope.batch_id 823628188 rebuild-sample sample_known
