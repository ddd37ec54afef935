-- ===== src/Lib.antt =====
-- Salamander DB: an embedded event store whose only durable structure is an append-only log of
-- checksummed frames in segment files. This library models its core.
-- Paths are from the repository's root.
--
-- Parts, and where they are modelled.
--   salamander/src/error.rs            Errors: SalamanderError and its Result, with the ? operator.
--   salamander/src/format/mod.rs       Format: identifiers, envelopes, limits (Format/Types), the
--       metadata map (Format/Metadata), the byte cursor (Format/Cursor), encode_envelope and
--       decode_envelope (Format/Envelope), encode, decode and frame_total_len (Format/Frame).
--   salamander/src/log/record.rs       Log/Record: encode_kind, encode_enveloped, decode_owned.
--   salamander/src/log/segment.rs      Log/Batch (the control frames of a batch), Log/Scan
--       (scan_records, one definition for each arm of its loop) and Log/Segment (create,
--       append_enveloped, append_system, append_batch, open). Log/Segment/Appends makes the three
--       appends one operation and runs lists of them.
--   salamander/src/log/mod.rs, salamander/src/log/manifest.rs
--       Log/Store: Log::open_internal, the three appends with roll, head; Log/Store/Retain: the
--       retention floor. `run_log` in Log/Store/Appends runs a list of appends, `scan_all` in
--       Log/Store/History scans the files in order.
--   salamander/src/branch.rs           Branch (BranchName::new, BranchCatalog with insert, archive,
--       rebuild, ancestry) and Branch/Scopes (replay_scopes, divergence_of, divergence, common_ancestor).
--   salamander/src/stream.rs           Stream (names, keys, requests, receipts, StreamCatalog with its
--       lookups and record_batch) and Stream/Rebuild (its rebuild from the event records).
--   salamander/src/commit.rs           Commit: CommitPolicy and should_commit.
--   salamander/src/db.rs, salamander/src/event.rs
--       Db (the handle, commit, the checkpoint of the core catalog), Db/Digest (request_fingerprint,
--       derive_stream_id), Db/Plan (append_batch_with_id up to its first write), Db/Append (its
--       writes and answers; `close_steps` lists the steps of its end), Db/Cache (the catalog that
--       open_internal takes), Db/Cache/Reopened (calls in order), Db/Open (open_internal of a directory
--       without a retention anchor), Db/Crash (`interrupted` stops append_batch_with_id between two of
--       the steps of its end), Db/Branches (fork_branch, archive_branch, is_batch_boundary).
--       Db/Branches/Batches and Db/Branches/Boundary lay the batches of a log out as its records.
--       `forget` in Db/Recovery/Forget takes the durability out of the receipts of a catalog.
--   Prelude and Bytes hold what the parts share: tests on numbers, lists over the native numbers,
--   little-endian codes, slices, the order of byte strings, UTF-8 validity.
--
-- How the parts meet. A segment's append frames a record by Log/Record, which calls Format/Frame with
-- the default limits. Opening a segment scans its bytes frame by frame and truncates them to the valid
-- prefix. A log opens its active segment so and trusts the closed ones; an append rolls to a new
-- segment when the active one is full. The handle checks a request against its catalogs, gives the
-- batch to the log, its events to the views and the receipt to the stream catalog, and writes the
-- catalog beside the log when it commits. A branch catalog is rebuilt from the system records of the
-- log, a stream catalog from its events.
--
-- Conventions.
--   Bytes are a list of numbers, a String its UTF-8 bytes. A message of an error is its format string.
--   crc32c is a library of its own: a parameter `Crc32c`, a function into the numbers below 2^32 whose
--   appending form goes on where it stopped. That it detects damage is not assumed of it. The
--   tests use the instance `mixing`.
--   The clock and the generated ids are an argument `Env` of a call. bincode::serialize of an event's
--   body is a parameter `serialize`; a registered view is a value with its `apply`.
--   A directory is a value `Disk`: the segment files by their base and manifest.json as a `Manifest`.
--   serde_json::from_slice for branch metadata is a parameter `FromJson`, serde_json::to_vec a
--   parameter `to_json`. The records that the streaming reader gives are an argument.
--   Metadata, a BTreeMap, is the list of its entries in the order of their keys. The HashMaps of the
--   two catalogs are association lists.
--   Fields of frames have their widths. Positions and counts in memory are unbounded, and the
--   theorems on appends have the bound 2^64 as a hypothesis.
--
-- Fuel. The scan has one round for each byte and one more; a round that goes on takes at least the 32
-- bytes of a header. The loop of ancestry has 66 rounds; it returns an error once it holds 65 branches.
-- The loop of validate_depth is bounded in the source, by 64. Other loops are recursions on a list.
--
-- Not modelled. Operations of the file system, so a write goes to the end of the file and succeeds, and
-- a crash leaves a prefix of what was written or falls between two steps; names of files; locks; the
-- payload codecs; generated ids.
-- The index of the log, the streaming reader, the rest of the database handle (accessors, readers,
-- diffs, retention anchors, the registry of views), the retention plans, snapshots, migration, views,
-- agents, and the Python bindings.
pub mod Prelude
pub mod Errors
pub mod Bytes
pub mod Format
pub mod Log
pub mod Branch
pub mod Commit
pub mod Stream
pub mod Db
