-- ===== src/Lib.antt =====
-- openpuffer keeps the documents of a namespace in an object store: a write-ahead log, one metadata
-- object, a snapshot, and index segments. A server appends entries to the log under a compare-and-swap
-- of the metadata, an indexer follows the log, a compaction replaces the indexed part of the log by the
-- snapshot, and queries read a view of the documents that each server keeps and brings up to date.
--
-- The parts, each with the file that models it and the source that it translates:
-- - Base, Error, Json: native numbers, results, maps as association lists, the errors of the code, and
--   JSON values. A loop over a hash map takes the entries from the last to the first.
-- - Wal: src/wal.rs. Wal.Entry has the rows, Wal.Format the segments, Wal.Apply `apply_entry`,
--   Wal.Delta `collect_index_delta`; Wal.Batching says what joining requests does (src/buffer.rs).
--   `bincode`, `serde_json` and `crc32fast` are the parameters of Wal.Codec, with their laws.
-- - Meta: src/meta.rs, `meta_after_index_commit` of src/indexer.rs, and the metadata of a compaction.
--   The schema functions (src/schema.rs) are the interface `SchemaOps`.
-- - Scheduling: the lag and the ticks of src/indexer.rs, the decisions of src/wal_compaction.rs.
-- - Namespace: the objects of a namespace as a record `Store`; `append_wal` and the loads of
--   src/namespace.rs, `maybe_compact_wal` of src/wal_compaction.rs. What other servers do between two
--   requests of a loop is a function argument. A put of the metadata succeeds exactly if its condition
--   holds; failures of single requests and their retries are left out.
-- - View: src/view.rs, with the objects that src/s3_batch.rs fetches for its cold load, and
--   src/view_cache.rs.
-- - Filter: src/filter.rs; floating point numbers are the parameter `Numbers`.
-- - Schema: src/schema.rs, with the operations on text that it takes from the standard library; dates
--   and UUIDs are read and written by the parameter `Formats`.
-- - Index: the filter segment of src/index/filter.rs. Index.Indexed says what a segment holds,
--   Index.Matching compares its answers with the evaluation of filters. Index.FullText is the full-text
--   segment of src/index/fts.rs with the tokens of src/index/fts_tokenizer.rs; classes of characters,
--   normalization and stemming are its parameter `TextOps`. Its numbers wrap at 2^32 and 2^64.
-- - Search: the ids that a filter selects in src/search.rs, with the tail of the log that
--   src/index/fts.rs and src/s3_batch.rs give for it, and the order of the results, in Search.Order; the
--   scores are arguments.
-- - Buffer: the write buffer of src/buffer.rs. Buffer.State has the critical sections, Buffer.Steps the
--   writers, timers and the flush task as a step relation; a step is what happens between two awaits, or
--   between two locks of `arm_cooldown_flush_timer`, and a lock that is only tried may be taken. A writer
--   that is dropped between two of its awaits is left out.
-- - Storage: what `write_documents` of src/storage.rs hands to the buffer, in Storage.Writes, and the pages
--   of src/export.rs, in Storage.Export. What is read of the namespace is an argument.
-- - Request: the rows of a write request in `write_namespace` and `apply_column_batch` of src/api.rs, with
--   `validate_doc_id` of src/models.rs and the count of src/limits.rs.
-- - Cache: the disk cache of src/cache.rs. The answers of HEAD and GET and the outcomes of writes to the
--   disk are arguments. A read and a write of the files are steps, which Cache.Torn interleaves.
-- - Limits: names, path segments and the cap of filter batches of src/limits.rs.
-- - ListCache: src/namespace_list_cache.rs.
-- - Tests: concrete instances and inputs.
--
-- A `u64` is a native number: sequence numbers saturate as in the code (`saturating_add`), and theorems
-- that need it say that a sequence number is below 2^64 - 1. The loops over retries have the eight
-- rounds of `META_RETRIES`; a replay recurses on the number of its segments.
--
-- Not modelled: the vector index and the scores of queries, which compute with floating point numbers,
-- the other parts of the HTTP interface, configuration, metrics, the planning of the other batches of reads, the copying and
-- deleting of whole namespaces, and `flush_all` of the write buffer.
pub mod Base
pub mod Error
pub mod Index
pub mod Search
pub mod Buffer
pub mod Cache
pub mod Storage
pub mod Request
pub mod Schema
pub mod Json
pub mod Wal
pub mod Meta
pub mod Scheduling
pub mod Namespace
pub mod View
pub mod Filter
pub mod Limits
pub mod ListCache
pub mod Tests
