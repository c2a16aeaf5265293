-- ===== src/Tests/Stores.antt =====
-- The theorems on the objects of a namespace (src/namespace.rs, src/wal_compaction.rs) at concrete
-- inputs.
use openpuffer.Base.{ℕ, ◌≡◌, refl, none, some, false, [], ◌∷◌, ◌++◌, arith}
use openpuffer.Base.Logic.{ok, err, ltb, if◌then◌else◌, ◌==◌}
use openpuffer.Base.Maps.{SameMap, insert}
use openpuffer.Error.{message}
use openpuffer.Wal.Entry.{Docs, Bytes}
use openpuffer.Wal.Apply.{
  apply_entry, into_documents, patch_documents, patch_all, upsert_all, delete_all,
}
use openpuffer.Scheduling.Compaction.{wal_replay_from}
use openpuffer.Wal.Format.{
  decode_segment_with_policy, from_le_bytes, WalCorruptPolicy, encode, to_le_bytes,
}
use openpuffer.Meta.Types.{NamespaceMeta, default_meta, euclidean_squared}
use openpuffer.Meta.Fields.{hydrate_vector_fields_from_schema, sync_legacy_vector_fields}
use openpuffer.Meta.Commit.{meta_after_wal_commit_options}
use openpuffer.Meta.Valid.{IsValid}
use openpuffer.Namespace.Store.{Store, put_wal, put_meta, from_docs}
use openpuffer.Namespace.Append.{Append, read_attempt, begin_attempt, finish_attempt, append_wal}
use openpuffer.Namespace.Load.{
  replay_wal_range, replay_count, replay_one, load_docs_at_wal_commit, maybe_compact_wal,
  read_wal_entry,
}
use openpuffer.Namespace.Commit
use openpuffer.Namespace.Race
use openpuffer.Namespace.History
use openpuffer.Namespace.Durable
use openpuffer.Tests.Fixtures.{
  test_codec, test_schema_ops, upsert_entry, delete_entry, upsert_bytes, delete_bytes,
}

abbrev empty_store : Store ℕ ℕ
empty_store = record { meta = none; etag = 0; wal = λ _. none; snapshot = none }

abbrev append_five : Append ℕ
append_five = record {
  entry = upsert_entry 5;
  schema_patch = some 4;
  distance_metric = some euclidean_squared;
}

abbrev append_delete : Append ℕ
append_delete = record { entry = delete_entry; schema_patch = none; distance_metric = none }

abbrev five_segment : Bytes
five_segment = 1 ∷ (upsert_bytes 5 ++ 5 ∷ 0 ∷ 0 ∷ 0 ∷ [])

abbrev delete_segment : Bytes
delete_segment = 1 ∷ (delete_bytes ++ 0 ∷ 0 ∷ 0 ∷ 0 ∷ [])

abbrev meta_five : NamespaceMeta ℕ
meta_five = record (default_meta test_schema_ops) {
  wal_commit_seq = 1;
  schema = 4;
  distance_metric = euclidean_squared;
}

abbrev meta_delete : NamespaceMeta ℕ
meta_delete = record (default_meta test_schema_ops) { wal_commit_seq = 1 }

encode_five : encode test_codec (upsert_entry 5) ≡ ok five_segment
unfolding encode to_le_bytes
encode_five = refl

encode_delete : encode test_codec delete_entry ≡ ok delete_segment
unfolding encode to_le_bytes
encode_delete = refl

meta_of_five :
    Commit.next_meta test_codec test_schema_ops append_five
      (read_attempt test_codec test_schema_ops empty_store)
    ≡ ok meta_five
unfolding meta_after_wal_commit_options hydrate_vector_fields_from_schema sync_legacy_vector_fields
    read_attempt
meta_of_five = refl

meta_of_delete :
    Commit.next_meta test_codec test_schema_ops append_delete
      (read_attempt test_codec test_schema_ops empty_store)
    ≡ ok meta_delete
unfolding meta_after_wal_commit_options hydrate_vector_fields_from_schema sync_legacy_vector_fields
    read_attempt
meta_of_delete = refl

appended :
    append_wal test_codec test_schema_ops (λ _ x. x) empty_store append_five
    ≡ (ok 1, put_meta (put_wal empty_store 1 five_segment) meta_five)
unfolding read_attempt
appended =
    Commit.append_wal_undisturbed test_codec test_schema_ops empty_store append_five five_segment
      meta_five encode_five meta_of_five

append_wal_alone_example :
    (s' : Store ℕ ℕ) × (append_wal test_codec test_schema_ops (λ _ x. x) empty_store append_five
      ≡ (ok 1, s'))
    × (s'.wal 1 ≡ some five_segment)
    × ((k : ℕ) → 1 == k ≡ false → s'.wal k ≡ empty_store.wal k)
    × (s'.snapshot ≡ empty_store.snapshot)
    × (s'.meta ≡ some meta_five)
    × (meta_five.wal_commit_seq ≡ 1)
    × (meta_five.index_cursor ≡ 0)
    × (meta_five.wal_snapshot_seq ≡ 0)
unfolding read_attempt
append_wal_alone_example =
    Commit.append_wal_alone test_codec test_schema_ops empty_store append_five five_segment
      meta_five encode_five meta_of_five (omega arith)

append_wal-Committed_example :
    Commit.Committed test_codec test_schema_ops
      (put_meta (put_wal empty_store 1 five_segment) meta_five)
      1
unfolding read_attempt
append_wal-Committed_example =
    Commit.append_wal-Committed test_codec test_schema_ops (λ _ x. x) empty_store
      (put_meta (put_wal empty_store 1 five_segment) meta_five) append_five 1 appended

append_wal_loses_segment_example :
    (s1 s2 s3 : Store ℕ ℕ) × (begin_attempt test_codec test_schema_ops empty_store append_five
      ≡ (ok (read_attempt test_codec test_schema_ops empty_store), s1))
    × (append_wal test_codec test_schema_ops (λ _ x. x) s1 append_delete ≡ (ok 1, s2))
    × (finish_attempt test_codec test_schema_ops s2 append_five
          (read_attempt test_codec test_schema_ops empty_store)
          (some (λ s. (ok 9, s)))
        ≡ (ok 9, s3))
    × Commit.Committed test_codec test_schema_ops s3 1
    × (read_wal_entry test_codec s3 1 ≡ err (message "object not found"))
unfolding read_attempt
append_wal_loses_segment_example =
    Race.append_wal_loses_segment test_codec test_schema_ops empty_store append_five append_delete
      five_segment delete_segment meta_five meta_delete (λ s. (ok 9, s)) encode_five encode_delete
      meta_of_five meta_of_delete

-- Eleven segments that all upsert the same document, and an index that has them all.
abbrev eleven_meta : NamespaceMeta ℕ
eleven_meta = record meta_five { wal_commit_seq = 11; index_cursor = 11 }

abbrev eleven : Store ℕ ℕ
eleven = record {
  meta = some eleven_meta;
  etag = 20;
  wal = λ seq. if ltb seq 12 then some five_segment else none;
  snapshot = none;
}

abbrev doc_five : Docs ℕ
doc_five = ("a", record { id = "a"; attributes = ("n", 5) ∷ [] }) ∷ []

eleven-IsValid : IsValid eleven_meta
eleven-IsValid = record { indexed = omega arith; compacted = omega arith; columns = omega arith }

eleven_load :
    load_docs_at_wal_commit test_codec eleven WalCorruptPolicy.fail eleven_meta ≡ ok (doc_five, 11)
unfolding load_docs_at_wal_commit wal_replay_from replay_wal_range replay_count replay_one
    decode_segment_with_policy from_le_bytes apply_entry into_documents patch_documents patch_all
    upsert_all insert delete_all
eleven_load = refl

maybe_compact_wal-SameMap_example :
    (s' : Store ℕ ℕ) × (meta' : NamespaceMeta ℕ) × (docs' : Docs ℕ) × (maybe_compact_wal test_codec
        WalCorruptPolicy.fail
        (λ _ x. x)
        eleven
      ≡ (ok tt, s'))
    × (s'.meta ≡ some meta')
    × (load_docs_at_wal_commit test_codec s' WalCorruptPolicy.fail meta' ≡ ok (docs', 11))
    × SameMap docs' doc_five
maybe_compact_wal-SameMap_example =
    Durable.maybe_compact_wal-SameMap test_codec eleven WalCorruptPolicy.fail eleven_meta doc_five
      refl eleven-IsValid refl (omega arith) eleven_load

load_docs_at_wal_commit-at_commit_example :
    load_docs_at_wal_commit test_codec eleven WalCorruptPolicy.fail eleven_meta
    ≡ History.loaded 11 (History.at_commit test_codec eleven WalCorruptPolicy.fail eleven_meta 11)
load_docs_at_wal_commit-at_commit_example =
    History.load_docs_at_wal_commit-at_commit test_codec eleven WalCorruptPolicy.fail eleven_meta
      (omega arith) (omega arith)

-- After a compaction at 11 the segments up to 8 are gone.
abbrev later_meta : NamespaceMeta ℕ
later_meta = record eleven_meta { wal_commit_seq = 12; index_cursor = 12; wal_snapshot_seq = 11 }

abbrev later : Store ℕ ℕ
later = record {
  meta = some later_meta;
  etag = 23;
  wal = λ seq. if ltb seq 9 then none else some five_segment;
  snapshot =
      some (record { seq = 11; docs = record { id = "a"; attributes = ("n", 5) ∷ [] } ∷ [] });
}

compact_window-load_example :
    load_docs_at_wal_commit test_codec
      (record later { snapshot = some (from_docs 12 doc_five) })
      WalCorruptPolicy.fail
      later_meta
    ≡ err (message "object not found")
compact_window-load_example =
    Durable.compact_window-load test_codec later WalCorruptPolicy.fail later_meta doc_five
      (omega arith) (omega arith) (omega arith) (omega arith) refl
