-- ===== src/Tests/Commits.antt =====
-- The theorems on the metadata and on the schedule at concrete inputs.
use openpuffer.Base.{ℕ, ◌≡◌, ◌≤◌, ◌<◌, ◌+◌, refl, some, [], ◌∷◌, ◌++◌, arith}
use openpuffer.Base.Logic.{ok}
use openpuffer.Base.Lists.{All}
use openpuffer.Meta.Types.{
  NamespaceMeta, default_meta, euclidean_squared, u64_max, saturating_add, push_segment_id,
}
use openpuffer.Meta.Fields.{hydrate_vector_fields_from_schema, sync_legacy_vector_fields}
use openpuffer.Meta.Commit.{meta_after_wal_commit_options, meta_after_index_commit}
use openpuffer.Meta.Valid
use openpuffer.Meta.Valid.{IsValid, NotBehind, Reach, here, next, of_wal, of_index}
use openpuffer.Meta.Metric
use openpuffer.Meta.Chain
use openpuffer.Meta.Chain.{ChainsIncrease}
use openpuffer.Scheduling.Compaction.{wal_seqs_to_delete, wal_replay_from, wal_compact_keep}
use openpuffer.Scheduling.Bounds
use openpuffer.Tests.Fixtures.{test_schema_ops}

abbrev first_meta : NamespaceMeta ℕ
first_meta = record (default_meta test_schema_ops) {
  wal_commit_seq = 1;
  schema = 4;
  distance_metric = euclidean_squared;
}

abbrev indexed_meta : NamespaceMeta ℕ
indexed_meta = record first_meta {
  index_cursor = 1;
  fts_segment_id = 1;
  fts_segment_ids = 1 ∷ [];
  filter_segment_id = 1;
  filter_segment_ids = 1 ∷ [];
}

default-IsValid : IsValid (default_meta test_schema_ops)
default-IsValid = record { indexed = omega arith; compacted = omega arith; columns = omega arith }

first-IsValid : IsValid first_meta
first-IsValid = record { indexed = omega arith; compacted = omega arith; columns = omega arith }

first_commit :
    meta_after_wal_commit_options test_schema_ops
      (default_meta test_schema_ops)
      1
      (some 4)
      (some euclidean_squared)
    ≡ ok first_meta
unfolding meta_after_wal_commit_options hydrate_vector_fields_from_schema sync_legacy_vector_fields
first_commit = refl

index_commit : meta_after_index_commit first_meta 1 1 1 [] 2 ≡ ok indexed_meta
unfolding meta_after_index_commit sync_legacy_vector_fields push_segment_id
index_commit = refl

Reach-indexed : Reach test_schema_ops first_meta indexed_meta
Reach-indexed = next here (of_index 1 1 1 2 [] (omega arith) index_commit)

Reach-IsValid_example :
    IsValid indexed_meta
    × NotBehind test_schema_ops (default_meta test_schema_ops) indexed_meta
    × (1 ≤ u64_max)
Reach-IsValid_example =
    Valid.Reach-IsValid test_schema_ops (default_meta test_schema_ops)
      (next (next here (of_wal 1 (some 4) (some euclidean_squared) first_commit))
        (of_index 1 1 1 2 [] (omega arith) index_commit))
      (omega arith) default-IsValid

Reach-metric_example : indexed_meta.distance_metric ≡ euclidean_squared
Reach-metric_example =
    Metric.Reach-metric test_schema_ops first_meta Reach-indexed (omega arith) first-IsValid
      (omega arith)

index_commit-ChainsIncrease_example :
    ChainsIncrease indexed_meta
    × (indexed_meta.fts_segment_ids ≡ [] ++ 1 ∷ [])
    × (indexed_meta.filter_segment_ids ≡ [] ++ 1 ∷ [])
index_commit-ChainsIncrease_example =
    Chain.index_commit-ChainsIncrease first_meta indexed_meta 1 2 [] index_commit
      (record { fts = omega arith; filter = omega arith })

compaction_deletes_below_example :
    All (λ s. s < 13) (wal_seqs_to_delete 12 wal_compact_keep)
    × All (λ s. s + wal_compact_keep ≤ 12) (wal_seqs_to_delete 12 wal_compact_keep)
unfolding wal_replay_from saturating_add
compaction_deletes_below_example =
    Bounds.compaction_deletes_below (record first_meta { index_cursor = 12; wal_commit_seq = 14 })
      13 14 (omega arith) refl
