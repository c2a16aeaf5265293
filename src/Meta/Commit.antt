-- ===== src/Meta/Commit.antt =====
-- The metadata of the next commit: of a log entry (src/meta.rs), of an indexer pass (src/indexer.rs)
-- and of a compaction (src/wal_compaction.rs).
use openpuffer.Base.{ℕ, String, Option, none, some, Bool, true, false, List, text_eq}
use openpuffer.Base.Logic.{ok, err, ◌>>=◌, if◌then◌else◌, ◌==◌, ltb, leb}
use openpuffer.Error.{Result, message}
use openpuffer.Meta.Types.{
  DistanceMetric, cosine_distance, euclidean_squared, VectorFieldConfig, NamespaceMeta, SchemaOps,
  saturating_add, push_segment_id, ann_version_v3,
}
use openpuffer.Meta.Fields.{hydrate_vector_fields_from_schema, sync_legacy_vector_fields}

unfoldable pub parse_distance_metric : String → Result DistanceMetric
parse_distance_metric s =
    if text_eq s "cosine_distance"
    then ok cosine_distance
    else if text_eq s "euclidean_squared"
    then ok euclidean_squared
    else err (message "invalid distance_metric")

unfoldable pub same_metric : DistanceMetric → DistanceMetric → Bool
same_metric cosine_distance cosine_distance = true
same_metric euclidean_squared euclidean_squared = true
same_metric _ _ = false

module _ {S : Type 0} where
  -- Set on the first commit, enforced from then on.
  unfoldable pub resolve_distance_metric :
      NamespaceMeta S → Option DistanceMetric → Result DistanceMetric
  unfolding same_metric
  resolve_distance_metric meta none = ok meta.distance_metric
  resolve_distance_metric meta (some m) =
      if meta.wal_commit_seq == 0
      then ok m
      else if same_metric m meta.distance_metric
      then ok meta.distance_metric
      else err (message "distance_metric conflicts with namespace")

  -- `schema_patch` merged into the schema, if there is one.
  unfoldable pub patched_schema : SchemaOps S → S → Option S → Result S
  patched_schema ops schema none = ok schema
  patched_schema ops schema (some patch) = ops.merge_schema schema patch

  unfoldable pub meta_after_wal_commit_options :
      SchemaOps S
      → NamespaceMeta S
      → ℕ
      → Option S
      → Option DistanceMetric
      → Result (NamespaceMeta S)
  unfolding patched_schema resolve_distance_metric saturating_add
  meta_after_wal_commit_options ops meta seq schema_patch distance_metric =
      if seq == saturating_add meta.wal_commit_seq 1
      then (do
        schema ← patched_schema ops meta.schema schema_patch
        let next = sync_legacy_vector_fields (
            hydrate_vector_fields_from_schema ops
              (record meta { wal_commit_seq = seq; schema = schema }))
        metric ← resolve_distance_metric meta distance_metric
        ok (record next { distance_metric = metric }))
      else err (message "wal seq does not follow commit point")

  unfoldable pub meta_after_wal_commit_with_schema :
      SchemaOps S → NamespaceMeta S → ℕ → Option S → Result (NamespaceMeta S)
  unfolding meta_after_wal_commit_options
  meta_after_wal_commit_with_schema ops meta seq schema_patch =
      meta_after_wal_commit_options ops meta seq schema_patch none

  unfoldable pub meta_after_wal_commit :
      SchemaOps S → NamespaceMeta S → ℕ → Result (NamespaceMeta S)
  unfolding meta_after_wal_commit_with_schema
  meta_after_wal_commit ops meta seq = meta_after_wal_commit_with_schema ops meta seq none

  -- src/indexer.rs
  unfoldable pub meta_after_index_commit :
      NamespaceMeta S → ℕ → ℕ → ℕ → List VectorFieldConfig → ℕ → Result (NamespaceMeta S)
  meta_after_index_commit meta index_cursor fts_segment_id filter_segment_id vector_fields version =
      if ltb meta.wal_commit_seq index_cursor
      then err (message "index_cursor past wal_commit_seq")
      else if leb index_cursor meta.index_cursor
      then err (message "index_cursor does not advance")
      else let next = sync_legacy_vector_fields (record meta {
        index_cursor = index_cursor;
        fts_segment_id = fts_segment_id;
        fts_segment_ids = push_segment_id meta.fts_segment_ids fts_segment_id;
        filter_segment_id = filter_segment_id;
        filter_segment_ids = push_segment_id meta.filter_segment_ids filter_segment_id;
        vector_fields = vector_fields;
      }) in
        ok (
          if leb ann_version_v3 version
          then record next { preferred_ann_version = ann_version_v3 }
          else next)

  -- `next_meta.wal_snapshot_seq = cursor` in src/wal_compaction.rs.
  unfoldable pub meta_after_compaction : NamespaceMeta S → NamespaceMeta S
  meta_after_compaction meta = record meta { wal_snapshot_seq = meta.index_cursor }
