-- ===== src/Meta/Valid.antt =====
-- The metadata over its life (src/meta.rs, src/indexer.rs, src/wal_compaction.rs): the cursors stay in
-- order and never go back, and there are at most two vector columns.
use openpuffer.Base.{ℕ, ◌≤◌, ◌<◌, ◌≡◌, String, Option, some, true, List, [], ◌∷◌, arith, inl, inr}
use openpuffer.Base.Logic.{ok, Bool-cases, Option-cases, Result-cases, ◌==◌, leb, ltb}
use openpuffer.Base.Lists.{length, take, length-append}
use openpuffer.Meta.Types.{
  u64_max, DistanceMetric, VectorElement, VectorFieldConfig, NamespaceMeta, SchemaOps,
  saturating_add, ann_version_v3, push_segment_id,
}
use openpuffer.Meta.Fields.{
  hydrate_existing, hydrate_name, hydrate_names, hydrate_vector_fields_from_schema,
  sync_legacy_vector_fields, unwrap_or,
}
use openpuffer.Meta.Commit.{
  resolve_distance_metric, patched_schema, meta_after_wal_commit_options, meta_after_index_commit,
  meta_after_compaction,
}
use openpuffer.Scheduling.Compaction.{needs_wal_compaction}

pub record IsValid {S : Type 0} (m : NamespaceMeta S) : Type 0 where
  pub indexed : m.index_cursor ≤ m.wal_commit_seq
  pub compacted : m.wal_snapshot_seq ≤ m.index_cursor
  pub columns : length m.vector_fields ≤ 2

length-hydrate_existing :
    (fs fs' : List VectorFieldConfig) (name : String) (dims : ℕ) (e : VectorElement)
    → hydrate_existing fs name dims e ≡ some fs'
    → length fs' ≡ length fs
unfolding hydrate_existing
length-hydrate_existing [] fs' name dims e h = cc
length-hydrate_existing (f ∷ fs) fs' name dims e h =
    elim (Option-cases (hydrate_existing fs name dims e)) [
      | inl n ↦ ground arith
      | inr (r, g) ↦ ground (arith, length-hydrate_existing fs r name dims e g)
    ]

length-hydrate_name :
    (fs : List VectorFieldConfig) (name : String) (dims : ℕ) (e : VectorElement)
    → length fs ≤ 2
    → length (hydrate_name fs name dims e) ≤ 2
unfolding hydrate_name
length-hydrate_name fs name dims e h = elim (Option-cases (hydrate_existing fs name dims e)) [
  | inl n ↦ ground (
    arith,
    length-append fs (
        record { name = name; dimensions = dims; element = e; segment_id = 0; segment_ids = [] }
        ∷ []),
  )
  | inr (r, g) ↦ ground (arith, length-hydrate_existing fs r name dims e g)
]

module _ {S : Type 0} where
  -- The fields that the synchronisation of the legacy column leaves alone.
  pub record SameCore (m n : NamespaceMeta S) : Type 0 where
    pub index_cursor : n.index_cursor ≡ m.index_cursor
    pub wal_commit_seq : n.wal_commit_seq ≡ m.wal_commit_seq
    pub wal_snapshot_seq : n.wal_snapshot_seq ≡ m.wal_snapshot_seq
    pub vector_fields : n.vector_fields ≡ m.vector_fields
    pub fts_segment_ids : n.fts_segment_ids ≡ m.fts_segment_ids
    pub filter_segment_ids : n.filter_segment_ids ≡ m.filter_segment_ids
    pub distance_metric : n.distance_metric ≡ m.distance_metric

  pub sync-SameCore : (m : NamespaceMeta S) → SameCore m (sync_legacy_vector_fields m)
  unfolding sync_legacy_vector_fields
  sync-SameCore m = ground arith

  -- What a commit of an indexer pass leaves in the metadata.
  pub index_commit_fields :
      (m n : NamespaceMeta S) (cursor fts filter version : ℕ) (fields : List VectorFieldConfig)
      → meta_after_index_commit m cursor fts filter fields version ≡ ok n
      → (cursor ≤ m.wal_commit_seq)
        × (m.index_cursor < cursor)
        × SameCore
            (record m {
              index_cursor = cursor;
              fts_segment_ids = push_segment_id m.fts_segment_ids fts;
              filter_segment_ids = push_segment_id m.filter_segment_ids filter;
              vector_fields = fields;
            })
            n
  unfolding meta_after_index_commit
  index_commit_fields m n cursor fts filter version fields h =
      let before = record m {
        index_cursor = cursor;
        fts_segment_id = fts;
        fts_segment_ids = push_segment_id m.fts_segment_ids fts;
        filter_segment_id = filter;
        filter_segment_ids = push_segment_id m.filter_segment_ids filter;
        vector_fields = fields;
      } in
      let core = sync-SameCore before in
      elim (Bool-cases (ltb m.wal_commit_seq cursor)) [
        | inl e ↦ absurd (ground arith)
        | inr e ↦ elim (Bool-cases (leb cursor m.index_cursor)) [
          | inl g ↦ absurd (ground arith)
          | inr g ↦ elim (Bool-cases (leb ann_version_v3 version)) [
            | inl v ↦
                let r : n
                    ≡ record (sync_legacy_vector_fields before) { preferred_ann_version = 3 } =
                  ground arith in
                (
                  ground arith,
                  ground arith,
                  rw r (record {
                    index_cursor = core.index_cursor;
                    wal_commit_seq = core.wal_commit_seq;
                    wal_snapshot_seq = core.wal_snapshot_seq;
                    vector_fields = core.vector_fields;
                    fts_segment_ids = core.fts_segment_ids;
                    filter_segment_ids = core.filter_segment_ids;
                    distance_metric = core.distance_metric;
                  }),
                )
            | inr v ↦
                let r : n ≡ sync_legacy_vector_fields before = ground arith in
                (
                  ground arith,
                  ground arith,
                  rw r (record {
                    index_cursor = core.index_cursor;
                    wal_commit_seq = core.wal_commit_seq;
                    wal_snapshot_seq = core.wal_snapshot_seq;
                    vector_fields = core.vector_fields;
                    fts_segment_ids = core.fts_segment_ids;
                    filter_segment_ids = core.filter_segment_ids;
                    distance_metric = core.distance_metric;
                  }),
                )
          ]
        ]
      ]

module _ {S : Type 0} (ops : SchemaOps S) where
  length-hydrate_names :
      (schema : S) (fs : List VectorFieldConfig) (names : List String)
      → length fs ≤ 2
      → length (hydrate_names ops schema fs names) ≤ 2
  unfolding hydrate_names
  length-hydrate_names schema fs [] h = h
  length-hydrate_names schema fs (name ∷ names) h =
      length-hydrate_names schema
        (hydrate_name fs name (unwrap_or (ops.vector_dimensions_for_field schema name) 0)
          (ops.vector_element_for_field schema name))
        names
        (length-hydrate_name fs name (unwrap_or (ops.vector_dimensions_for_field schema name) 0)
          (ops.vector_element_for_field schema name) h)

  -- What a commit of a log entry leaves in the metadata.
  pub wal_commit_fields :
      (m n : NamespaceMeta S) (seq : ℕ) (patch : Option S) (metric : Option DistanceMetric)
      → meta_after_wal_commit_options ops m seq patch metric ≡ ok n
      → (seq ≡ saturating_add m.wal_commit_seq 1)
        × (n.wal_commit_seq ≡ seq)
        × (n.index_cursor ≡ m.index_cursor)
        × (n.wal_snapshot_seq ≡ m.wal_snapshot_seq)
        × (resolve_distance_metric m metric ≡ ok n.distance_metric)
        × (length m.vector_fields ≤ 2 → length n.vector_fields ≤ 2)
  unfolding meta_after_wal_commit_options hydrate_vector_fields_from_schema
  wal_commit_fields m n seq patch metric h =
      elim (Bool-cases (seq == saturating_add m.wal_commit_seq 1)) [
        | inr e ↦ absurd (ground arith)
        | inl e ↦ elim (Result-cases (patched_schema ops m.schema patch)) [
          | inr (x, p) ↦ absurd (ground arith)
          | inl (schema, p) ↦ elim (Result-cases (resolve_distance_metric m metric)) [
            | inr (x, r) ↦ absurd (ground arith)
            | inl (d, r) ↦
                let before =
                  hydrate_vector_fields_from_schema ops
                    (record m { wal_commit_seq = seq; schema = schema }) in
                let core = sync-SameCore before in
                let keep =
                  length-hydrate_names schema m.vector_fields
                    (take 2 (ops.vector_fields_from_schema schema)) in
                let r' : n ≡ record (sync_legacy_vector_fields before) { distance_metric = d } =
                  ground arith in
                (
                  ground arith,
                  rw r' core.wal_commit_seq,
                  rw r' core.index_cursor,
                  rw r' core.wal_snapshot_seq,
                  rw r' r,
                  λ l. rw r' (rw (core.vector_fields) (keep l)),
                )
          ]
        ]
      ]

  -- One commit: of a log entry, of an indexer pass, or of a compaction.
  pub data Commit (m n : NamespaceMeta S) : Type 0 where
    of_wal :
        (seq : ℕ) (patch : Option S) (metric : Option DistanceMetric)
        → meta_after_wal_commit_options ops m seq patch metric ≡ ok n
        → Commit m n
    of_index :
        (cursor fts filter version : ℕ) (fields : List VectorFieldConfig)
        → length fields ≤ 2
        → meta_after_index_commit m cursor fts filter fields version ≡ ok n
        → Commit m n
    of_compaction : needs_wal_compaction m ≡ true → n ≡ meta_after_compaction m → Commit m n

  -- The cursors of `n` are not behind those of `m`.
  pub record NotBehind (m n : NamespaceMeta S) : Type 0 where
    pub index_cursor : m.index_cursor ≤ n.index_cursor
    pub wal_commit_seq : m.wal_commit_seq ≤ n.wal_commit_seq
    pub wal_snapshot_seq : m.wal_snapshot_seq ≤ n.wal_snapshot_seq

  Commit-IsValid :
      (m n : NamespaceMeta S)
      → Commit m n
      → m.wal_commit_seq ≤ u64_max
      → IsValid m
      → IsValid n × NotBehind m n × (n.wal_commit_seq ≤ u64_max)
  unfolding meta_after_index_commit meta_after_compaction needs_wal_compaction saturating_add
  Commit-IsValid m n (of_wal seq patch metric h) u v =
      let (a, b, c, d, _, f) = wal_commit_fields m n seq patch metric h in
      (
        record { indexed = omega arith; compacted = omega arith; columns = f v.columns },
        omega arith,
        omega arith,
      )
  Commit-IsValid m n (of_index cursor fts filter version fields l h) u v =
      let (a, b, core) = index_commit_fields m n cursor fts filter version fields h in
      let i = core.index_cursor in
      let w = core.wal_commit_seq in
      let s = core.wal_snapshot_seq in
      let f = core.vector_fields in
      (
        record { indexed = omega arith; compacted = omega arith; columns = rw f l },
        omega arith,
        omega arith,
      )
  Commit-IsValid m n (of_compaction needed h) u v = ground arith

  pub data Reach (m : NamespaceMeta S) : NamespaceMeta S → Type 0 where
    here : Reach m m
    next : {n o : NamespaceMeta S} → Reach m n → Commit n o → Reach m o

  -- Whatever is committed after valid metadata, in whatever order, the metadata stays valid, and the
  -- index cursor, the commit point and the snapshot point never go back.
  pub Reach-IsValid :
      (m : NamespaceMeta S) {n : NamespaceMeta S}
      → Reach m n
      → m.wal_commit_seq ≤ u64_max
      → IsValid m
      → IsValid n × NotBehind m n × (n.wal_commit_seq ≤ u64_max)
  Reach-IsValid m here u v = (v, omega arith, u)
  Reach-IsValid m (next {n = n} {o = o} r step) u v =
      let (vn, bn, un) = Reach-IsValid m r u v in
      let (vo, bo, uo) = Commit-IsValid n o step un vn in (vo, omega arith, uo)
