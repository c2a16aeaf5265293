-- ===== src/Meta/Types.antt =====
-- `NamespaceMeta` and its parts (src/meta.rs), and what the metadata asks of a schema.
use openpuffer.Base.{ℕ, ◌+◌, ◌-◌, ◌^◌, String, Option, some, none, List, [], ◌∷◌, ◌++◌, min}
use openpuffer.Base.Logic.{if◌then◌else◌, ◌==◌}
use openpuffer.Base.Lists.{last}
use openpuffer.Error.{Result}

abbrev pub u64_max : ℕ
u64_max = 2 ^ 64 - 1

-- `u64::saturating_add`
unfoldable pub saturating_add : ℕ → ℕ → ℕ
saturating_add a b = min (a + b) u64_max

abbrev pub max_vector_fields : ℕ
max_vector_fields = 2

abbrev pub ann_version_v2 : ℕ
ann_version_v2 = 2

abbrev pub ann_version_v3 : ℕ
ann_version_v3 = 3

pub data VectorElement : Type 0 where
  f32 f16 : VectorElement

pub data DistanceMetric : Type 0 where
  cosine_distance euclidean_squared : DistanceMetric

pub record VectorFieldConfig : Type 0 where
  pub name : String
  pub dimensions : ℕ
  pub element : VectorElement
  pub segment_id : ℕ
  pub segment_ids : List ℕ

-- The schema functions that the metadata uses (src/schema.rs, src/index/vector.rs).
pub record SchemaOps (S : Type 0) : Type 0 where
  pub empty_schema : S
  pub merge_schema : S → S → Result S
  pub vector_fields_from_schema : S → List String
  pub vector_dimensions_for_field : S → String → Option ℕ
  pub vector_element_for_field : S → String → VectorElement

pub record NamespaceMeta (S : Type 0) : Type 0 where
  pub index_cursor : ℕ
  pub fts_segment_id : ℕ
  pub fts_segment_ids : List ℕ
  pub vector_segment_id : ℕ
  pub vector_segment_ids : List ℕ
  pub filter_segment_id : ℕ
  pub filter_segment_ids : List ℕ
  pub vector_fields : List VectorFieldConfig
  pub vector_field : String
  pub dimensions : ℕ
  pub wal_commit_seq : ℕ
  pub wal_snapshot_seq : ℕ
  pub schema : S
  pub distance_metric : DistanceMetric
  pub preferred_ann_version : ℕ

-- `NamespaceMeta::default()`
abbrev pub default_meta : {S : Type 0} → SchemaOps S → NamespaceMeta S
default_meta ops = record {
  index_cursor = 0;
  fts_segment_id = 0;
  fts_segment_ids = [];
  vector_segment_id = 0;
  vector_segment_ids = [];
  filter_segment_id = 0;
  filter_segment_ids = [];
  vector_fields = [];
  vector_field = "";
  dimensions = 0;
  wal_commit_seq = 0;
  wal_snapshot_seq = 0;
  schema = ops.empty_schema;
  distance_metric = cosine_distance;
  preferred_ann_version = ann_version_v2;
}

-- The next sequence after a commit.
unfoldable pub next_wal_seq : {S : Type 0} → NamespaceMeta S → ℕ
unfolding saturating_add
next_wal_seq meta = saturating_add meta.wal_commit_seq 1

-- `if ids.last() != Some(&id) { ids.push(id); }`
unfoldable pub push_unless_last : List ℕ → Option ℕ → ℕ → List ℕ
push_unless_last ids none id = ids ++ id ∷ []
push_unless_last ids (some l) id = if l == id then ids else ids ++ id ∷ []

unfoldable pub push_segment_id : List ℕ → ℕ → List ℕ
unfolding push_unless_last
push_segment_id ids id = if id == 0 then ids else push_unless_last ids (last ids) id
