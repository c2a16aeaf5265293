-- ===== src/Meta/Fields.antt =====
-- The vector columns of a namespace (src/meta.rs): from the schema, and the legacy single column.
use openpuffer.Base.{
  ℕ, String, Option, none, some, Bool, false, List, [], ◌∷◌, ◌++◌, ◌||◌, ◌&&◌, text_eq,
}
use openpuffer.Base.Logic.{if◌then◌else◌, ◌==◌, ltb}
use openpuffer.Base.Lists.{length, take}
use openpuffer.Meta.Types.{
  VectorElement, VectorFieldConfig, NamespaceMeta, SchemaOps, max_vector_fields, f32,
}

abbrev pub first_field : List VectorFieldConfig → Option VectorFieldConfig
first_field [] = none
first_field (f ∷ fs) = some f

-- `unwrap_or`
abbrev pub unwrap_or : {A : Type 0} → Option A → A → A
unwrap_or none d = d
unwrap_or (some a) d = a

-- The slot that the loop of `hydrate_vector_fields_from_schema` finds.
unfoldable pub hydrate_slot : VectorFieldConfig → ℕ → VectorElement → VectorFieldConfig
hydrate_slot slot dims element =
    if slot.segment_id == 0
    then record slot { dimensions = dims; element = element }
    else record slot { element = element }

-- `iter_mut().find(|f| f.name == name)`: the first slot of the name, if any, is changed in place.
unfoldable pub hydrate_existing :
    List VectorFieldConfig → String → ℕ → VectorElement → Option (List VectorFieldConfig)
unfolding hydrate_slot
hydrate_existing [] name dims element = none
hydrate_existing (f ∷ fs) name dims element =
    let rest = hydrate_existing fs name dims element in
    if text_eq f.name name
    then some (hydrate_slot f dims element ∷ fs)
    else (elim rest [ none ↦ none | some fs' ↦ some (f ∷ fs') ])

unfoldable pub hydrate_name :
    List VectorFieldConfig → String → ℕ → VectorElement → List VectorFieldConfig
unfolding hydrate_existing
hydrate_name fields name dims element = elim (hydrate_existing fields name dims element) [
  | some fields' ↦ fields'
  | none ↦
      if ltb (length fields) max_vector_fields
      then fields
        ++ record {
          name = name;
          dimensions = dims;
          element = element;
          segment_id = 0;
          segment_ids = [];
        }
          ∷ []
      else fields
]

module _ {S : Type 0} (ops : SchemaOps S) where
  unfoldable pub hydrate_names : S → List VectorFieldConfig → List String → List VectorFieldConfig
  unfolding hydrate_name
  hydrate_names schema fields [] = fields
  hydrate_names schema fields (name ∷ names) =
      hydrate_names schema
        (hydrate_name fields name (unwrap_or (ops.vector_dimensions_for_field schema name) 0)
          (ops.vector_element_for_field schema name))
        names

  unfoldable pub hydrate_vector_fields_from_schema : NamespaceMeta S → NamespaceMeta S
  unfolding hydrate_names
  hydrate_vector_fields_from_schema meta = record meta {
    vector_fields =
        hydrate_names meta.schema meta.vector_fields
          (take max_vector_fields (ops.vector_fields_from_schema meta.schema));
  }

module _ {S : Type 0} where
  -- The branches of `sync_legacy_vector_fields`, on the first column.
  unfoldable pub sync_first : NamespaceMeta S → Option VectorFieldConfig → NamespaceMeta S
  sync_first meta (some first) = record meta {
    vector_field = first.name;
    dimensions = first.dimensions;
    vector_segment_id = first.segment_id;
    vector_segment_ids = first.segment_ids;
  }
  sync_first meta none =
      if text_eq meta.vector_field "" || meta.dimensions == 0
      then record meta {
        vector_field = "";
        dimensions = 0;
        vector_segment_id = 0;
        vector_segment_ids = [];
      }
      else meta

  unfoldable pub sync_legacy_vector_fields : NamespaceMeta S → NamespaceMeta S
  unfolding sync_first
  sync_legacy_vector_fields meta = sync_first meta (first_field meta.vector_fields)

  unfoldable pub effective_vector_fields : NamespaceMeta S → List VectorFieldConfig
  effective_vector_fields meta = elim (first_field meta.vector_fields) [
    | some _ ↦ meta.vector_fields
    | none ↦
        if text_eq meta.vector_field "" || meta.dimensions == 0
        then []
        else record {
          name = meta.vector_field;
          dimensions = meta.dimensions;
          element = f32;
          segment_id = meta.vector_segment_id;
          segment_ids = meta.vector_segment_ids;
        }
          ∷ []
  ]

  unfoldable pub vector_index_uses_legacy_paths : NamespaceMeta S → String → Bool
  vector_index_uses_legacy_paths meta field = elim (first_field meta.vector_fields) [
    | some _ ↦ false
    | none ↦ text_eq meta.vector_field field && ltb 0 meta.vector_segment_id
  ]
