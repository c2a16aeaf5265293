-- ===== src/Schema/Merge.antt =====
-- The merge of a schema patch (src/schema.rs, `merge_schema`), and the schema functions that the
-- metadata takes.
use openpuffer.Base.{
  String, ◌≡◌, ◌≤◌, refl, Option, none, arith, text_eq, eq_iff, inl, inr, ◌⊎◌, ◌<◌,
}
use openpuffer.Base.Logic.{ok, err, if◌then◌else◌, ltb, Bool-cases}
use openpuffer.Base.Lists.{length}
use openpuffer.Base.Maps.{or_else}
use openpuffer.Error.{Result, message}
use openpuffer.Json
use openpuffer.Json.{Value, Fields, member, without, set_member}
use openpuffer.Meta.Types.{SchemaOps, max_vector_fields}
use openpuffer.Schema.Specs.{
  schema_member, vector_fields_from_schema, vector_dimensions_for_field, vector_element_for_field,
}

module _ {N : Type 0} where
  -- `for (name, spec) in patch_obj { out.insert(name.clone(), spec.clone()); }`; the names of an object
  -- differ.
  unfoldable pub set_members : Fields N → Fields N → Fields N
  unfolding set_member
  set_members out Json.end = out
  set_members out (Json.field name spec m) = set_member (set_members out m) name spec

  abbrev pub object_or_empty : Value N → Fields N
  object_or_empty (Json.object m) = m
  object_or_empty _ = Json.end

  unfoldable pub checked_schema : Value N → Result (Value N)
  unfolding vector_fields_from_schema
  checked_schema merged =
      if ltb max_vector_fields (length (vector_fields_from_schema merged))
      then err (message "too many vector fields")
      else ok merged

  unfoldable pub merge_schema : Value N → Value N → Result (Value N)
  unfolding set_members checked_schema
  merge_schema existing (Json.object patch) =
      checked_schema (Json.object (set_members (object_or_empty existing) patch))
  merge_schema existing _ = ok existing

  member-without :
      (m : Fields N) (k j : String)
      → member (without m k) j ≡ (if text_eq k j then none else member m j)
  unfolding member without
  member-without Json.end k j = ground arith
  member-without (Json.field i v m) k j =
      ground (arith, member-without m k j, eq_iff i k, eq_iff i j, eq_iff k j)

  member-set_members :
      (out patch : Fields N) (k : String)
      → member (set_members out patch) k ≡ or_else (member patch k) (member out k)
  unfolding set_members set_member member
  member-set_members out Json.end k = refl
  member-set_members out (Json.field name spec m) k =
      ground (arith, member-without (set_members out m) name k, member-set_members out m k)

  abbrev pub patch_members : Value N → String → Option (Value N)
  patch_members (Json.object patch) k = member patch k
  patch_members _ k = none

  member-object_or_empty :
      (v : Value N) (k : String) → member (object_or_empty v) k ≡ schema_member v k
  unfolding member schema_member
  member-object_or_empty Json.null k = refl
  member-object_or_empty (Json.bool b) k = refl
  member-object_or_empty (Json.number n) k = refl
  member-object_or_empty (Json.string s) k = refl
  member-object_or_empty (Json.array vs) k = refl
  member-object_or_empty (Json.object m) k = refl

  -- A merge of an object succeeds exactly if the merged schema has at most two vector fields, and then each
  -- field is the one of the patch, or else the one that was there.
  pub merge_schema_outcome :
      (existing : Value N) (patch : Fields N)
      → ((merged : Value N) × (merge_schema existing (Json.object patch) ≡ ok merged)
          × (length (vector_fields_from_schema merged) ≤ max_vector_fields)
          × ((k : String)
              → schema_member merged k ≡ or_else (member patch k) (schema_member existing k)))
        ⊎ ((merge_schema existing (Json.object patch) ≡ err (message "too many vector fields"))
            × (max_vector_fields
                < length (
                    vector_fields_from_schema
                      (Json.object (set_members (object_or_empty existing) patch)))))
  unfolding merge_schema schema_member checked_schema
  merge_schema_outcome existing patch =
      let merged = Json.object (set_members (object_or_empty existing) patch) in
      elim (Bool-cases (ltb max_vector_fields (length (vector_fields_from_schema merged)))) [
        | inl many ↦ inr (ground arith, ground arith)
        | inr few ↦ inl (
          merged,
          ground arith,
          ground arith,
          λ k. ground (
            arith,
            member-set_members (object_or_empty existing) patch k,
            member-object_or_empty existing k,
          ),
        )
      ]

  -- The functions that the metadata takes.
  abbrev pub schema_ops : SchemaOps (Value N)
  schema_ops = record {
    empty_schema = Json.object Json.end;
    merge_schema = merge_schema;
    vector_fields_from_schema = vector_fields_from_schema;
    vector_dimensions_for_field = vector_dimensions_for_field;
    vector_element_for_field = vector_element_for_field;
  }
