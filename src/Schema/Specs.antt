-- ===== src/Schema/Specs.antt =====
-- What a field's spec says (src/schema.rs): its type, whether it is a vector, searched as text or
-- filtered on; and the fields of a schema that are (src/index/vector.rs, fts.rs, filter.rs).
use openpuffer.Base.{
  ℕ, String, Option, none, some, Bool, true, false, not, ◌||◌, List, [], ◌∷◌, text_eq,
}
use openpuffer.Base.Logic.{if◌then◌else◌}
use openpuffer.Base.Lists.{is_empty}
use openpuffer.Json
use openpuffer.Json.{Value, Fields, member, as_str, as_bool}
use openpuffer.Meta.Types.{VectorElement, f32, f16}
use openpuffer.Schema.Text.{
  to_ascii_lowercase, trim, has_text, split_once, parse_u32, strip_bracket,
}

unfoldable pub parse_vector_element : String → Option VectorElement
parse_vector_element elem =
    if text_eq elem "f32" then some f32 else if text_eq elem "f16" then some f16 else none

-- Dimensions before the bracket and the element type after it.
unfoldable pub vector_type_parts : Option (String × String) → Option (ℕ × VectorElement)
unfolding parse_u32 parse_vector_element to_ascii_lowercase
vector_type_parts none = none
vector_type_parts (some (dims_str, elem)) = elim (parse_u32 dims_str) [
  | none ↦ none
  | some dims ↦ elim (parse_vector_element (to_ascii_lowercase elem)) [
    | none ↦ none
    | some e ↦ some (dims, e)
  ]
]

unfoldable pub parse_vector_type_str : String → Option (ℕ × VectorElement)
unfolding vector_type_parts trim split_once
parse_vector_type_str s = elim (strip_bracket (trim s)) [
  | none ↦ none
  | some inner ↦ vector_type_parts (split_once inner "]")
]

unfoldable pub field_is_vector_type_str : String → Bool
field_is_vector_type_str t =
    has_text t "f32" || has_text t "f16" || has_text t "vector" || has_text t "[]f"

unfoldable pub scalar_type_filterable : String → Bool
scalar_type_filterable t =
    has_text t "string"
    || has_text t "bool"
    || has_text t "int"
    || has_text t "uint"
    || has_text t "float"
    || text_eq t "number"
    || text_eq t "uuid"
    || has_text t "datetime"

abbrev text_type : String → Bool
text_type t = has_text t "string" || has_text t "text" || text_eq t "full_text"

-- A flag of a spec, where it is a Boolean.
abbrev pub flag : Option Bool → Bool → Bool
flag none b = false
flag (some true) b = b
flag (some false) b = not b

module _ {N : Type 0} where
  -- `m.get(name).and_then(|v| v.as_bool())`, and the same for strings.
  abbrev pub bool_member : Fields N → String → Option Bool
  bool_member m name = elim (member m name) [ none ↦ none | some v ↦ as_bool v ]

  abbrev pub str_member : Fields N → String → Option String
  str_member m name = elim (member m name) [ none ↦ none | some v ↦ as_str v ]

  -- The shorthand, or the type of an object.
  abbrev pub spec_type : Value N → Option String
  spec_type (Json.string s) = some s
  spec_type (Json.object m) = str_member m "type"
  spec_type _ = none

  unfoldable pub parse_vector_type_spec : Value N → Option (ℕ × VectorElement)
  unfolding parse_vector_type_str
  parse_vector_type_spec spec = elim (spec_type spec) [
    | none ↦ none
    | some s ↦ parse_vector_type_str s
  ]

  unfoldable pub field_is_vector_spec : Value N → Bool
  unfolding field_is_vector_type_str to_ascii_lowercase
  field_is_vector_spec spec = elim (spec_type spec) [
    | none ↦ false
    | some t ↦ field_is_vector_type_str (to_ascii_lowercase t)
  ]

  unfoldable pub field_full_text_search : Value N → Bool
  unfolding to_ascii_lowercase
  field_full_text_search (Json.object m) =
      if flag (bool_member m "full_text_search") true
      then true
      else (elim (str_member m "type") [ none ↦ false | some t ↦ text_type (to_ascii_lowercase t) ])
  field_full_text_search (Json.string s) = text_type (to_ascii_lowercase s)
  field_full_text_search _ = false

  unfoldable pub field_filterable : Value N → Bool
  unfolding field_is_vector_spec field_full_text_search scalar_type_filterable
  field_filterable (Json.object m) =
      if flag (bool_member m "filterable") false
      then false
      else if flag (bool_member m "filterable") true
      then true
      else if field_is_vector_spec (Json.object m)
      then false
      else if field_full_text_search (Json.object m)
      then true
      else (elim (str_member m "type") [
        | none ↦ false
        | some t ↦ scalar_type_filterable (to_ascii_lowercase t)
      ])
  field_filterable (Json.string s) =
      let t = to_ascii_lowercase s in
      if field_is_vector_type_str t then false else scalar_type_filterable t
  field_filterable _ = false

  unfoldable pub field_type_name : Value N → Option String
  unfolding trim to_ascii_lowercase
  field_type_name spec = elim (spec_type spec) [
    | none ↦ none
    | some t ↦ some (to_ascii_lowercase (trim t))
  ]

  abbrev has_type_name : Value N → String → Bool
  has_type_name spec name = elim (field_type_name spec) [ none ↦ false | some t ↦ text_eq t name ]

  unfoldable pub field_is_datetime_scalar : Value N → Bool
  unfolding field_type_name
  field_is_datetime_scalar spec = has_type_name spec "datetime"

  unfoldable pub field_is_uuid_scalar : Value N → Bool
  unfolding field_type_name
  field_is_uuid_scalar spec = has_type_name spec "uuid"

  unfoldable pub field_is_uuid_array : Value N → Bool
  unfolding field_type_name
  field_is_uuid_array spec = has_type_name spec "[]uuid"

  -- The names of the members that a test on specs accepts, in order.
  unfoldable pub names_where : (Value N → Bool) → Fields N → List String
  names_where keep Json.end = []
  names_where keep (Json.field name spec m) =
      let rest = names_where keep m in if keep spec then name ∷ rest else rest

  abbrev pub schema_names_where : (Value N → Bool) → Value N → List String
  schema_names_where keep (Json.object m) = names_where keep m
  schema_names_where keep _ = []

  unfoldable pub vector_fields_from_schema : Value N → List String
  unfolding names_where field_is_vector_spec
  vector_fields_from_schema schema = schema_names_where field_is_vector_spec schema

  unfoldable pub filter_fields_from_schema : Value N → List String
  unfolding names_where field_filterable
  filter_fields_from_schema schema = schema_names_where field_filterable schema

  abbrev searched : Value N → Bool
  searched (Json.object m) = flag (bool_member m "full_text_search") true
  searched _ = false

  -- Only the fields that say so, if there is one; else those of a text type.
  unfoldable pub index_fields_from_schema : Value N → List String
  unfolding names_where field_full_text_search
  index_fields_from_schema schema =
      let explicit = schema_names_where searched schema in
      if is_empty explicit then schema_names_where field_full_text_search schema else explicit

  unfoldable pub schema_member : Value N → String → Option (Value N)
  unfolding member
  schema_member (Json.object m) name = member m name
  schema_member _ name = none

  unfoldable pub vector_element_for_field : Value N → String → VectorElement
  unfolding schema_member parse_vector_type_spec
  vector_element_for_field schema name = elim (schema_member schema name) [
    | none ↦ f32
    | some spec ↦ elim (parse_vector_type_spec spec) [ none ↦ f32 | some (d, e) ↦ e ]
  ]

  unfoldable pub vector_dimensions_for_field : Value N → String → Option ℕ
  unfolding schema_member parse_vector_type_spec
  vector_dimensions_for_field schema name = elim (schema_member schema name) [
    | none ↦ none
    | some spec ↦ elim (parse_vector_type_spec spec) [ none ↦ none | some (d, e) ↦ some d ]
  ]
