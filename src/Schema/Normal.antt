-- ===== src/Schema/Normal.antt =====
-- Checks and normal forms of attributes (src/schema.rs): patches of vector fields, dates and UUIDs.
use openpuffer.Base.{String, Option, none, some, [], ◌∷◌}
use openpuffer.Base.Logic
use openpuffer.Base.Logic.{
  ok, err, ◌>>=◌, >>=-eq-ok, if◌then◌else◌, Option-cases, Result-cases, Bool-cases,
}
use openpuffer.Base.Maps.{StrMap}
use openpuffer.Json
use openpuffer.Json.{Value, Items, Fields, member}
use openpuffer.Schema.Text.{trim}
use openpuffer.Schema.Specs.{
  schema_member, field_is_vector_spec, field_is_datetime_scalar, field_is_uuid_scalar,
  field_is_uuid_array,
}

-- These functions return their message.
abbrev pub Checked : Type 0 → Type 0
Checked A = Logic.Result String A

-- The packages `uuid` and `time`: `Uuid::parse_str` with `hyphenated`, `OffsetDateTime::parse` for RFC
-- 3339, and `format` in UTC with nine digits of a second.
pub record Formats (D : Type 0) : Type 0 where
  pub parse_uuid : String → Option String
  pub parse_datetime : String → Option D
  pub format_datetime : D → Option String

module _ {N : Type 0} where
  unfoldable pub validate_patch_attributes : StrMap (Value N) → Value N → Checked (Unit {0})
  unfolding schema_member field_is_vector_spec
  validate_patch_attributes [] schema = ok tt
  validate_patch_attributes ((key, v) ∷ m) schema =
      let rest = validate_patch_attributes m schema in
      elim (schema_member schema key) [
        | none ↦ rest
        | some spec ↦ if field_is_vector_spec spec then err "cannot patch vector field" else rest
      ]

module _ {D : Type 0} (fm : Formats D) where
  unfoldable pub canonicalize_datetime_str : String → Checked String
  unfolding trim
  canonicalize_datetime_str raw = elim (fm.parse_datetime (trim raw)) [
    | none ↦ err "invalid datetime"
    | some dt ↦ elim (fm.format_datetime dt) [ none ↦ err "datetime format error" | some s ↦ ok s ]
  ]

  unfoldable pub canonicalize_uuid_str : String → Checked String
  unfolding trim
  canonicalize_uuid_str raw = elim (fm.parse_uuid (trim raw)) [
    | none ↦ err "invalid uuid"
    | some u ↦ ok u
  ]

module _ {N D : Type 0} (fm : Formats D) where
  unfoldable pub normalize_datetime_scalar_value : Value N → Checked (Value N)
  unfolding canonicalize_datetime_str
  normalize_datetime_scalar_value (Json.string s) =
      canonicalize_datetime_str fm s >>= λ t. ok (Json.string t)
  normalize_datetime_scalar_value _ = err "value must be an ISO8601/RFC3339 string"

  unfoldable pub normalize_uuid_scalar_value : Value N → Checked (Value N)
  unfolding canonicalize_uuid_str
  normalize_uuid_scalar_value (Json.string s) =
      canonicalize_uuid_str fm s >>= λ t. ok (Json.string t)
  normalize_uuid_scalar_value _ = err "value must be a string"

  unfoldable pub normalize_uuid_items : Items N → Checked (Items N)
  unfolding canonicalize_uuid_str
  normalize_uuid_items Json.nil = ok Json.nil
  normalize_uuid_items (Json.cons (Json.string s) vs) = canonicalize_uuid_str fm s >>= λ t.
      normalize_uuid_items vs >>= λ ws. ok (Json.cons (Json.string t) ws)
  normalize_uuid_items (Json.cons _ vs) = err "element must be a string"

  unfoldable pub normalize_uuid_array_value : Value N → Checked (Value N)
  unfolding normalize_uuid_items
  normalize_uuid_array_value (Json.array vs) = normalize_uuid_items vs >>= λ ws. ok (Json.array ws)
  normalize_uuid_array_value _ = err "value must be an array of uuid strings"

  -- One attribute, by its spec.
  unfoldable pub normalize_attribute : Option (Value N) → Value N → Checked (Value N)
  unfolding normalize_datetime_scalar_value normalize_uuid_scalar_value normalize_uuid_array_value
      field_is_datetime_scalar field_is_uuid_scalar field_is_uuid_array
  normalize_attribute none value = ok value
  normalize_attribute (some spec) value =
      if field_is_datetime_scalar spec
      then normalize_datetime_scalar_value value
      else if field_is_uuid_scalar spec
      then normalize_uuid_scalar_value value
      else if field_is_uuid_array spec
      then normalize_uuid_array_value value
      else ok value

  -- The attributes with their new values; a schema that is no object has no fields.
  unfoldable pub validate_and_normalize_document_attributes :
      StrMap (Value N) → Value N → Checked (StrMap (Value N))
  unfolding normalize_attribute schema_member
  validate_and_normalize_document_attributes [] schema = ok []
  validate_and_normalize_document_attributes ((key, value) ∷ m) schema =
      normalize_attribute (schema_member schema key) value >>= λ value'.
      validate_and_normalize_document_attributes m schema >>= λ m'. ok ((key, value') ∷ m')
