-- ===== src/Filter/Parse.antt =====
-- `FilterValue::from_json`, `parse_cmp_op` and `parse_filter` of src/filter.rs.
use openpuffer.Base.{String, none, some, ◌||◌, List, [], ◌∷◌, text_eq}
use openpuffer.Base.Logic.{ok, err, ◌>>=◌, ok_or, if◌then◌else◌}
use openpuffer.Error.{Result, message}
use openpuffer.Json
use openpuffer.Json.{Value, Items, Fields, as_str, as_array, elements}
use openpuffer.Filter.Syntax.{
  CmpOp, eq, ne, gt, gte, lt, lte, Numbers, FilterValue, text, float, truth, null_value, ref_new,
  FilterExpr, every, some_of, cmp, FilterExprs, no_exprs, exprs,
}

unfoldable pub parse_cmp_op : String → Result CmpOp
parse_cmp_op s =
    if text_eq s "Eq"
    then ok eq
    else if text_eq s "Ne"
    then ok ne
    else if text_eq s "Gt"
    then ok gt
    else if text_eq s "Gte"
    then ok gte
    else if text_eq s "Lt"
    then ok lt
    else if text_eq s "Lte"
    then ok lte
    else err (message "unsupported filter operator")

module _ {N F : Type 0} (num : Numbers N F) where
  -- The object case: one member, `$ref_new`, that is a string.
  unfoldable pub ref_new_from_json : Fields N → Result (FilterValue F)
  ref_new_from_json (Json.field name (Json.string f) Json.end) =
      if text_eq name "$ref_new"
      then ok (ref_new f)
      else err (message "filter value object must be a $ref_new")
  ref_new_from_json _ = err (message "filter value object must be a $ref_new")

  unfoldable pub from_json : Value N → Result (FilterValue F)
  unfolding ref_new_from_json
  from_json (Json.string s) = ok (text s)
  from_json (Json.bool b) = ok (truth b)
  from_json (Json.number n) = elim (num.as_f64 n) [
    | none ↦ err (message "filter number must be finite")
    | some x ↦ ok (float x)
  ]
  from_json Json.null = ok null_value
  from_json (Json.object m) = ref_new_from_json m
  from_json (Json.array vs) = err (message "filter value must be a scalar")

  unfoldable pub from_json_array : List (Value N) → Result (List (FilterValue F))
  unfolding from_json
  from_json_array [] = ok []
  from_json_array (v ∷ vs) = from_json v >>= λ x. from_json_array vs >>= λ xs. ok (x ∷ xs)

  -- `values.into_iter().map(|value| FilterExpr::Cmp { field, op: CmpOp::Eq, value }).collect()`
  unfoldable pub eq_each : String → List (FilterValue F) → FilterExprs F
  eq_each field [] = no_exprs
  eq_each field (v ∷ vs) = exprs (cmp field eq v) (eq_each field vs)

  unfoldable pub in_filter : String → List (FilterValue F) → Result (FilterExpr F)
  unfolding eq_each
  in_filter field [] = err (message "In filter value array cannot be empty")
  in_filter field (v ∷ vs) = ok (some_of (eq_each field (v ∷ vs)))

  -- A comparison, from the elements after the field.
  unfoldable pub parse_cmp : String → Items N → Result (FilterExpr F)
  unfolding from_json from_json_array in_filter parse_cmp_op
  parse_cmp field (Json.cons op (Json.cons value _)) =
      ok_or (as_str op) (message "filter operator must be a string") >>= λ op_str.
      if text_eq op_str "In"
      then (ok_or (as_array value) (message "In filter value must be an array") >>= λ arr.
          from_json_array arr >>= λ values. in_filter field values)
      else (parse_cmp_op op_str >>= λ o. from_json value >>= λ v. ok (cmp field o v))
  parse_cmp field _ = err (message "comparison filter needs [field, Op, value]")

  unfoldable mutual
    unfolding parse_cmp

    pub parse_filter : Value N → Result (FilterExpr F)
    parse_filter (Json.array (Json.cons (Json.string head) rest)) =
        if text_eq head "And" || text_eq head "and"
        then (parse_subs "And filter requires a sub-array at index 1" rest >>= λ subs.
            ok (every subs))
        else if text_eq head "Or" || text_eq head "or"
        then (parse_subs "Or filter requires a sub-array at index 1" rest >>= λ subs.
            ok (some_of subs))
        else parse_cmp head rest
    parse_filter (Json.array Json.nil) = err (message "filter array is empty")
    parse_filter (Json.array (Json.cons _ rest)) =
        err (message "filter[0] must be a string operator or field name")
    parse_filter _ = err (message "filter must be a JSON array")

    -- The sub-array at index 1.
    pub parse_subs : String → Items N → Result (FilterExprs F)
    parse_subs complaint (Json.cons (Json.array subs) _) = parse_all subs
    parse_subs complaint _ = err (message complaint)

    pub parse_all : Items N → Result (FilterExprs F)
    parse_all Json.nil = ok no_exprs
    parse_all (Json.cons v vs) = parse_filter v >>= λ e. parse_all vs >>= λ es. ok (exprs e es)
