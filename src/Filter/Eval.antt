-- ===== src/Filter/Eval.antt =====
-- Evaluation of filters on documents (src/filter.rs).
use openpuffer.Base.{String, Option, none, some, Bool, true, false, ◌||◌, ◌&&◌, not, text_eq}
use openpuffer.Base.Logic.{if◌then◌else◌}
use openpuffer.Base.Maps.{get}
use openpuffer.Wal.Entry.{Document}
use openpuffer.Json
use openpuffer.Json.{Value}
use openpuffer.Filter.Syntax.{
  CmpOp, eq, ne, gt, gte, lt, lte, Order, less, equal, greater, Numbers, FilterValue, text, float,
  truth, null_value, ref_new, FilterExpr, every, some_of, cmp, FilterExprs, no_exprs, exprs,
}

unfoldable pub bool_cmp : Bool → Bool → Order
bool_cmp true false = greater
bool_cmp false true = less
bool_cmp _ _ = equal

module _ {N F : Type 0} (num : Numbers N F) where
  unfoldable pub attr_to_filter_value : Value N → Option (FilterValue F)
  attr_to_filter_value (Json.string s) = some (text s)
  attr_to_filter_value (Json.bool b) = some (truth b)
  attr_to_filter_value (Json.number n) = elim (num.as_f64 n) [
    | none ↦ none
    | some x ↦ some (float x)
  ]
  attr_to_filter_value _ = none

  unfoldable pub doc_field_value : Document (Value N) → String → Option (FilterValue F)
  unfolding attr_to_filter_value
  doc_field_value doc field =
      if text_eq field "id"
      then some (text doc.id)
      else (elim (get doc.attributes field) [ none ↦ none | some attr ↦ attr_to_filter_value attr ])

  -- `resolve_rhs`: the incoming row, if there is one, and whether references are null.
  unfoldable pub resolve_rhs :
      FilterValue F → Option (Document (Value N)) → Bool → Option (FilterValue F)
  unfolding doc_field_value
  resolve_rhs (ref_new field) new_doc ref_new_null =
      if ref_new_null
      then some null_value
      else (elim new_doc [ none ↦ none | some new ↦ doc_field_value new field ])
  resolve_rhs other new_doc ref_new_null = some other

  -- The derived `PartialEq` of `FilterValue`.
  unfoldable pub same_value : FilterValue F → FilterValue F → Bool
  same_value (text a) (text b) = text_eq a b
  same_value (float a) (float b) = num.float_eq a b
  same_value (truth true) (truth b) = b
  same_value (truth false) (truth b) = not b
  same_value null_value null_value = true
  same_value (ref_new a) (ref_new b) = text_eq a b
  same_value _ _ = false

  abbrev pub bool_float : Bool → F
  bool_float b = if b then num.one_float else num.zero_float

  unfoldable pub compare_values : FilterValue F → FilterValue F → Option Order
  unfolding bool_cmp
  compare_values (float a) (float b) = num.partial_cmp a b
  compare_values (text a) (text b) = some (num.text_cmp a b)
  compare_values (truth a) (truth b) = some (bool_cmp a b)
  compare_values (float a) (truth b) = num.partial_cmp a (bool_float b)
  compare_values (truth a) (float b) = num.partial_cmp (bool_float a) b
  compare_values _ _ = none

  unfoldable pub eval_eq : Option (FilterValue F) → Option (FilterValue F) → Bool
  unfolding same_value
  eval_eq none (some null_value) = true
  eval_eq none _ = false
  eval_eq (some l) (some null_value) = false
  eval_eq (some l) (some r) = same_value l r
  eval_eq (some l) none = false

  unfoldable pub eval_ne : Option (FilterValue F) → Option (FilterValue F) → Bool
  unfolding same_value
  eval_ne none (some null_value) = false
  eval_ne none _ = true
  eval_ne (some l) (some null_value) = true
  eval_ne (some l) (some r) = not (same_value l r)
  eval_ne (some l) none = false

  -- The comparison of both sides, where both are there and can be compared.
  unfoldable pub ordered : Option (FilterValue F) → Option (FilterValue F) → Option Order
  unfolding compare_values
  ordered (some l) (some r) = compare_values l r
  ordered _ _ = none

  abbrev pub is_greater : Option Order → Bool
  is_greater (some greater) = true
  is_greater _ = false

  abbrev pub is_less : Option Order → Bool
  is_less (some less) = true
  is_less _ = false

  abbrev pub is_equal : Option Order → Bool
  is_equal (some equal) = true
  is_equal _ = false

  unfoldable pub eval_op : CmpOp → Option (FilterValue F) → Option (FilterValue F) → Bool
  unfolding eval_eq eval_ne ordered
  eval_op eq lhs rhs = eval_eq lhs rhs
  eval_op ne lhs rhs = eval_ne lhs rhs
  eval_op gt lhs rhs = is_greater (ordered lhs rhs)
  eval_op gte lhs rhs = is_greater (ordered lhs rhs) || is_equal (ordered lhs rhs)
  eval_op lt lhs rhs = is_less (ordered lhs rhs)
  eval_op lte lhs rhs = is_less (ordered lhs rhs) || is_equal (ordered lhs rhs)

  unfoldable pub eval_cmp :
      Document (Value N)
      → String
      → CmpOp
      → FilterValue F
      → Option (Document (Value N))
      → Bool
      → Bool
  unfolding eval_op doc_field_value resolve_rhs
  eval_cmp doc field op rhs new_doc ref_new_null =
      eval_op op (doc_field_value doc field) (resolve_rhs rhs new_doc ref_new_null)

  unfoldable mutual
    unfolding eval_cmp

    pub eval_filter_with_new :
        FilterExpr F → Document (Value N) → Option (Document (Value N)) → Bool → Bool
    eval_filter_with_new (every subs) doc new_doc null_refs = eval_all subs doc new_doc null_refs
    eval_filter_with_new (some_of subs) doc new_doc null_refs = eval_any subs doc new_doc null_refs
    eval_filter_with_new (cmp field op value) doc new_doc null_refs =
        eval_cmp doc field op value new_doc null_refs

    pub eval_all : FilterExprs F → Document (Value N) → Option (Document (Value N)) → Bool → Bool
    eval_all no_exprs doc new_doc null_refs = true
    eval_all (exprs e es) doc new_doc null_refs =
        eval_filter_with_new e doc new_doc null_refs && eval_all es doc new_doc null_refs

    pub eval_any : FilterExprs F → Document (Value N) → Option (Document (Value N)) → Bool → Bool
    eval_any no_exprs doc new_doc null_refs = false
    eval_any (exprs e es) doc new_doc null_refs =
        eval_filter_with_new e doc new_doc null_refs || eval_any es doc new_doc null_refs

  unfoldable pub eval_filter : FilterExpr F → Document (Value N) → Bool
  unfolding eval_filter_with_new
  eval_filter expr doc = eval_filter_with_new expr doc none false

  unfoldable pub should_apply_upsert :
      FilterExpr F → Option (Document (Value N)) → Document (Value N) → Bool
  unfolding eval_filter_with_new
  should_apply_upsert expr none new = true
  should_apply_upsert expr (some doc) new = eval_filter_with_new expr doc (some new) false

  unfoldable pub should_apply_patch :
      FilterExpr F → Option (Document (Value N)) → Document (Value N) → Bool
  unfolding eval_filter_with_new
  should_apply_patch expr none patch = false
  should_apply_patch expr (some doc) patch = eval_filter_with_new expr doc (some patch) false

  unfoldable pub should_apply_delete : FilterExpr F → Option (Document (Value N)) → Bool
  unfolding eval_filter_with_new
  should_apply_delete expr none = false
  should_apply_delete expr (some doc) = eval_filter_with_new expr doc none true
