-- ===== src/Index/Matching.antt =====
-- The answers of the filter segment (src/index/filter.rs, `matching_doc_ids`) against the evaluation
-- of filters on documents (src/filter.rs, `eval_filter`).
pub mod Absent
pub mod Present
pub mod Exact
use openpuffer.Base.{
  String, ◌≡◌, ◌⊎◌, refl, Option, none, some, Bool, true, false, not, ◌||◌, ◌&&◌, List, [], ◌∷◌,
  arith, text_eq, eq_iff, inl, inr, ◌∙◌,
}
use openpuffer.Base.Logic.{Option-cases, text_eq_refl}
use openpuffer.Base.Lists.{is_empty}
use openpuffer.Base.Maps.{StrMap, is_some, get, keys, contains}
use openpuffer.Wal.Entry.{Document, Docs}
use openpuffer.Json
use openpuffer.Json.{Value}
use openpuffer.Filter.Syntax.{
  CmpOp, eq, ne, gt, gte, lt, lte, Numbers, FilterValue, text, float, truth, null_value, ref_new,
  FilterExpr, every, some_of, cmp, FilterExprs, no_exprs, exprs,
}
use openpuffer.Filter.Eval.{
  attr_to_filter_value, doc_field_value, compare_values, eval_op, same_value,
}
use openpuffer.Index.Values.{
  Printing, value_key, parse_value_key, key_order, cmp_values, is_scalar, parse_value_key-value_key,
  same_key,
}
use openpuffer.Index.Postings.{
  posting, or_default, remove_id, intersection, contains-remove_id, contains-intersection,
  contains-extend_ids,
}
use openpuffer.Index.FilterSegment.{
  FilterSegment, remove_all, field_key, scan_keys, match_cmp, matching_doc_ids, intersect_all,
  union_all,
}
use openpuffer.Index.Indexed.{Indexes, contains-keys}

contains-remove_all :
    (set ids : List String) (k : String)
    → contains (remove_all set ids) k ≡ (contains set k && not (contains ids k))
unfolding remove_all contains
contains-remove_all set [] k = ground arith
contains-remove_all set (id ∷ ids) k =
    ground (arith, contains-remove_all (remove_id set id) ids k, contains-remove_id set id k)

contains-is_some :
    (o : Option (List String)) (k : String) → contains (or_default o) k ≡ true → is_some o ≡ true
unfolding contains
contains-is_some none k h = absurd (ground arith)
contains-is_some (some ids) k h = refl

abbrev pub is_range : CmpOp → Bool
is_range eq = false
is_range ne = false
is_range _ = true

module _ {N F : Type 0} (num : Numbers N F) (pr : Printing F) where
  -- A key reads back as a value that compares.
  abbrev pub key_compares : String → CmpOp → FilterValue F → Bool
  key_compares vk op value = elim (parse_value_key num pr vk) [
    | none ↦ false
    | some lhs ↦ cmp_values num pr lhs value op
  ]

  contains-scan_keys_none :
      (m : StrMap (List String)) (vks : List String) (op : CmpOp) (value : FilterValue F)
      (k : String)
      → ((vk : String) → contains (or_default (get m vk)) k ≡ false)
      → contains (scan_keys num pr m vks op value) k ≡ false
  unfolding scan_keys contains
  contains-scan_keys_none m [] op value k h = refl
  contains-scan_keys_none m (vk ∷ vks) op value k h =
      let rest = scan_keys num pr m vks op value in
      let step = contains-extend_ids rest (or_default (get m vk)) k in
      elim (Option-cases (parse_value_key num pr vk)) [
        | inl e ↦ ground (arith, contains-scan_keys_none m vks op value k h)
        | inr (lhs, e) ↦ ground (arith, contains-scan_keys_none m vks op value k h, h vk)
      ]

  contains-scan_keys :
      (m : StrMap (List String)) (vks : List String) (op : CmpOp) (value : FilterValue F)
      (k key : String)
      → ((vk : String) → contains (or_default (get m vk)) k ≡ text_eq key vk)
      → contains (scan_keys num pr m vks op value) k
        ≡ (contains vks key && key_compares key op value)
  unfolding scan_keys contains
  contains-scan_keys m [] op value k key h = refl
  contains-scan_keys m (vk ∷ vks) op value k key h =
      let rest = scan_keys num pr m vks op value in
      let step = contains-extend_ids rest (or_default (get m vk)) k in
      elim (Option-cases (parse_value_key num pr vk)) [
        | inl e ↦
            ground (arith, contains-scan_keys m vks op value k key h, eq_iff key vk, eq_iff vk key)
        | inr (lhs, e) ↦
            ground
              (arith, contains-scan_keys m vks op value k key h, h vk, eq_iff key vk, eq_iff vk key)
      ]

  -- A number and a Boolean: the evaluation compares them as numbers, the segment does not.
  abbrev pub mixed : Option (FilterValue F) → FilterValue F → Bool
  mixed (some (float x)) (truth b) = true
  mixed (some (truth b)) (float x) = true
  mixed _ _ = false

  -- Where a comparison of an indexed field means the same to the segment and to the evaluation: the
  -- value is no null and no reference, numbers are equal exactly if they are written the same, and no
  -- order of a number and a Boolean is asked for.
  pub record CmpFits (fields : List String) (doc : Document (Value N)) (field : String) (op : CmpOp)
      (value : FilterValue F) : Type 0 where
    pub not_id : text_eq field "id" ≡ false
    pub indexed : is_empty fields || contains fields field ≡ true
    pub scalar : is_scalar num pr value ≡ true
    pub written :
        (x y : F)
        → value ≡ float y
        → num.float_eq x y ≡ text_eq (pr.print_float x) (pr.print_float y)
    pub kind : is_range op ≡ true → mixed (doc_field_value num doc field) value ≡ false

  op_eq_none :
      (value : FilterValue F)
      → is_scalar num pr value ≡ true
      → eval_op num eq none (some value) ≡ false
  unfolding eval_op
  op_eq_none (text s) h = refl
  op_eq_none (float x) h = refl
  op_eq_none (truth b) h = refl
  op_eq_none null_value h = absurd (ground arith)
  op_eq_none (ref_new f) h = absurd (ground arith)

  op_ne_none :
      (value : FilterValue F)
      → is_scalar num pr value ≡ true
      → eval_op num ne none (some value) ≡ true
  unfolding eval_op
  op_ne_none (text s) h = refl
  op_ne_none (float x) h = refl
  op_ne_none (truth b) h = refl
  op_ne_none null_value h = absurd (ground arith)
  op_ne_none (ref_new f) h = absurd (ground arith)

  op_eq :
      (v value : FilterValue F)
      → is_scalar num pr value ≡ true
      → eval_op num eq (some v) (some value) ≡ same_value num v value
  unfolding eval_op
  op_eq v (text s) h = refl
  op_eq v (float x) h = refl
  op_eq v (truth b) h = refl
  op_eq v null_value h = absurd (ground arith)
  op_eq v (ref_new f) h = absurd (ground arith)

  op_ne :
      (v value : FilterValue F)
      → is_scalar num pr value ≡ true
      → eval_op num ne (some v) (some value) ≡ not (same_value num v value)
  unfolding eval_op
  op_ne v (text s) h = refl
  op_ne v (float x) h = refl
  op_ne v (truth b) h = refl
  op_ne v null_value h = absurd (ground arith)
  op_ne v (ref_new f) h = absurd (ground arith)

  same_order :
      (v value : FilterValue F)
      → mixed (some v) value ≡ false
      → compare_values num v value ≡ key_order num pr v value
  unfolding compare_values key_order
  same_order (text s) (text t) h = refl
  same_order (text s) (float y) h = refl
  same_order (text s) (truth b) h = refl
  same_order (text s) null_value h = refl
  same_order (text s) (ref_new f) h = refl
  same_order (float x) (text t) h = refl
  same_order (float x) (float y) h = refl
  same_order (float x) (truth b) h = absurd (ground arith)
  same_order (float x) null_value h = refl
  same_order (float x) (ref_new f) h = refl
  same_order (truth a) (text t) h = refl
  same_order (truth a) (float y) h = absurd (ground arith)
  same_order (truth a) (truth b) h = refl
  same_order (truth a) null_value h = refl
  same_order (truth a) (ref_new f) h = refl
  same_order null_value value h = refl
  same_order (ref_new f) value h = refl

  op_range_none :
      (op : CmpOp) (value : FilterValue F)
      → is_range op ≡ true
      → eval_op num op none (some value) ≡ false
  unfolding eval_op
  op_range_none eq value r = absurd (ground arith)
  op_range_none ne value r = absurd (ground arith)
  op_range_none gt value r = refl
  op_range_none gte value r = refl
  op_range_none lt value r = refl
  op_range_none lte value r = refl

  op_range :
      (op : CmpOp) (v value : FilterValue F)
      → is_range op ≡ true
      → mixed (some v) value ≡ false
      → eval_op num op (some v) (some value) ≡ cmp_values num pr v value op
  unfolding eval_op cmp_values
  op_range eq v value r h = absurd (ground arith)
  op_range ne v value r h = absurd (ground arith)
  op_range gt v value r h = rw (same_order v value h) refl
  op_range gte v value r h = rw (same_order v value h) refl
  op_range lt v value r h = rw (same_order v value h) refl
  op_range lte v value r h = rw (same_order v value h) refl

  -- Every value of an attribute has a key.
  attribute_scalar :
      (v : Value N) (fv : FilterValue F)
      → attr_to_filter_value num v ≡ some fv
      → is_scalar num pr fv ≡ true
  unfolding attr_to_filter_value
  attribute_scalar (Json.string s) fv h = ground arith
  attribute_scalar (Json.bool b) fv h = ground arith
  attribute_scalar (Json.number n) fv h = elim (Option-cases (num.as_f64 n)) [
    | inl e ↦ absurd (ground arith)
    | inr (x, e) ↦ ground arith
  ]
  attribute_scalar Json.null fv h = absurd (ground arith)
  attribute_scalar (Json.array vs) fv h = absurd (ground arith)
  attribute_scalar (Json.object m) fv h = absurd (ground arith)

  -- An attribute without a key has no value, and one with a key has the value of the key.
  field_value :
      (doc : Document (Value N)) (field : String)
      → text_eq field "id" ≡ false
      → ((field_key num pr doc field ≡ none) × (doc_field_value num doc field ≡ none))
        ⊎ ((fv : FilterValue F) × (field_key num pr doc field ≡ some (value_key num pr fv))
            × (doc_field_value num doc field ≡ some fv)
            × (is_scalar num pr fv ≡ true))
  unfolding doc_field_value
  field_value doc field h = elim (Option-cases (get doc.attributes field)) [
    | inl e ↦ inl (ground arith, ground arith)
    | inr (v, e) ↦ elim (Option-cases (attr_to_filter_value num v)) [
      | inl f ↦ inl (ground arith, ground arith)
      | inr (fv, f) ↦ inr (fv, ground arith, ground arith, attribute_scalar v fv f)
    ]
  ]
