-- ===== src/Index/FilterSegment.antt =====
-- The filter segment of src/index/filter.rs: what it is built from, its deltas and its answers.
use openpuffer.Base.{ℕ, String, Option, none, some, List, [], ◌∷◌}
use openpuffer.Base.Logic.{if◌then◌else◌}
use openpuffer.Base.Lists.{is_empty}
use openpuffer.Base.Maps.{StrMap, get, keys, contains}
use openpuffer.Wal.Entry.{Document}
use openpuffer.Json.{Value}
use openpuffer.Filter.Syntax.{
  CmpOp, eq, ne, Numbers, FilterValue, FilterExpr, every, some_of, cmp, FilterExprs, no_exprs,
  exprs,
}
use openpuffer.Filter.Eval.{attr_to_filter_value}
use openpuffer.Schema.Specs.{filter_fields_from_schema}
use openpuffer.Index.Values.{Printing, value_key, parse_value_key, cmp_values}
use openpuffer.Index.Postings.{
  Postings, posting, or_default, add_id, extend_ids, remove_id, intersection, add_posting,
  remove_posting,
}

pub record FilterSegment : Type 0 where
  pub segment_id : ℕ
  pub all_doc_ids : List String
  pub postings : Postings

-- `for id in ids { set.remove(id); }`
unfoldable pub remove_all : List String → List String → List String
unfolding remove_id
remove_all set [] = set
remove_all set (id ∷ ids) = remove_all (remove_id set id) ids

unfoldable pub remove_document : FilterSegment → String → FilterSegment
unfolding remove_id remove_posting contains
remove_document seg doc_id =
    if contains seg.all_doc_ids doc_id
    then record seg {
      all_doc_ids = remove_id seg.all_doc_ids doc_id;
      postings = remove_posting seg.postings doc_id;
    }
    else seg

module _ {N F : Type 0} (num : Numbers N F) (pr : Printing F) where
  -- The key under which a document is posted in a field.
  abbrev pub field_key : Document (Value N) → String → Option String
  field_key doc field = elim (get doc.attributes field) [
    | none ↦ none
    | some v ↦ elim (attr_to_filter_value num v) [
      | none ↦ none
      | some fv ↦ some (value_key num pr fv)
    ]
  ]

  unfoldable pub add_fields : Postings → String → Document (Value N) → List String → Postings
  unfolding add_posting get attr_to_filter_value value_key
  add_fields ps doc_id doc [] = ps
  add_fields ps doc_id doc (field ∷ fields) = elim (field_key doc field) [
    | none ↦ add_fields ps doc_id doc fields
    | some vk ↦ add_fields (add_posting ps field vk doc_id) doc_id doc fields
  ]

  unfoldable pub add_document :
      FilterSegment → String → Document (Value N) → List String → FilterSegment
  unfolding add_id add_fields
  add_document seg doc_id doc fields = record seg {
    all_doc_ids = add_id seg.all_doc_ids doc_id;
    postings =
        add_fields seg.postings doc_id doc
          (if is_empty fields then keys doc.attributes else fields);
  }

  unfoldable pub add_documents :
      FilterSegment → List (String × Document (Value N)) → List String → FilterSegment
  unfolding add_document
  add_documents seg [] fields = seg
  add_documents seg ((id, doc) ∷ docs) fields =
      add_documents (add_document seg id doc fields) docs fields

  unfoldable pub build : ℕ → Value N → List (String × Document (Value N)) → FilterSegment
  unfolding add_documents filter_fields_from_schema
  build segment_id schema docs =
      add_documents (record { segment_id = segment_id; all_doc_ids = []; postings = [] }) docs
        (filter_fields_from_schema schema)

  unfoldable pub remove_documents : FilterSegment → List String → FilterSegment
  unfolding remove_document
  remove_documents seg [] = seg
  remove_documents seg (id ∷ ids) = remove_documents (remove_document seg id) ids

  unfoldable pub replace_documents :
      FilterSegment → List (String × Document (Value N)) → List String → FilterSegment
  unfolding remove_document add_document
  replace_documents seg [] fields = seg
  replace_documents seg ((id, doc) ∷ docs) fields =
      replace_documents (add_document (remove_document seg id) id doc fields) docs fields

  unfoldable pub apply_delta :
      FilterSegment → Value N → List (String × Document (Value N)) → List String → FilterSegment
  unfolding remove_documents replace_documents filter_fields_from_schema
  apply_delta seg schema upserts deletes =
      replace_documents (remove_documents seg deletes) upserts (filter_fields_from_schema schema)

  -- The ids under the keys that compare, key by key.
  unfoldable pub scan_keys :
      StrMap (List String) → List String → CmpOp → FilterValue F → List String
  unfolding get parse_value_key cmp_values extend_ids
  scan_keys m [] op value = []
  scan_keys m (vk ∷ vks) op value =
      let rest = scan_keys m vks op value in
      elim (parse_value_key num pr vk) [
        | none ↦ rest
        | some lhs ↦
            if cmp_values num pr lhs value op then extend_ids rest (or_default (get m vk)) else rest
      ]

  unfoldable pub match_cmp : FilterSegment → String → CmpOp → FilterValue F → List String
  unfolding get value_key remove_all scan_keys
  match_cmp seg field eq value = posting seg.postings field (value_key num pr value)
  match_cmp seg field ne value =
      remove_all seg.all_doc_ids (posting seg.postings field (value_key num pr value))
  match_cmp seg field op value =
      let m = or_default (get seg.postings field) in scan_keys m (keys m) op value

  unfoldable mutual
    unfolding match_cmp intersection extend_ids

    pub matching_doc_ids : FilterSegment → FilterExpr F → List String
    matching_doc_ids seg (every no_exprs) = seg.all_doc_ids
    matching_doc_ids seg (every (exprs e es)) = intersect_all seg (matching_doc_ids seg e) es
    matching_doc_ids seg (some_of subs) = union_all seg subs
    matching_doc_ids seg (cmp field op value) = match_cmp seg field op value

    pub intersect_all : FilterSegment → List String → FilterExprs F → List String
    intersect_all seg acc no_exprs = acc
    intersect_all seg acc (exprs e es) =
        intersect_all seg (intersection acc (matching_doc_ids seg e)) es

    pub union_all : FilterSegment → FilterExprs F → List String
    union_all seg no_exprs = []
    union_all seg (exprs e es) = extend_ids (union_all seg es) (matching_doc_ids seg e)
