-- ===== src/Index/Matching/Absent.antt =====
-- No filter matches an id that is not among the documents of a segment (src/index/filter.rs).
use openpuffer.Base.{String, ◌≡◌, refl, none, false, List, arith}
use openpuffer.Base.Maps.{get, keys, contains}
use openpuffer.Wal.Entry.{Docs}
use openpuffer.Json.{Value}
use openpuffer.Filter.Syntax.{
  CmpOp, eq, ne, gt, gte, lt, lte, Numbers, FilterValue, FilterExpr, every, some_of, cmp,
  FilterExprs, no_exprs, exprs,
}
use openpuffer.Index.Values.{Printing, value_key}
use openpuffer.Index.Postings.{
  posting, or_default, intersection, contains-intersection, contains-extend_ids,
}
use openpuffer.Index.FilterSegment.{
  FilterSegment, scan_keys, match_cmp, matching_doc_ids, intersect_all, union_all,
}
use openpuffer.Index.Indexed.{Indexes}
use openpuffer.Index.Matching.{contains-remove_all, contains-scan_keys_none}

module _ {N F : Type 0} (num : Numbers N F) (pr : Printing F) where
  module _ (fields : List String) (docs : Docs (Value N)) (seg : FilterSegment) where
    module _ (k : String) (i : Indexes num pr fields docs seg) (absent : get docs k ≡ none) where
      no_scan :
          (field : String) (op : CmpOp) (value : FilterValue F)
          → let m = or_default (get seg.postings field) in
            contains (scan_keys num pr m (keys m) op value) k ≡ false
      no_scan field op value =
          let m = or_default (get seg.postings field) in
          contains-scan_keys_none num pr m (keys m) op value k
            (λ vk. ground (arith, i.posted field vk k))

      no_match_cmp :
          (field : String) (op : CmpOp) (value : FilterValue F)
          → contains (match_cmp num pr seg field op value) k ≡ false
      unfolding match_cmp
      no_match_cmp field eq value = ground (arith, i.posted field (value_key num pr value) k)
      no_match_cmp field ne value = ground (
        arith,
        i.ids k,
        contains-remove_all seg.all_doc_ids (posting seg.postings field (value_key num pr value)) k,
      )
      no_match_cmp field gt value = no_scan field gt value
      no_match_cmp field gte value = no_scan field gte value
      no_match_cmp field lt value = no_scan field lt value
      no_match_cmp field lte value = no_scan field lte value

      mutual
        unfolding matching_doc_ids contains

        pub no_match : (e : FilterExpr F) → contains (matching_doc_ids num pr seg e) k ≡ false
        no_match (every no_exprs) = ground (arith, i.ids k)
        no_match (every (exprs e es)) = no_intersect (matching_doc_ids num pr seg e) es (no_match e)
        no_match (some_of es) = no_union es
        no_match (cmp field op value) = no_match_cmp field op value

        no_intersect :
            (acc : List String) (es : FilterExprs F)
            → contains acc k ≡ false
            → contains (intersect_all num pr seg acc es) k ≡ false
        no_intersect acc no_exprs h = h
        no_intersect acc (exprs e es) h =
            let next = matching_doc_ids num pr seg e in
            no_intersect (intersection acc next) es
              (ground (arith, contains-intersection acc next k))

        no_union : (es : FilterExprs F) → contains (union_all num pr seg es) k ≡ false
        no_union no_exprs = refl
        no_union (exprs e es) = ground (
          arith,
          contains-extend_ids (union_all num pr seg es) (matching_doc_ids num pr seg e) k,
          no_match e,
          no_union es,
        )
