-- ===== src/Index/Matching/Present.antt =====
-- A comparison, as the segment answers it for a document that it holds (src/index/filter.rs).
use openpuffer.Base.{String, ◌≡◌, refl, some, true, List, arith, inl, inr, ◌∙◌}
use openpuffer.Base.Logic.{text_eq_refl}
use openpuffer.Base.Maps.{get, keys, contains}
use openpuffer.Wal.Entry.{Document, Docs}
use openpuffer.Json.{Value}
use openpuffer.Filter.Syntax.{CmpOp, eq, ne, gt, gte, lt, lte, Numbers, FilterValue}
use openpuffer.Filter.Eval.{doc_field_value, eval_op}
use openpuffer.Index.Values.{Printing, value_key, cmp_values, parse_value_key-value_key, same_key}
use openpuffer.Index.Postings.{posting, or_default}
use openpuffer.Index.FilterSegment.{FilterSegment, scan_keys, match_cmp}
use openpuffer.Index.Indexed.{Indexes, contains-keys}
use openpuffer.Index.Matching.{
  contains-remove_all, contains-is_some, is_range, key_compares, contains-scan_keys_none,
  contains-scan_keys, CmpFits, op_eq_none, op_ne_none, op_eq, op_ne, op_range_none, op_range,
  field_value,
}

module _ {N F : Type 0} (num : Numbers N F) (pr : Printing F) where
  module _ (fields : List String) (docs : Docs (Value N)) (seg : FilterSegment) where
    module _ (k : String) (doc : Document (Value N)) (i : Indexes num pr fields docs seg)
        (found : get docs k ≡ some doc)
        (law : (x : F) → pr.parse_float (pr.print_float x) ≡ some x) where
      match_posting :
          (field : String) (op : CmpOp) (value : FilterValue F)
          → CmpFits num pr fields doc field op value
          → contains (posting seg.postings field (value_key num pr value)) k
            ≡ eval_op num eq (doc_field_value num doc field) (some value)
      match_posting field op value fit = elim (field_value num pr doc field fit.not_id) [
        | inl (e, f) ↦ ground (
          arith,
          op_eq_none num pr value fit.scalar,
          fit.indexed,
          i.posted field (value_key num pr value) k,
        )
        | inr (fv, e, f, s) ↦ ground (
          arith,
          op_eq num pr fv value fit.scalar,
          same_key num pr fv value s fit.scalar fit.written,
          fit.indexed,
          i.posted field (value_key num pr value) k,
        )
      ]

      match_ne :
          (field : String) (value : FilterValue F)
          → CmpFits num pr fields doc field ne value
          → contains (match_cmp num pr seg field ne value) k
            ≡ eval_op num ne (doc_field_value num doc field) (some value)
      unfolding match_cmp
      match_ne field value fit =
          let ids = posting seg.postings field (value_key num pr value) in
          let others = contains-remove_all seg.all_doc_ids ids k in
          let same = match_posting field ne value fit in
          elim (field_value num pr doc field fit.not_id) [
            | inl (e, f) ↦ ground (
              arith,
              op_eq_none num pr value fit.scalar,
              op_ne_none num pr value fit.scalar,
              i.ids k,
            )
            | inr (fv, e, f, s) ↦
                ground (
                  arith,
                  op_eq num pr fv value fit.scalar,
                  op_ne num pr fv value fit.scalar,
                  i.ids k,
                )
          ]

      match_scan :
          (field : String) (op : CmpOp) (value : FilterValue F)
          → is_range op ≡ true
          → CmpFits num pr fields doc field op value
          → let m = or_default (get seg.postings field) in
            contains (scan_keys num pr m (keys m) op value) k
            ≡ eval_op num op (doc_field_value num doc field) (some value)
      match_scan field op value r fit =
          let m = or_default (get seg.postings field) in
          elim (field_value num pr doc field fit.not_id) [
            | inl (e, f) ↦ ground (
              arith,
              op_range_none num pr op value r,
              contains-scan_keys_none num pr m (keys m) op value k
                  (λ vk. ground (arith, i.posted field vk k)),
            )
            | inr (fv, e, f, s) ↦
                let key = value_key num pr fv in
                let listed : contains (or_default (get m key)) k ≡ true =
                  ground (arith, fit.indexed, i.posted field key k, text_eq_refl key) in
                let present : contains (keys m) key ≡ true =
                  contains-keys m key ∙ contains-is_some (get m key) k listed in
                let reads : key_compares num pr key op value ≡ cmp_values num pr fv value op =
                  rw (key_compares, parse_value_key-value_key num pr fv law s) refl in
                let same : eval_op num op (some fv) (some value) ≡ cmp_values num pr fv value op =
                  op_range num pr op fv value r (ground (arith, fit.kind r)) in
                rw
                  (
                    contains-scan_keys num pr m (keys m) op value k key
                        (λ vk. ground (arith, fit.indexed, i.posted field vk k)),
                    present,
                    f,
                    reads,
                    same,
                  )
                  refl
          ]

      pub match_cmp_fits :
          (field : String) (op : CmpOp) (value : FilterValue F)
          → CmpFits num pr fields doc field op value
          → contains (match_cmp num pr seg field op value) k
            ≡ eval_op num op (doc_field_value num doc field) (some value)
      unfolding match_cmp
      match_cmp_fits field eq value fit = match_posting field eq value fit
      match_cmp_fits field ne value fit = match_ne field value fit
      match_cmp_fits field gt value fit = match_scan field gt value refl fit
      match_cmp_fits field gte value fit = match_scan field gte value refl fit
      match_cmp_fits field lt value fit = match_scan field lt value refl fit
      match_cmp_fits field lte value fit = match_scan field lte value refl fit
