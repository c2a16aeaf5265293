-- ===== src/Index/Matching/Exact.antt =====
-- The ids that a filter segment finds (src/index/filter.rs, `matching_doc_ids`) are those of the
-- documents on which the filter holds (src/filter.rs, `eval_filter`).
use openpuffer.Base.{
  String, ◌≡◌, refl, Option, none, some, Bool, true, false, ◌&&◌, List, arith, inl, inr,
}
use openpuffer.Base.Logic.{Option-cases}
use openpuffer.Base.Maps.{get, contains}
use openpuffer.Wal.Entry.{Document, Docs}
use openpuffer.Json.{Value}
use openpuffer.Filter.Syntax.{
  CmpOp, Numbers, FilterValue, ref_new, text, float, truth, null_value, FilterExpr, every, some_of,
  cmp, FilterExprs, no_exprs, exprs,
}
use openpuffer.Filter.Eval.{eval_filter, eval_filter_with_new, eval_all, eval_any, resolve_rhs}
use openpuffer.Index.Values.{Printing, is_scalar}
use openpuffer.Index.Postings.{intersection, contains-intersection, contains-extend_ids}
use openpuffer.Index.FilterSegment.{FilterSegment, matching_doc_ids, intersect_all, union_all}
use openpuffer.Index.Indexed.{Indexes}
use openpuffer.Index.Matching.{CmpFits}
use openpuffer.Index.Matching.Absent.{no_match}
use openpuffer.Index.Matching.Present.{match_cmp_fits}

module _ {N F : Type 0} (num : Numbers N F) (pr : Printing F) where
  -- Every comparison of a filter means the same to the segment and to the evaluation.
  mutual
    pub data Fits (fields : List String) (doc : Document (Value N)) : FilterExpr F → Type 0 where
      every_fits : {es : FilterExprs F} → AllFit fields doc es → Fits fields doc (every es)
      some_of_fits : {es : FilterExprs F} → AllFit fields doc es → Fits fields doc (some_of es)
      cmp_fits :
          {field : String} {op : CmpOp} {value : FilterValue F}
          → CmpFits num pr fields doc field op value
          → Fits fields doc (cmp field op value)

    pub data AllFit (fields : List String) (doc : Document (Value N)) : FilterExprs F → Type 0 where
      no_exprs_fit : AllFit fields doc no_exprs
      exprs_fit :
          {e : FilterExpr F} {es : FilterExprs F}
          → Fits fields doc e
          → AllFit fields doc es
          → AllFit fields doc (exprs e es)

  resolve_scalar :
      (value : FilterValue F)
      → is_scalar num pr value ≡ true
      → resolve_rhs num value none false ≡ some value
  unfolding resolve_rhs
  resolve_scalar (text s) h = refl
  resolve_scalar (float x) h = refl
  resolve_scalar (truth b) h = refl
  resolve_scalar null_value h = refl
  resolve_scalar (ref_new f) h = absurd (ground arith)

  module _ (fields : List String) (docs : Docs (Value N)) (seg : FilterSegment) where
    module _ (k : String) (doc : Document (Value N)) (i : Indexes num pr fields docs seg)
        (found : get docs k ≡ some doc)
        (law : (x : F) → pr.parse_float (pr.print_float x) ≡ some x) where
      mutual
        unfolding matching_doc_ids contains eval_filter_with_new

        matches :
            {e : FilterExpr F}
            → Fits fields doc e
            → contains (matching_doc_ids num pr seg e) k ≡ eval_filter_with_new num e doc none false
        matches (every_fits no_exprs_fit) = ground (arith, i.ids k)
        matches (every_fits (exprs_fit {e = e} {es = es} h hs)) =
            let first = matching_doc_ids num pr seg e in
            ground (arith, matches_all first hs, matches h)
        matches (some_of_fits hs) = matches_any hs
        matches (cmp_fits {field = field} {op = op} {value = value} h) = ground (
          arith,
          match_cmp_fits num pr fields docs seg k doc i found law field op value h,
          resolve_scalar value h.scalar,
        )

        matches_all :
            {es : FilterExprs F} (acc : List String)
            → AllFit fields doc es
            → contains (intersect_all num pr seg acc es) k
              ≡ (contains acc k && eval_all num es doc none false)
        matches_all acc no_exprs_fit = ground arith
        matches_all acc (exprs_fit {e = e} {es = es} h hs) =
            let next = matching_doc_ids num pr seg e in
            ground (
              arith,
              matches_all (intersection acc next) hs,
              contains-intersection acc next k,
              matches h,
            )

        matches_any :
            {es : FilterExprs F}
            → AllFit fields doc es
            → contains (union_all num pr seg es) k ≡ eval_any num es doc none false
        matches_any no_exprs_fit = refl
        matches_any (exprs_fit {e = e} {es = es} h hs) = ground (
          arith,
          contains-extend_ids (union_all num pr seg es) (matching_doc_ids num pr seg e) k,
          matches h,
          matches_any hs,
        )

  -- Whether a filter holds of what a map has at an id.
  abbrev pub holds_at : FilterExpr F → Option (Document (Value N)) → Bool
  holds_at e none = false
  holds_at e (some doc) = eval_filter num e doc

  pub matching_doc_ids_exact :
      (fields : List String) (docs : Docs (Value N)) (seg : FilterSegment) (e : FilterExpr F)
      (k : String)
      → Indexes num pr fields docs seg
      → ((x : F) → pr.parse_float (pr.print_float x) ≡ some x)
      → ((doc : Document (Value N)) → get docs k ≡ some doc → Fits fields doc e)
      → contains (matching_doc_ids num pr seg e) k ≡ holds_at e (get docs k)
  unfolding eval_filter
  matching_doc_ids_exact fields docs seg e k i law fit = elim (Option-cases (get docs k)) [
    | inl absent ↦ rw absent (no_match num pr fields docs seg k i absent e)
    | inr (doc, found) ↦ rw found (matches fields docs seg k doc i found law (fit doc found))
  ]
