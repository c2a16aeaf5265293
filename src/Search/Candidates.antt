-- ===== src/Search/Candidates.antt =====
-- The ids that a filter selects (src/search.rs, `matching_doc_ids_for_filter`): the answer of the filter
-- segment, corrected by the documents that changed after it.
use openpuffer.Base.{
  String, ◌≡◌, refl, sym, ap, ◌∙◌, Option, none, some, false, List, [], ◌∷◌, ◌++◌, ◌&&◌, arith, inl,
  inr, eq_iff, text_eq,
}
use openpuffer.Base.Logic.{ok, if◌then◌else◌, Bool-cases, Option-cases}
use openpuffer.Base.Maps.{get, keys, contains_key, contains, is_some}
use openpuffer.Wal.Entry.{Docs, Document, WalEntry}
use openpuffer.Wal.Codec.{Codec}
use openpuffer.Json.{Value}
use openpuffer.Filter.Syntax.{Numbers, FilterExpr}
use openpuffer.Filter.Eval.{eval_filter}
use openpuffer.Index.Values.{Printing}
use openpuffer.Index.Postings.{add_id, remove_id, contains-add_id, contains-remove_id}
use openpuffer.Index.FilterSegment.{FilterSegment, matching_doc_ids}
use openpuffer.Index.Indexed.{Indexes, contains-keys}
use openpuffer.Index.Matching.Exact.{Fits, holds_at, matching_doc_ids_exact}
use openpuffer.Search.Tail.{
  wal_touched_doc_ids, contains-wal_touched_doc_ids, apply_entries, apply_entries-untouched,
  touches-suffix,
}

pub data QueryConsistency : Type 0 where
  strong eventual : QueryConsistency

-- What `QueryContext` has for a filter.
pub record QueryContext (V : Type 0) : Type 0 where
  pub docs : Docs V
  pub filter_index : Option FilterSegment
  pub tail_doc_ids : List String
  pub consistency : QueryConsistency

module _ {V : Type 0} where
  -- `ids.into_iter().filter(|id| ctx.docs.contains_key(id)).collect()`
  unfoldable pub keep_present : Docs V → List String → List String
  unfolding contains_key
  keep_present docs [] = []
  keep_present docs (id ∷ ids) =
      let rest = keep_present docs ids in if contains_key docs id then id ∷ rest else rest

  contains-keep_present :
      (docs : Docs V) (ids : List String) (k : String)
      → contains (keep_present docs ids) k ≡ (contains ids k && is_some (get docs k))
  unfolding keep_present contains
  contains-keep_present docs [] k = refl
  contains-keep_present docs (id ∷ ids) k =
      ground (arith, contains-keep_present docs ids k, eq_iff id k)

module _ {N F : Type 0} (num : Numbers N F) (pr : Printing F) where
  -- `for (id, doc) in ctx.docs { if eval_filter(expr, doc) { ids.insert(id.clone()); } }`
  unfoldable pub scan_docs : FilterExpr F → Docs (Value N) → List String → List String
  unfolding get eval_filter
  scan_docs expr docs [] = []
  scan_docs expr docs (id ∷ ids) =
      let rest = scan_docs expr docs ids in
      elim (get docs id) [
        | none ↦ rest
        | some doc ↦ if eval_filter num expr doc then add_id rest id else rest
      ]

  -- One round of the loop over the tail.
  unfoldable pub check_tail_id : FilterExpr F → Docs (Value N) → List String → String → List String
  unfolding get eval_filter add_id remove_id
  check_tail_id expr docs ids id = elim (get docs id) [
    | none ↦ remove_id ids id
    | some doc ↦ if eval_filter num expr doc then add_id ids id else remove_id ids id
  ]

  unfoldable pub check_tail :
      FilterExpr F → Docs (Value N) → List String → List String → List String
  unfolding check_tail_id
  check_tail expr docs ids [] = ids
  check_tail expr docs ids (id ∷ tail) = check_tail expr docs (check_tail_id expr docs ids id) tail

  unfoldable pub with_index :
      QueryConsistency → QueryContext (Value N) → FilterExpr F → List String → List String
  unfolding check_tail keep_present
  with_index strong ctx expr ids =
      keep_present ctx.docs (check_tail expr ctx.docs ids ctx.tail_doc_ids)
  with_index eventual ctx expr ids = ids

  unfoldable pub matching_doc_ids_for_filter : QueryContext (Value N) → FilterExpr F → List String
  unfolding scan_docs with_index matching_doc_ids
  matching_doc_ids_for_filter ctx expr = elim ctx.filter_index [
    | none ↦ scan_docs expr ctx.docs (keys ctx.docs)
    | some seg ↦ with_index ctx.consistency ctx expr (matching_doc_ids num pr seg expr)
  ]

  contains-scan_docs :
      (expr : FilterExpr F) (docs : Docs (Value N)) (ids : List String) (k : String)
      → contains (scan_docs expr docs ids) k ≡ (contains ids k && holds_at num pr expr (get docs k))
  unfolding scan_docs contains
  contains-scan_docs expr docs [] k = refl
  contains-scan_docs expr docs (id ∷ ids) k =
      let rest = scan_docs expr docs ids in
      elim (Option-cases (get docs id)) [
        | inl e ↦ ground (arith, contains-scan_docs expr docs ids k, eq_iff id k)
        | inr (doc, e) ↦
            ground
              (arith, contains-scan_docs expr docs ids k, contains-add_id rest id k, eq_iff id k)
      ]

  contains-check_tail_id :
      (expr : FilterExpr F) (docs : Docs (Value N)) (ids : List String) (id k : String)
      → contains (check_tail_id expr docs ids id) k
        ≡ (if text_eq id k then holds_at num pr expr (get docs k) else contains ids k)
  unfolding check_tail_id
  contains-check_tail_id expr docs ids id k = elim (Option-cases (get docs id)) [
    | inl e ↦ ground (arith, contains-remove_id ids id k, eq_iff id k)
    | inr (doc, e) ↦
        ground (arith, contains-remove_id ids id k, contains-add_id ids id k, eq_iff id k)
  ]

  contains-check_tail :
      (expr : FilterExpr F) (docs : Docs (Value N)) (ids tail : List String) (k : String)
      → contains (check_tail expr docs ids tail) k
        ≡ (if contains tail k then holds_at num pr expr (get docs k) else contains ids k)
  unfolding check_tail contains
  contains-check_tail expr docs ids [] k = refl
  contains-check_tail expr docs ids (id ∷ tail) k = ground (
    arith,
    contains-check_tail expr docs (check_tail_id expr docs ids id) tail k,
    contains-check_tail_id expr docs ids id k,
  )

  -- Without a filter segment the ids are those of the documents on which the filter holds.
  pub matching_doc_ids_for_filter_unindexed :
      (ctx : QueryContext (Value N)) (expr : FilterExpr F) (k : String)
      → ctx.filter_index ≡ none
      → contains (matching_doc_ids_for_filter ctx expr) k ≡ holds_at num pr expr (get ctx.docs k)
  unfolding matching_doc_ids_for_filter
  matching_doc_ids_for_filter_unindexed ctx expr k h =
      ground (arith, contains-scan_docs expr ctx.docs (keys ctx.docs) k, contains-keys ctx.docs k)

  holds_at-is_some :
      (expr : FilterExpr F) (o : Option (Document (Value N)))
      → (holds_at num pr expr o && is_some o) ≡ holds_at num pr expr o
  holds_at-is_some expr none = refl
  holds_at-is_some expr (some doc) = ground arith

  contains-with_index :
      (ctx : QueryContext (Value N)) (expr : FilterExpr F) (ids : List String) (k : String)
      → (contains ctx.tail_doc_ids k ≡ false
          → contains ids k ≡ holds_at num pr expr (get ctx.docs k))
      → contains (with_index strong ctx expr ids) k ≡ holds_at num pr expr (get ctx.docs k)
  unfolding with_index
  contains-with_index ctx expr ids k h =
      let checked = check_tail expr ctx.docs ids ctx.tail_doc_ids in
      let c : contains checked k ≡ holds_at num pr expr (get ctx.docs k) =
        elim (Bool-cases (contains ctx.tail_doc_ids k)) [
          | inl t ↦ rw (contains-check_tail expr ctx.docs ids ctx.tail_doc_ids k, t) refl
          | inr f ↦ rw (contains-check_tail expr ctx.docs ids ctx.tail_doc_ids k, f) (h f)
        ] in
      rw (contains-keep_present ctx.docs checked k, c) (holds_at-is_some expr (get ctx.docs k))

  module _ (c : Codec (Value N)) where
    -- Of an id, a strongly consistent query finds it exactly if the filter holds of its document, where the
    -- segment holds the documents at the index cursor, the entries after the cursor turned those into the
    -- documents of the query, and the tail has the ids of these entries, and maybe of earlier ones.
    -- Conditions: a float reads back from its printed form; and if the id is in the segment, each comparison
    -- of the filter has a field other than `id` that the segment indexes, compares with a string, a Boolean
    -- or a number that equals just the numbers printed like it (so neither 0 nor -0), not with null or a
    -- reference, and asks for no order of a number and a Boolean.
    pub matching_doc_ids_for_filter_strong :
        (ctx : QueryContext (Value N)) (expr : FilterExpr F) (fields : List String)
        (seg : FilterSegment) (indexed : Docs (Value N)) (earlier entries : List WalEntry)
        (k : String)
        → ctx.filter_index ≡ some seg
        → ctx.consistency ≡ strong
        → ctx.tail_doc_ids ≡ wal_touched_doc_ids (earlier ++ entries)
        → Indexes num pr fields indexed seg
        → apply_entries c indexed entries ≡ ok ctx.docs
        → ((x : F) → pr.parse_float (pr.print_float x) ≡ some x)
        → ((doc : Document (Value N)) → get indexed k ≡ some doc → Fits num pr fields doc expr)
        → contains (matching_doc_ids_for_filter ctx expr) k ≡ holds_at num pr expr (get ctx.docs k)
    unfolding matching_doc_ids_for_filter
    matching_doc_ids_for_filter_strong ctx expr fields seg indexed earlier entries k hi hc ht i
          applied law fit =
        rw (hi, hc)
          (contains-with_index ctx expr (matching_doc_ids num pr seg expr) k (λ t.
            let same = apply_entries-untouched c indexed ctx.docs entries k applied (
              touches-suffix earlier entries k (
                sym (contains-wal_touched_doc_ids (earlier ++ entries) k)
                ∙ ap (λ ids. contains ids k) (sym ht)
                ∙ t)) in
            rw same (matching_doc_ids_exact num pr fields indexed seg expr k i law fit)))
