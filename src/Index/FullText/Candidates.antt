-- ===== src/Index/FullText/Candidates.antt =====
-- The documents that a query selects from a full-text segment (`candidate_doc_ids` of src/index/fts.rs).
use openpuffer.Base.{
  ◌≡◌, refl, ap, ◌∙◌, String, Option, none, some, List, [], ◌∷◌, Bool, false, not, ◌||◌, arith, inl,
  inr,
}
use openpuffer.Base.Logic.{Option-cases}
use openpuffer.Base.Lists.{is_empty}
use openpuffer.Base.Maps.{get, contains}
use openpuffer.Wal.Entry.{Docs}
use openpuffer.Json.{Value}
use openpuffer.Index.FullText.Tokens.{TextOps, FtsTokenizeOptions}
use openpuffer.Index.FullText.Segment.{FtsSegment}
use openpuffer.Base.Lists.{any}
use openpuffer.Index.Postings.{or_default, add_id, contains-add_id}
use openpuffer.Index.FullText.Tokens.{tokenize}
use openpuffer.Index.FullText.Segment.{Posting, add_posted, posted_under, candidate_doc_ids}
use openpuffer.Index.FullText.Counts.{freqs, frequency-contains}
use openpuffer.Index.FullText.Exact.{TextIndexes, tokens_at, kept_frequency}

-- A document has one of the terms among its tokens.
abbrev pub has_term : List String → Option (List String) → Bool
has_term terms none = false
has_term terms (some tokens) = any (λ t. contains tokens t) terms

contains-add_posted :
    (ids : List String) (l : List Posting) (k : String)
    → contains (add_posted ids l) k ≡ (contains ids k || not (is_empty (freqs l k)))
unfolding add_posted freqs
contains-add_posted ids [] k = ground arith
contains-add_posted ids (p ∷ ps) k =
    ground (arith, contains-add_posted (add_id ids p.doc_id) ps k, contains-add_id ids p.doc_id k)

kept_frequency-contains :
    (t : String) (o : Option (List String))
    → not (is_empty (kept_frequency t o)) ≡ has_term (t ∷ []) o
kept_frequency-contains t none = refl
kept_frequency-contains t (some tokens) = ground (arith, frequency-contains t tokens)

has_term-cons :
    (t : String) (ts : List String) (o : Option (List String))
    → has_term (t ∷ ts) o ≡ (has_term (t ∷ []) o || has_term ts o)
has_term-cons t ts none = refl
has_term-cons t ts (some tokens) = ground arith

module _ {N : Type 0} (print : Value N → String) (ops : TextOps) (opts : FtsTokenizeOptions) where
  contains-posted_under :
      (docs : Docs (Value N)) (seg : FtsSegment) (ids terms : List String) (k : String)
      → TextIndexes print ops opts docs seg
      → contains (posted_under seg ids terms) k
        ≡ (contains ids k || has_term terms (tokens_at print ops opts seg.field docs k))
  unfolding posted_under
  contains-posted_under docs seg ids [] k i = elim (Option-cases (get docs k)) [
    | inl e ↦ ground arith
    | inr (d, e) ↦ ground arith
  ]
  contains-posted_under docs seg ids (t ∷ ts) k i =
      let o = tokens_at print ops opts seg.field docs k in
      let list = or_default (get seg.postings t) in
      let here : not (is_empty (freqs list k)) ≡ has_term (t ∷ []) o =
        ap (λ l. not (is_empty l)) (i.posted t k) ∙ kept_frequency-contains t o in
      ground (
        arith,
        contains-posted_under docs seg (add_posted ids list) ts k i,
        contains-add_posted ids list k,
        here,
        has_term-cons t ts o,
      )

  -- The candidates of a query are exactly the documents with one of its terms among their tokens, where
  -- the segment has exactly the tokens of the documents.
  pub candidate_doc_ids_exact :
      (docs : Docs (Value N)) (seg : FtsSegment) (query k : String)
      → TextIndexes print ops opts docs seg
      → contains (candidate_doc_ids ops opts seg query) k
        ≡ has_term (tokenize ops opts query) (tokens_at print ops opts seg.field docs k)
  unfolding candidate_doc_ids contains
  candidate_doc_ids_exact docs seg query k i =
      contains-posted_under docs seg [] (tokenize ops opts query) k i
