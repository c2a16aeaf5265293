-- ===== src/Index/FullText/Exact.antt =====
-- A full-text segment (src/index/fts.rs) that counts exactly the tokens of some documents.
use openpuffer.Base.{
  ℕ, suc, ◌%◌, ◌<◌, ◌≡◌, refl, sym, ap, ◌∙◌, String, Option, none, some, List, [], ◌∷◌, arith,
  text_eq, eq_iff, inl, inr,
}
use openpuffer.Base.Logic.{if◌then◌else◌, Option-cases}
use openpuffer.Base.Lists.{length}
use openpuffer.Base.Maps.{get, insert, remove, get-insert, get-remove}
use openpuffer.Wal.Entry.{Document, Docs}
use openpuffer.Json.{Value}
use openpuffer.Index.FullText.Tokens.{TextOps, FtsTokenizeOptions}
use openpuffer.Index.FullText.Segment.{u32_size, FtsSegment, remove_text, doc_tokens, add_tokens}
use openpuffer.Index.FullText.Counts.{
  occurrences, freqs_at, freqs_at-shrink_values, frequency, freqs_at-add,
}
use openpuffer.Index.FullText.Lengths.{
  sum_values, Lengths, Lengths-remove, Lengths-insert, insert_absent, remove_lem,
  sum_values-bounded,
}

-- The length that is kept of a document with some tokens; a document without any is not kept.
abbrev pub kept_length : Option (List String) → Option ℕ
kept_length none = none
kept_length (some []) = none
kept_length (some (t ∷ ts)) = some (length (t ∷ ts) % u32_size)

abbrev pub kept_frequency : String → Option (List String) → List ℕ
kept_frequency t none = []
kept_frequency t (some tokens) = frequency (occurrences t tokens)

kept_length-none :
    (t : String) (o : Option (List String)) → kept_length o ≡ none → kept_frequency t o ≡ []
unfolding occurrences
kept_length-none t none h = refl
kept_length-none t (some []) h = refl
kept_length-none t (some (x ∷ xs)) h = absurd (ground arith)

module _ {N : Type 0} (print : Value N → String) (ops : TextOps) (opts : FtsTokenizeOptions) where
  -- The tokens of the document under an id.
  abbrev pub tokens_at : String → Docs (Value N) → String → Option (List String)
  tokens_at field docs k = elim (get docs k) [
    | none ↦ none
    | some doc ↦ some (doc_tokens print ops opts field doc)
  ]

  -- The segment has the documents that have tokens: each with its length, and under each of its terms
  -- with the frequency of the term; and their number and the sum of their lengths are those it states.
  pub record TextIndexes (docs : Docs (Value N)) (seg : FtsSegment) : Type 0 where
    pub lengths : (k : String) → get seg.doc_lengths k ≡ kept_length (tokens_at seg.field docs k)
    pub posted :
        (t k : String) → freqs_at seg.postings t k ≡ kept_frequency t (tokens_at seg.field docs k)
    pub number : seg.num_docs ≡ length seg.doc_lengths
    pub total : seg.total_doc_len ≡ sum_values seg.doc_lengths
    pub keys_once : Lengths seg.doc_lengths

  pub TextIndexes-same :
      (docs other : Docs (Value N)) (seg : FtsSegment)
      → ((k : String) → tokens_at seg.field docs k ≡ tokens_at seg.field other k)
      → TextIndexes docs seg
      → TextIndexes other seg
  TextIndexes-same docs other seg same i = record {
    lengths = λ k. i.lengths k ∙ ap kept_length (same k);
    posted = λ t k. i.posted t k ∙ ap (kept_frequency t) (same k);
    number = i.number;
    total = i.total;
    keys_once = i.keys_once;
  }

  tokens_at-remove :
      (field : String) (docs : Docs (Value N)) (id k : String)
      → tokens_at field (remove docs id) k ≡ (if text_eq id k then none else tokens_at field docs k)
  tokens_at-remove field docs id k = ground (arith, get-remove docs id k)

  tokens_at-insert :
      (field : String) (docs : Docs (Value N)) (id : String) (doc : Document (Value N)) (k : String)
      → tokens_at field (insert docs id doc) k ≡ (
          if text_eq id k
          then some (doc_tokens print ops opts field doc)
          else tokens_at field docs k)
  tokens_at-insert field docs id doc k = ground (arith, get-insert docs id doc k)

  remove_kept :
      (docs : Docs (Value N)) (seg : FtsSegment) (id : String) (len : ℕ)
      → get seg.doc_lengths id ≡ some len
      → TextIndexes docs seg
      → TextIndexes (remove docs id) (remove_text seg id)
  unfolding remove_text
  remove_kept docs seg id len e i =
      let (size, sum) = remove_lem seg.doc_lengths id len i.keys_once e in
      rw (e, remove_text)
        (record {
          lengths = λ k. ground (
            arith,
            get-remove seg.doc_lengths id k,
            tokens_at-remove seg.field docs id k,
            i.lengths k,
          );
          posted = λ t k. ground (
            arith,
            freqs_at-shrink_values id seg.postings t k,
            tokens_at-remove seg.field docs id k,
            i.posted t k,
          );
          number = omega (arith, i.number);
          total = omega (arith, i.total);
          keys_once = Lengths-remove seg.doc_lengths id i.keys_once;
        })

  pub remove_text-TextIndexes :
      (docs : Docs (Value N)) (seg : FtsSegment) (id : String)
      → TextIndexes docs seg
      → TextIndexes (remove docs id) (remove_text seg id)
  unfolding remove_text
  remove_text-TextIndexes docs seg id i = elim (Option-cases (get seg.doc_lengths id)) [
    | inl e ↦
        let no_length : kept_length (tokens_at seg.field docs id) ≡ none = sym (i.lengths id) ∙ e in
        rw (e, remove_text)
          (record {
            lengths = λ k.
                ground (
                  arith,
                  tokens_at-remove seg.field docs id k,
                  i.lengths k,
                  no_length,
                  eq_iff id k,
                );
            posted = λ t k. ground (
              arith,
              tokens_at-remove seg.field docs id k,
              i.posted t k,
              kept_length-none t (tokens_at seg.field docs id) no_length,
              eq_iff id k,
            );
            number = i.number;
            total = i.total;
            keys_once = i.keys_once;
          })
    | inr (len, e) ↦ remove_kept docs seg id len e i
  ]

  pub add_tokens-TextIndexes :
      (docs : Docs (Value N)) (seg : FtsSegment) (id : String) (doc : Document (Value N))
      (tokens : List String)
      → doc_tokens print ops opts seg.field doc ≡ tokens
      → get docs id ≡ none
      → suc seg.num_docs < u32_size
      → TextIndexes docs seg
      → TextIndexes (insert docs id doc) (add_tokens print ops opts seg id tokens)
  add_tokens-TextIndexes docs seg id doc [] e absent small i = record {
    lengths =
        λ k. ground (arith, tokens_at-insert seg.field docs id doc k, i.lengths k, eq_iff id k);
    posted = λ t k. ground (
      arith,
      tokens_at-insert seg.field docs id doc k,
      i.posted t k,
      kept_length-none t (some []) refl,
      eq_iff id k,
    );
    number = i.number;
    total = i.total;
    keys_once = i.keys_once;
  }
  add_tokens-TextIndexes docs seg id doc (x ∷ xs) e absent small i =
      let len = length (x ∷ xs) % u32_size in
      let fits : len < u32_size = omega arith in
      let unknown : get seg.doc_lengths id ≡ none = ground (arith, i.lengths id) in
      let alone = insert_absent seg.doc_lengths id len unknown in
      let grown = ap (length {A = String × ℕ}) alone in
      let summed = ap sum_values alone in
      let bound = sum_values-bounded seg.doc_lengths i.keys_once in
      record {
        lengths = λ k. ground (
          arith,
          get-insert seg.doc_lengths id len k,
          tokens_at-insert seg.field docs id doc k,
          i.lengths k,
        );
        posted = λ t k. ground (
          arith,
          freqs_at-add seg.postings id (x ∷ xs) t k,
          tokens_at-insert seg.field docs id doc k,
          i.posted t k,
          eq_iff id k,
        );
        number = omega (arith, i.number, grown);
        total = omega (arith, i.total, i.number, summed);
        keys_once = Lengths-insert seg.doc_lengths id len fits i.keys_once;
      }
