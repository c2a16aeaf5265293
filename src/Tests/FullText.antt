-- ===== src/Tests/FullText.antt =====
-- The theorems on full-text segments at concrete inputs.
use Prim.Native.Char.{code}
use openpuffer.Base.{ℕ, ◌≡◌, refl, List, [], ◌∷◌, true, false, String, ◌&&◌, arith}
use openpuffer.Base.Logic.{leb}
use openpuffer.Base.Maps.{get, contains}
use openpuffer.Json
use openpuffer.Json.{Value}
use openpuffer.Wal.Entry.{Document}
use openpuffer.Wal.Apply.{delete_all}
use openpuffer.Schema.Text.{to_ascii_lowercase}
use openpuffer.Index.Indexed.{put_documents}
use openpuffer.Index.FullText.Tokens.{TextOps, FtsTokenizeOptions, tokenize}
use openpuffer.Index.FullText.Segment.{FtsSegment, apply_text_delta, candidate_doc_ids}
use openpuffer.Index.FullText.Counts.{freqs}
use openpuffer.Index.FullText.Exact.{TextIndexes, tokens_at}
use openpuffer.Index.FullText.Delta
use openpuffer.Index.FullText.Candidates
use openpuffer.Index.FullText.Candidates.{has_term}

abbrev ascii_text : TextOps
ascii_text = record {
  nfkc = λ s. s;
  is_alphabetic = λ c. leb 65 (code c) && leb (code c) 122;
  is_numeric = λ c. false;
  to_lowercase = to_ascii_lowercase;
  stem = λ s. s;
}

abbrev no_stem : FtsTokenizeOptions
no_stem = record { stem = false }

-- Two tokens, the first of them twice, and a stop word.
the_tokens : tokenize ascii_text no_stem "Rust, the rust-World" ≡ "rust" ∷ "rust" ∷ "world" ∷ []
unfolding tokenize to_ascii_lowercase
the_tokens = refl

abbrev print_empty : Value ℕ → String
print_empty v = ""

abbrev texts : List (String × Document (Value ℕ))
texts =
    ("a", record { id = "a"; attributes = ("k", Json.string "Rust, the rust-World") ∷ [] })
    ∷ ("b", record { id = "b"; attributes = ("k", Json.string "the") ∷ [] })
    ∷ ("a", record { id = "a"; attributes = ("k", Json.string "world") ∷ [] })
    ∷ []

abbrev empty_segment : FtsSegment
empty_segment = record {
  segment_id = 1;
  field = "k";
  num_docs = 0;
  total_doc_len = 0;
  doc_lengths = [];
  postings = [];
}

empty_segment-TextIndexes : TextIndexes print_empty ascii_text no_stem [] empty_segment
unfolding get freqs
empty_segment-TextIndexes = record {
  lengths = λ k. refl;
  posted = λ t k. refl;
  number = refl;
  total = refl;
  keys_once = tt;
}

apply_text_delta-TextIndexes_example :
    TextIndexes print_empty ascii_text no_stem
      (put_documents (delete_all [] ("c" ∷ [])) texts)
      (apply_text_delta print_empty ascii_text no_stem empty_segment texts ("c" ∷ []))
apply_text_delta-TextIndexes_example =
    Delta.apply_text_delta-TextIndexes print_empty ascii_text no_stem [] empty_segment texts
      ("c" ∷ []) (omega arith) empty_segment-TextIndexes

-- There is one token in the end.
one_left :
    (apply_text_delta print_empty ascii_text no_stem empty_segment texts ("c" ∷ [])).total_doc_len
    ≡ 1
unfolding apply_text_delta to_ascii_lowercase
one_left = refl

abbrev indexed : FtsSegment
indexed = apply_text_delta print_empty ascii_text no_stem empty_segment texts []

indexed-TextIndexes :
    TextIndexes print_empty ascii_text no_stem (put_documents (delete_all [] []) texts) indexed
indexed-TextIndexes =
    Delta.apply_text_delta-TextIndexes print_empty ascii_text no_stem [] empty_segment texts []
      (omega arith) empty_segment-TextIndexes

candidate_doc_ids_exact_example :
    contains (candidate_doc_ids ascii_text no_stem indexed "the World") "a"
    ≡ has_term (tokenize ascii_text no_stem "the World") (
        tokens_at print_empty ascii_text no_stem indexed.field
          (put_documents (delete_all [] []) texts)
          "a")
candidate_doc_ids_exact_example =
    Candidates.candidate_doc_ids_exact print_empty ascii_text no_stem
      (put_documents (delete_all [] []) texts) indexed "the World" "a" indexed-TextIndexes

-- The document is found there.
a_is_found : contains (candidate_doc_ids ascii_text no_stem indexed "the World") "a" ≡ true
unfolding contains candidate_doc_ids apply_text_delta to_ascii_lowercase
a_is_found = refl
