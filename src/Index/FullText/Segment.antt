-- ===== src/Index/FullText/Segment.antt =====
-- A full-text segment and its operations (src/index/fts.rs): how often each term stands in each document,
-- and the lengths of the documents. Scores are left out.
use openpuffer.Base.{
  ℕ, ◌+◌, ◌-◌, ◌%◌, String, Option, none, some, List, [], ◌∷◌, ◌++◌, map, not, text_eq,
}
use openpuffer.Base.Logic.{if◌then◌else◌}
use openpuffer.Base.Lists.{length, is_empty}
use openpuffer.Base.Maps.{StrMap, get, insert, remove}
use openpuffer.Wal.Entry.{Document}
use openpuffer.Json
use openpuffer.Json.{Value}
use openpuffer.Schema.Specs.{index_fields_from_schema}
use openpuffer.Index.Values.{prefixed}
use openpuffer.Index.Postings.{or_default, shrink_values, add_id}
use openpuffer.Index.FullText.Tokens.{TextOps, FtsTokenizeOptions, tokenize, empty_text}

abbrev pub u32_size : ℕ
u32_size = 4294967296

abbrev pub u64_size : ℕ
u64_size = 18446744073709551616

pub record Posting : Type 0 where
  pub doc_id : String
  pub term_freq : ℕ

pub record FtsSegment : Type 0 where
  pub segment_id : ℕ
  pub field : String
  pub num_docs : ℕ
  pub total_doc_len : ℕ
  pub doc_lengths : StrMap ℕ
  pub postings : StrMap (List Posting)

abbrev pub or_zero : Option ℕ → ℕ
or_zero none = 0
or_zero (some n) = n

-- `for t in tokens { *term_freq.entry(t).or_default() += 1; }`
unfoldable pub count_terms : StrMap ℕ → List String → StrMap ℕ
unfolding get insert
count_terms tf [] = tf
count_terms tf (t ∷ ts) = count_terms (insert tf t ((or_zero (get tf t) + 1) % u32_size)) ts

-- `postings.entry(term).or_default().push(posting)`
unfoldable pub push_posting : StrMap (List Posting) → String → Posting → StrMap (List Posting)
unfolding get insert
push_posting ps term p = insert ps term (or_default (get ps term) ++ p ∷ [])

-- `for (term, tf) in term_freq { .. push(..) }`
unfoldable pub push_postings : StrMap (List Posting) → String → StrMap ℕ → StrMap (List Posting)
unfolding push_posting
push_postings ps doc_id [] = ps
push_postings ps doc_id ((term, tf) ∷ m) =
    push_posting (push_postings ps doc_id m) term (record { doc_id = doc_id; term_freq = tf })

-- `list.retain(|p| p.doc_id != doc_id)`
unfoldable pub retain_others : String → List Posting → List Posting
retain_others doc_id [] = []
retain_others doc_id (p ∷ ps) =
    let rest = retain_others doc_id ps in if text_eq p.doc_id doc_id then rest else p ∷ rest

unfoldable pub remove_text : FtsSegment → String → FtsSegment
unfolding get remove shrink_values retain_others
remove_text seg doc_id = elim (get seg.doc_lengths doc_id) [
  | none ↦ seg
  | some len ↦ record seg {
    doc_lengths = remove seg.doc_lengths doc_id;
    total_doc_len = seg.total_doc_len - len;
    num_docs = seg.num_docs - 1;
    postings = shrink_values (retain_others doc_id) seg.postings;
  }
]

unfoldable pub remove_texts : FtsSegment → List String → FtsSegment
unfolding remove_text
remove_texts seg [] = seg
remove_texts seg (id ∷ ids) = remove_texts (remove_text seg id) ids

-- `parts.join(" ")`
unfoldable pub join_parts : List String → String
join_parts [] = ""
join_parts (s ∷ []) = s
join_parts (s ∷ t ∷ parts) = prefixed s (prefixed " " (join_parts (t ∷ parts)))

-- `for posting in list { ids.insert(posting.doc_id.clone()); }`
unfoldable pub add_posted : List String → List Posting → List String
unfolding add_id
add_posted ids [] = ids
add_posted ids (p ∷ ps) = add_posted (add_id ids p.doc_id) ps

-- The loop over the terms of a query.
unfoldable pub posted_under : FtsSegment → List String → List String → List String
unfolding get add_posted
posted_under seg ids [] = ids
posted_under seg ids (term ∷ terms) =
    posted_under seg (add_posted ids (or_default (get seg.postings term))) terms

unfoldable pub candidate_doc_ids : TextOps → FtsTokenizeOptions → FtsSegment → String → List String
unfolding posted_under tokenize
candidate_doc_ids ops opts seg query = posted_under seg [] (tokenize ops opts query)

module _ {N : Type 0} (print : Value N → String) where
  abbrev pub value_to_text : Value N → String
  value_to_text (Json.string s) = s
  value_to_text v = print v

  abbrev pub string_parts : StrMap (Value N) → List String
  string_parts [] = []
  string_parts ((k, Json.string s) ∷ m) = s ∷ string_parts m
  string_parts ((k, v) ∷ m) = string_parts m

  unfoldable pub extract_index_text : Document (Value N) → String → String
  unfolding get join_parts
  extract_index_text doc field =
      if not (empty_text field)
      then (elim (get doc.attributes field) [ none ↦ "" | some v ↦ value_to_text v ])
      else join_parts (string_parts doc.attributes)

  module _ (ops : TextOps) (opts : FtsTokenizeOptions) where
    abbrev pub doc_tokens : String → Document (Value N) → List String
    doc_tokens field doc = tokenize ops opts (extract_index_text doc field)

    abbrev pub add_tokens : FtsSegment → String → List String → FtsSegment
    add_tokens seg doc_id [] = seg
    add_tokens seg doc_id (t ∷ ts) =
        let len = length (t ∷ ts) % u32_size in
        record seg {
          doc_lengths = insert seg.doc_lengths doc_id len;
          total_doc_len = (seg.total_doc_len + len) % u64_size;
          num_docs = (seg.num_docs + 1) % u32_size;
          postings = push_postings seg.postings doc_id (count_terms [] (t ∷ ts));
        }

    unfoldable pub add_text : FtsSegment → String → Document (Value N) → FtsSegment
    unfolding extract_index_text tokenize insert push_postings count_terms
    add_text seg doc_id doc = add_tokens seg doc_id (doc_tokens seg.field doc)

    unfoldable pub add_texts : FtsSegment → List (String × Document (Value N)) → FtsSegment
    unfolding add_text
    add_texts seg [] = seg
    add_texts seg ((id, doc) ∷ docs) = add_texts (add_text seg id doc) docs

    unfoldable pub build_text : ℕ → String → List (String × Document (Value N)) → FtsSegment
    unfolding add_texts
    build_text segment_id field docs =
        add_texts
          (record {
            segment_id = segment_id;
            field = field;
            num_docs = 0;
            total_doc_len = 0;
            doc_lengths = [];
            postings = [];
          })
          docs

    unfoldable pub replace_texts : FtsSegment → List (String × Document (Value N)) → FtsSegment
    unfolding remove_text add_text
    replace_texts seg [] = seg
    replace_texts seg ((id, doc) ∷ docs) = replace_texts (add_text (remove_text seg id) id doc) docs

    unfoldable pub apply_text_delta :
        FtsSegment → List (String × Document (Value N)) → List String → FtsSegment
    unfolding remove_texts replace_texts
    apply_text_delta seg upserts deletes = replace_texts (remove_texts seg deletes) upserts

    unfoldable pub build_segments_for_docs :
        ℕ → Value N → List (String × Document (Value N)) → List FtsSegment
    unfolding build_text index_fields_from_schema
    build_segments_for_docs segment_id schema docs =
        let fields = index_fields_from_schema schema in
        if is_empty fields
        then build_text segment_id "" docs ∷ []
        else map (λ f. build_text segment_id f docs) fields
