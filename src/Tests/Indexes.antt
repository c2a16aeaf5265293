-- ===== src/Tests/Indexes.antt =====
-- The theorems on schemas, on the filter segment and on filters of queries at concrete inputs.
use openpuffer.Base.{
  ℕ, ◌≡◌, ◌≤◌, ◌<◌, refl, ◌⊎◌, none, some, Bool, true, false, not, [], ◌∷◌, String, text_eq,
}
use openpuffer.Base.Logic.{ok, err, if◌then◌else◌}
use openpuffer.Base.Lists.{length}
use openpuffer.Base.Maps.{get, contains, or_else, remove}
use openpuffer.Error.{message}
use openpuffer.Json
use openpuffer.Json.{Value, Fields, member}
use openpuffer.Meta.Types.{max_vector_fields}
use openpuffer.Wal.Entry.{Document, Docs, WalEntry}
use openpuffer.Wal.Codec.{Codec}
use openpuffer.Wal.Apply.{
  apply_entry, into_documents, patch_documents, delete_all, patch_all, upsert_all,
}
use openpuffer.Filter.Syntax.{Numbers, equal, FilterExpr, cmp, eq, text}
use openpuffer.Filter.Eval.{eval_filter}
use openpuffer.Schema.Specs.{schema_member, vector_fields_from_schema, filter_fields_from_schema}
use openpuffer.Schema.Merge
use openpuffer.Schema.Merge.{merge_schema, set_members, object_or_empty}
use openpuffer.Schema.Normal.{Formats, validate_and_normalize_document_attributes}
use openpuffer.Index.Values.{Printing}
use openpuffer.Index.FilterSegment.{FilterSegment, apply_delta}
use openpuffer.Index.Indexed
use openpuffer.Index.Indexed.{Indexes, put_documents}
use openpuffer.Index.Matching.Exact.{Fits, cmp_fits, holds_at}
use openpuffer.Search.Tail.{wal_touched_doc_ids, apply_entries}
use openpuffer.Search.Candidates
use openpuffer.Search.Candidates.{QueryContext, strong, matching_doc_ids_for_filter}

abbrev pub open_schema : Value ℕ
open_schema = Json.object Json.end

abbrev vector_patch : Fields ℕ
vector_patch = Json.field "v" (Json.string "[2]f32") Json.end

merge_schema_outcome_example :
    ((merged : Value ℕ) × (merge_schema open_schema (Json.object vector_patch) ≡ ok merged)
      × (length (vector_fields_from_schema merged) ≤ max_vector_fields)
      × ((k : String)
          → schema_member merged k ≡ or_else (member vector_patch k) (schema_member open_schema k)))
    ⊎ ((merge_schema open_schema (Json.object vector_patch)
          ≡ err (message "too many vector fields"))
        × (max_vector_fields
            < length (
                vector_fields_from_schema
                  (Json.object (set_members (object_or_empty open_schema) vector_patch)))))
merge_schema_outcome_example = Merge.merge_schema_outcome open_schema vector_patch

-- One UUID and one date, written `u` and `d`.
abbrev test_formats : Formats (Unit {0})
test_formats = record {
  parse_uuid = λ s. if text_eq s "u" then some "u" else none;
  parse_datetime = λ s. if text_eq s "d" then some tt else none;
  format_datetime = λ _. some "d";
}

abbrev uuid_schema : Value ℕ
uuid_schema = Json.object (Json.field "f" (Json.string "uuid") Json.end)

-- A UUID is put into its canonical form.
normalized_uuid :
    validate_and_normalize_document_attributes test_formats
      (("f", Json.string " u ") ∷ [])
      uuid_schema
    ≡ ok (("f", Json.string "u") ∷ [])
unfolding validate_and_normalize_document_attributes
normalized_uuid = refl

-- The numbers of filters are two.
abbrev pub bool_numbers : Numbers ℕ Bool
bool_numbers = record {
  as_f64 = λ n. some true;
  float_eq = λ a b. if a then b else not b;
  partial_cmp = λ a b. some equal;
  zero_float = false;
  one_float = true;
  text_cmp = λ a b. equal;
}

abbrev pub bool_printing : Printing Bool
bool_printing = record {
  print_float = λ b. if b then "1" else "0";
  parse_float =
      λ s. if text_eq s "1" then some true else if text_eq s "0" then some false else none;
}

pub reads_back : (b : Bool) → bool_printing.parse_float (bool_printing.print_float b) ≡ some b
reads_back true = refl
reads_back false = refl

abbrev one_doc : String → String → String × Document (Value ℕ)
one_doc id v = (id, record { id = id; attributes = ("k", Json.string v) ∷ [] })

abbrev nothing_indexed : FilterSegment
nothing_indexed = record { segment_id = 1; all_doc_ids = []; postings = [] }

nothing_indexed-Indexes :
    Indexes bool_numbers bool_printing (filter_fields_from_schema open_schema) [] nothing_indexed
unfolding contains get
nothing_indexed-Indexes = record { ids = λ k. refl; posted = λ f vk k. refl }

-- The segment of the documents `a` and `b`.
abbrev pub two_docs : Docs (Value ℕ)
two_docs = put_documents (delete_all [] []) (one_doc "a" "x" ∷ one_doc "b" "y" ∷ [])

abbrev pub two_indexed : FilterSegment
two_indexed =
    apply_delta bool_numbers bool_printing nothing_indexed open_schema
      (one_doc "a" "x" ∷ one_doc "b" "y" ∷ []) []

pub two_indexed-Indexes :
    Indexes bool_numbers bool_printing (filter_fields_from_schema open_schema) two_docs two_indexed
two_indexed-Indexes =
    Indexed.apply_delta-Indexes bool_numbers bool_printing [] nothing_indexed open_schema
      (one_doc "a" "x" ∷ one_doc "b" "y" ∷ []) [] nothing_indexed-Indexes

apply_delta-Indexes_example :
    Indexes bool_numbers bool_printing
      (filter_fields_from_schema open_schema)
      (put_documents (delete_all two_docs ("a" ∷ [])) (one_doc "b" "x" ∷ []))
      (apply_delta bool_numbers bool_printing two_indexed open_schema
        (one_doc "b" "x" ∷ [])
        ("a" ∷ []))
apply_delta-Indexes_example =
    Indexed.apply_delta-Indexes bool_numbers bool_printing two_docs two_indexed open_schema
      (one_doc "b" "x" ∷ []) ("a" ∷ []) two_indexed-Indexes

abbrev pub json_codec : Codec (Value ℕ)
json_codec = record {
  to_vec = λ m. none;
  from_slice = λ b. none;
  serialize = λ e. none;
  deserialize = λ b. none;
  crc32 = λ b. 0;
}

abbrev pub delete_a : WalEntry
delete_a = record { upserts = []; patches = []; deletes = "a" ∷ [] }

abbrev pub k_is_y : FilterExpr Bool
k_is_y = cmp "k" eq (text "y")

abbrev pub after_delete : QueryContext (Value ℕ)
after_delete = record {
  docs = delete_all two_docs ("a" ∷ []);
  filter_index = some two_indexed;
  tail_doc_ids = wal_touched_doc_ids (delete_a ∷ []);
  consistency = strong;
}

pub k_is_y-Fits :
    (doc : Document (Value ℕ))
    → Fits bool_numbers bool_printing (filter_fields_from_schema open_schema) doc k_is_y
unfolding filter_fields_from_schema contains
k_is_y-Fits doc =
    cmp_fits (record {
      not_id = refl;
      indexed = refl;
      scalar = refl;
      written = λ x y e. cc;
      kind = λ e. cc;
    })

pub delete_a-applied : apply_entries json_codec two_docs (delete_a ∷ []) ≡ ok (after_delete.docs)
unfolding apply_entries apply_entry into_documents patch_documents delete_all patch_all remove
    upsert_all
delete_a-applied = refl

matching_doc_ids_for_filter_strong_example :
    contains (matching_doc_ids_for_filter bool_numbers bool_printing after_delete k_is_y) "b"
    ≡ holds_at bool_numbers bool_printing k_is_y (get after_delete.docs "b")
matching_doc_ids_for_filter_strong_example =
    Candidates.matching_doc_ids_for_filter_strong bool_numbers bool_printing json_codec after_delete
      k_is_y (filter_fields_from_schema open_schema) two_indexed two_docs [] (delete_a ∷ []) "b"
      refl refl refl two_indexed-Indexes delete_a-applied reads_back (λ doc found. k_is_y-Fits doc)

-- The evaluation there is true: the test is no comparison of two failures.
b_is_found : holds_at bool_numbers bool_printing k_is_y (get after_delete.docs "b") ≡ true
unfolding get put_documents delete_all remove eval_filter
b_is_found = refl
