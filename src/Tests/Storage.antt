-- ===== src/Tests/Storage.antt =====
-- The theorems on deletes by filter and on exports at concrete inputs.
use openpuffer.Base.{ℕ, suc, ◌≡◌, refl, none, some, List, [], ◌∷◌, String, ◌||◌}
use openpuffer.Base.Logic.{ok, if◌then◌else◌}
use openpuffer.Base.Lists.{length}
use openpuffer.Base.Maps.{get, contains, is_some}
use openpuffer.Json
use openpuffer.Json.{Value}
use openpuffer.Wal.Entry.{Docs}
use openpuffer.Wal.Apply.{apply_rows, delete_all}
use openpuffer.Search.Tail.{wal_touched_doc_ids}
use openpuffer.Index.Indexed.{put_documents}
use openpuffer.Index.FilterSegment.{apply_delta}
use openpuffer.Filter.Parse.{parse_filter}
use openpuffer.Schema.Specs.{filter_fields_from_schema}
use openpuffer.Index.Matching.Exact.{holds_at}
use openpuffer.Buffer.State.{WriteStats}
use openpuffer.Storage.Writes.{resolve_ids_for_filter, Rows, Reads, prepare_write}
use openpuffer.Storage.ByFilter
use openpuffer.Storage.ByFilter.{deletes_by, Loaded}
use openpuffer.Storage.Export.{rows_of}
use openpuffer.Storage.Export.Order.{Sorted}
use openpuffer.Storage.Export.Paging
use openpuffer.Storage.Export.Paging.{export_from}
use openpuffer.Tests.Indexes.{
  bool_numbers, bool_printing, two_docs, two_indexed, json_codec, delete_a, k_is_y, after_delete,
  open_schema, two_indexed-Indexes, k_is_y-Fits, delete_a-applied, reads_back,
}

abbrev y_filter : Value ℕ
y_filter = Json.array (
    Json.cons (Json.string "k")
      (Json.cons (Json.string "Eq") (Json.cons (Json.string "y") Json.nil)))

abbrev no_rows : Rows (Value ℕ)
no_rows = record { upserts = []; patches = []; deletes = [] }

abbrev reads : Reads ℕ
reads = record {
  delete_context = ok after_delete;
  patch_context = ok after_delete;
  condition_docs = ok [];
}

abbrev one_deleted : WriteStats
one_deleted = record {
  rows_upserted = 0;
  rows_patched = 0;
  rows_deleted = 1;
  upserted_ids = none;
  deleted_ids = none;
  rows_remaining = none;
}

abbrev b_deleted : Rows (Value ℕ)
b_deleted = record { upserts = []; patches = []; deletes = "b" ∷ [] }

prepared :
    prepare_write bool_numbers bool_printing 5 reads
      (deletes_by bool_numbers bool_printing y_filter no_rows)
    ≡ ok (b_deleted, one_deleted)
unfolding prepare_write wal_touched_doc_ids delete_all put_documents apply_delta
prepared = refl

-- A filter that finds one document twice is within a cap of one.
once :
    resolve_ids_for_filter bool_numbers bool_printing (ok after_delete) (
      Json.array (
        Json.cons
          (Json.string "Or")
          (Json.cons (Json.array (Json.cons y_filter (Json.cons y_filter Json.nil))) Json.nil)))
    ≡ ok ("b" ∷ [])
unfolding resolve_ids_for_filter wal_touched_doc_ids delete_all put_documents apply_delta
once = refl

y_parsed : parse_filter bool_numbers y_filter ≡ ok k_is_y
unfolding parse_filter
y_parsed = refl

after_delete-Loaded :
    Loaded bool_numbers bool_printing json_codec
      (filter_fields_from_schema open_schema)
      after_delete
      two_indexed
      two_docs
      []
      (delete_a ∷ [])
after_delete-Loaded = record {
  segment = refl;
  is_strong = refl;
  tail_ids = refl;
  holds = two_indexed-Indexes;
  replayed = delete_a-applied;
}

delete_by_filter_removes_example :
    get (apply_rows after_delete.docs b_deleted.deletes b_deleted.upserts b_deleted.patches) "b" ≡ (
      if contains [] "b" || holds_at bool_numbers bool_printing k_is_y (get after_delete.docs "b")
      then none
      else get after_delete.docs "b")
delete_by_filter_removes_example =
    ByFilter.delete_by_filter_removes bool_numbers bool_printing json_codec 5 reads y_filter no_rows
      b_deleted one_deleted k_is_y after_delete (filter_fields_from_schema open_schema) two_indexed
      two_docs [] (delete_a ∷ []) "b" prepared y_parsed refl after_delete-Loaded reads_back
      (λ doc found. k_is_y-Fits doc) refl refl

abbrev three_docs : Docs ℕ
three_docs =
    ("c", record { id = "c"; attributes = ("n", 3) ∷ [] })
    ∷ ("a", record { id = "a"; attributes = [] })
    ∷ ("b", record { id = "b"; attributes = ("n", 2) ∷ [] })
    ∷ []

-- Pages of two rows.
export_from_complete_example :
    (ids : List String) × (export_from three_docs 7 2 (suc (length three_docs)) none
      ≡ some (rows_of three_docs ids))
    × Sorted ids
    × (length (rows_of three_docs ids) ≡ length three_docs)
    × ((k : String) → contains ids k ≡ is_some (get three_docs k))
unfolding contains
export_from_complete_example =
    Paging.export_from_complete three_docs 7 2 (refl, (refl, (refl, tt))) (refl, (refl, (refl, tt)))
