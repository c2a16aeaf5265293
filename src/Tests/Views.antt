-- ===== src/Tests/Views.antt =====
-- The theorems on views, their cache, filters and limits at concrete inputs.
use openpuffer.Base.{
  ℕ, ◌≡◌, ◌≤◌, ◌<◌, ◌⊎◌, refl, String, none, some, true, false, List, [], ◌∷◌, ◌++◌, arith, text_eq,
}
use openpuffer.Base.Logic.{ok, err, ltb, if◌then◌else◌}
use openpuffer.Base.Lists.{length, any}
use openpuffer.Base.Maps.{filter_map_entries, get, insert, contains, contains_key}
use openpuffer.Error.{message}
use openpuffer.Wal.Entry.{Document, Docs, Bytes}
use openpuffer.Wal.Apply.{
  apply_entry, into_documents, patch_documents, patch_all, upsert_all, delete_all,
}
use openpuffer.Scheduling.Compaction.{wal_replay_from}
use openpuffer.Wal.Format.{decode_segment_with_policy, from_le_bytes, WalCorruptPolicy}
use openpuffer.Meta.Types.{NamespaceMeta, default_meta}
use openpuffer.Meta.Valid
use openpuffer.Namespace.Store.{Store}
use openpuffer.Namespace.Load.{
  replay_wal_range, replay_count, replay_one, read_wal_entry, load_docs_at_wal_commit,
}
use openpuffer.View.State.{
  touch_patched, set_upserted, remove_ids, NamespaceView, docs_for_query, update_doc_wal_seq_map,
}
use openpuffer.View.Load.{load_at}
use openpuffer.View.Tracked
use openpuffer.View.Eventual
use openpuffer.View.Cache.{ViewCache, insert_view}
use openpuffer.View.Cache.Bounded
use openpuffer.Json
use openpuffer.Json.{Value}
use openpuffer.Filter.Syntax.{Numbers, equal}
use openpuffer.Limits
use openpuffer.Limits.{
  validate_namespace_name, validate_s3_path_segment, cap_filter_batch, has_twice, has_char,
  is_control,
}
use openpuffer.Tests.Fixtures.{test_codec, test_schema_ops, upsert_entry, upsert_bytes}

abbrev segment_a : Bytes
segment_a = 1 ∷ (upsert_bytes 5 ++ 5 ∷ 0 ∷ 0 ∷ 0 ∷ [])

abbrev segment_b : Bytes
segment_b = 1 ∷ 6 ∷ 0 ∷ (upsert_bytes 0 ++ 6 ∷ 0 ∷ 0 ∷ 0 ∷ [])

-- Two committed entries of two documents, the first of them in the index.
abbrev two_meta : NamespaceMeta ℕ
two_meta = record (default_meta test_schema_ops) { wal_commit_seq = 2; index_cursor = 1 }

abbrev two : Store ℕ ℕ
two = record {
  meta = some two_meta;
  etag = 2;
  wal = λ seq. if ltb seq 2 then some segment_a else some segment_b;
  snapshot = none;
}

abbrev doc_five : Document ℕ
doc_five = record { id = "a"; attributes = ("n", 5) ∷ [] }

abbrev doc_six : Document ℕ
doc_six = record { id = "b"; attributes = ("n", 6) ∷ [] }

abbrev two_view : NamespaceView ℕ ℕ
two_view = record {
  docs = ("b", doc_six) ∷ ("a", doc_five) ∷ [];
  meta = two_meta;
  meta_etag = some 2;
  last_applied_wal_seq = 2;
  doc_last_wal_seq = ("b", 2) ∷ ("a", 1) ∷ [];
}

two-IsValid : Valid.IsValid two_meta
two-IsValid = record { indexed = omega arith; compacted = omega arith; columns = omega arith }

two_load : load_at test_codec two WalCorruptPolicy.fail two_meta 2 ≡ ok two_view
unfolding load_at load_docs_at_wal_commit wal_replay_from replay_wal_range replay_count replay_one
    decode_segment_with_policy from_le_bytes apply_entry into_documents patch_documents
    read_wal_entry patch_all update_doc_wal_seq_map upsert_all touch_patched insert set_upserted
    delete_all remove_ids
two_load = refl

docs_for_query-eventual_example :
    (base : Docs ℕ) × (load_docs_at_wal_commit test_codec two WalCorruptPolicy.fail
        (record two_meta { wal_commit_seq = 1 })
      ≡ ok (base, 1))
    × (get base "a" ≡ some doc_five)
unfolding docs_for_query get filter_map_entries
docs_for_query-eventual_example =
    Eventual.docs_for_query-eventual test_codec two WalCorruptPolicy.fail two_meta 2 two_view "a"
      doc_five two-IsValid (omega arith) two_load refl

step-Tracked_example :
    contains_key (update_doc_wal_seq_map test_codec [] 1 (upsert_entry 5)) "a"
    ≡ contains_key (("a", doc_five) ∷ []) "a"
unfolding apply_entry contains_key get into_documents patch_documents patch_all upsert_all insert
    delete_all
step-Tracked_example =
    Tracked.step-Tracked test_codec [] (("a", doc_five) ∷ []) [] 1 (upsert_entry 5) refl (λ k. refl)
      "a"

-- A full cache of two views.
abbrev full : ViewCache ℕ
full = record { capacity = 2; views = ("b", 20) ∷ ("a", 10) ∷ []; order = "a" ∷ "b" ∷ [] }

full-IsValid : Bounded.IsValid full
unfolding contains contains_key get
full-IsValid = record {
  room = omega arith;
  distinct = (refl, (refl, tt));
  names = λ k. ground arith;
  bounded = omega arith;
}

insert_view-IsValid_example : Bounded.IsValid (insert_view full "c" 30)
insert_view-IsValid_example = Bounded.insert_view-IsValid full "c" 30 full-IsValid

insert_view-evicts_example :
    (gone rest : List String) × ("a" ∷ "b" ∷ [] ≡ gone ++ rest)
    × ((insert_view full "c" 30).order ≡ rest ++ "c" ∷ [])
    × ((gone ≡ []) ⊎ (2 ≤ length full.views))
    × ((k : String)
        → get (insert_view full "c" 30).views k
          ≡ (if text_eq "c" k then some 30 else if contains gone k then none else get full.views k))
unfolding contains_key get
insert_view-evicts_example = Bounded.insert_view-evicts full "c" 30 full-IsValid refl

-- Numbers that are all equal.
abbrev test_numbers : Numbers ℕ ℕ
test_numbers = record {
  as_f64 = λ n. some n;
  float_eq = λ a b. if ltb a b then false else if ltb b a then false else true;
  partial_cmp = λ a b. some equal;
  zero_float = 0;
  one_float = 1;
  text_cmp = λ a b. equal;
}

abbrev json_doc : Document (Value ℕ)
json_doc = record { id = "a"; attributes = ("n", Json.number 5) ∷ [] }

-- The name `a-b`.
abbrev name : List ℕ
name = 97 ∷ 45 ∷ 98 ∷ []

validate_namespace_name-safe_example :
    (0 < length name)
    × (length name ≤ 128)
    × (has_char 47 name ≡ false)
    × (has_char 92 name ≡ false)
    × (any is_control name ≡ false)
    × (validate_s3_path_segment name
        ≡ (if has_twice 46 name then err (message "must not contain '..'") else ok tt))
unfolding validate_namespace_name
validate_namespace_name-safe_example = Limits.validate_namespace_name-safe name refl
