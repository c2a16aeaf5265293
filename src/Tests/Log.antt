-- ===== src/Tests/Log.antt =====
-- The theorems on the log (src/wal.rs) at concrete inputs.
use openpuffer.Base.{ℕ, ◌≡◌, ◌≢◌, refl, none, some, [], ◌∷◌, ◌++◌, arith, inr}
use openpuffer.Base.Logic.{ok, err}
use openpuffer.Base.Maps.{get, remove, insert, contains}
use openpuffer.Error.{wal_corrupt, crc_mismatch}
use openpuffer.Wal.Entry.{Document, Docs, Bytes}
use openpuffer.Wal.Format.{encode, decode_segment, to_le_bytes}
use openpuffer.Wal.RoundTrip
use openpuffer.Wal.Apply.{
  into_documents, patch_documents, patch_all, upsert_all, delete_all, apply_rows, apply_entry,
}
use openpuffer.Wal.Effect.{row_effect}
use openpuffer.Wal.Effect
use openpuffer.Wal.Replay
use openpuffer.Wal.Batching
use openpuffer.Wal.Batching.{Write, apply_write, merge_writes}
use openpuffer.Wal.Delta.{collect_entry, note_ids, note_id, Collected, collect_index_delta}
use openpuffer.Wal.Delta.Exact
use openpuffer.Wal.Delta.Exact.{delta_effect}
use openpuffer.Tests.Fixtures.{test_codec, test_laws, upsert_entry, delete_entry, upsert_bytes}

abbrev doc_a : ℕ → Document ℕ
doc_a v = record { id = "a"; attributes = ("n", v) ∷ [] }

abbrev doc_b : Document ℕ
doc_b = record { id = "b"; attributes = ("n", 8) ∷ [] }

abbrev stored : Docs ℕ
stored = ("a", doc_a 1) ∷ ("b", doc_b) ∷ []

abbrev segment : Bytes
segment = 1 ∷ (upsert_bytes 5 ++ 5 ∷ 0 ∷ 0 ∷ 0 ∷ [])

segment-encode : encode test_codec (upsert_entry 5) ≡ ok segment
unfolding encode to_le_bytes
segment-encode = refl

decode_segment-encode_example : decode_segment test_codec segment (some 3) ≡ ok (upsert_entry 5)
decode_segment-encode_example =
    RoundTrip.decode_segment-encode test_codec test_laws (upsert_entry 5) segment (some 3)
      segment-encode

decode_segment-crc_mismatch_example :
    decode_segment test_codec (1 ∷ (upsert_bytes 5 ++ to_le_bytes 6)) (some 3)
    ≡ err (wal_corrupt (some 3) crc_mismatch)
unfolding to_le_bytes
decode_segment-crc_mismatch_example =
    RoundTrip.decode_segment-crc_mismatch test_codec (upsert_bytes 5) 6 (some 3) (omega arith)
      (omega arith) (omega arith) refl

get-apply_rows_example :
    get (apply_rows stored ("b" ∷ []) (doc_a 5 ∷ []) (doc_a 6 ∷ [])) "a"
    ≡ row_effect ("b" ∷ []) (doc_a 5 ∷ []) (doc_a 6 ∷ []) "a" (get stored "a")
get-apply_rows_example = Effect.get-apply_rows stored ("b" ∷ []) (doc_a 5 ∷ []) (doc_a 6 ∷ []) "a"

abbrev after_delete : Docs ℕ
after_delete = ("b", doc_b) ∷ []

apply_entry_twice_example :
    (docs : Docs ℕ) × (apply_entry test_codec after_delete delete_entry ≡ (ok tt, docs))
    × Effect.SameDocs docs after_delete
unfolding apply_entry into_documents patch_documents patch_all upsert_all delete_all remove
apply_entry_twice_example =
    Replay.apply_entry_twice test_codec stored delete_entry after_delete refl

abbrev upsert_a : Write ℕ
upsert_a = record { upserts = doc_a 5 ∷ []; patches = []; deletes = [] }

abbrev patch_a : Write ℕ
patch_a = record { upserts = []; patches = doc_a 6 ∷ []; deletes = "b" ∷ [] }

abbrev delete_a : Write ℕ
delete_a = record { upserts = []; patches = []; deletes = "a" ∷ [] }

group_commit_example :
    get (apply_write stored (merge_writes upsert_a patch_a)) "a"
    ≡ get (apply_write (apply_write stored upsert_a) patch_a) "a"
unfolding contains
group_commit_example = Batching.group_commit stored upsert_a patch_a "a" refl

group_commit_loses_delete_example :
    (get (apply_write (apply_write stored upsert_a) delete_a) "a" ≡ none)
    × (get (apply_write stored (merge_writes upsert_a delete_a)) "a" ≢ none)
unfolding contains
group_commit_loses_delete_example =
    Batching.group_commit_loses_delete stored upsert_a delete_a "a" refl refl refl

abbrev collected : Collected ℕ
collected = record { baseline = after_delete; upsert_map = ("a", doc_a 5) ∷ []; deletes = "a" ∷ [] }

collected_index_delta :
    collect_index_delta test_codec stored (upsert_entry 5 ∷ delete_entry ∷ []) ≡ ok collected
unfolding collect_index_delta collect_entry apply_entry into_documents patch_documents patch_all
    note_ids upsert_all note_id delete_all get remove insert
collected_index_delta = refl

collect_index_delta_exact_example : delta_effect stored collected "b" ≡ some doc_b
unfolding get
collect_index_delta_exact_example =
    Exact.collect_index_delta_exact test_codec stored (upsert_entry 5 ∷ delete_entry ∷ []) collected
      "b" collected_index_delta (inr refl)

collect_index_delta_resurrects_example :
    (get after_delete "a" ≡ none) × (delta_effect stored collected "a" ≢ none)
unfolding contains
collect_index_delta_resurrects_example =
    Exact.collect_index_delta_resurrects test_codec stored (upsert_entry 5) delete_entry collected
      "a" collected_index_delta refl refl refl
