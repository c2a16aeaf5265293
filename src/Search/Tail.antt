-- ===== src/Search/Tail.antt =====
-- The ids that the entries after the index cursor touch (src/index/fts.rs, `wal_touched_doc_ids`).
use openpuffer.Base.{
  ℕ, ◌+◌, ◌≤◌, ◌<◌, String, ◌≡◌, Option, none, some, Bool, List, [], ◌∷◌, ◌++◌, false, ◌||◌, arith,
}
use openpuffer.Base.Logic.{if◌then◌else◌, ltb, leb, ok, ◌>>=◌, >>=-eq-ok}
use openpuffer.Base.Lists.{any}
use openpuffer.Base.Maps.{get, contains}
use openpuffer.Error.{Result}
use openpuffer.Wal.Entry.{Docs, WalEntry}
use openpuffer.Wal.Codec.{Codec}
use openpuffer.Wal.Apply.{apply_entry, into_documents, patch_documents}
use openpuffer.Wal.Effect.{get-apply_rows}
use openpuffer.Wal.Delta.{upsert_ids, patch_ids}
use openpuffer.Wal.Delta.Exact.{row_effect_untouched, contains-upsert_ids, contains-patch_ids}
use openpuffer.Meta.Types.{NamespaceMeta, saturating_add, u64_max}
use openpuffer.Meta.Valid.{IsValid}
use openpuffer.Scheduling.Compaction.{wal_replay_from}
use openpuffer.Wal.Replay.{apply_entry_ok}
use openpuffer.Index.Postings.{add_id, contains-add_id}

-- `for id in ids { set.insert(id.clone()); }`
unfoldable pub add_ids : List String → List String → List String
unfolding add_id
add_ids set [] = set
add_ids set (id ∷ ids) = add_ids (add_id set id) ids

unfoldable pub touched_from : List String → List WalEntry → List String
unfolding add_ids
touched_from set [] = set
touched_from set (e ∷ es) =
    touched_from
      (add_ids (add_ids (add_ids set e.deletes) (upsert_ids e.upserts)) (patch_ids e.patches)) es

unfoldable pub wal_touched_doc_ids : List WalEntry → List String
unfolding touched_from
wal_touched_doc_ids entries = touched_from [] entries

contains-add_ids :
    (set ids : List String) (k : String)
    → contains (add_ids set ids) k ≡ (contains set k || contains ids k)
unfolding add_ids contains
contains-add_ids set [] k = ground arith
contains-add_ids set (id ∷ ids) k =
    ground (arith, contains-add_ids (add_id set id) ids k, contains-add_id set id k)

-- The ids of the rows of an entry.
abbrev pub entry_touches : WalEntry → String → Bool
entry_touches e k =
    contains e.deletes k || contains (upsert_ids e.upserts) k || contains (patch_ids e.patches) k

-- A row of some entry has the id.
abbrev pub touches : List WalEntry → String → Bool
touches es k = any (λ e. entry_touches e k) es

contains-touched_from :
    (set : List String) (es : List WalEntry) (k : String)
    → contains (touched_from set es) k ≡ (contains set k || touches es k)
unfolding touched_from
contains-touched_from set [] k = ground arith
contains-touched_from set (e ∷ es) k =
    let set1 = add_ids set e.deletes in
    let set2 = add_ids set1 (upsert_ids e.upserts) in
    ground (
      arith,
      contains-touched_from (add_ids set2 (patch_ids e.patches)) es k,
      contains-add_ids set2 (patch_ids e.patches) k,
      contains-add_ids set1 (upsert_ids e.upserts) k,
      contains-add_ids set e.deletes k,
    )

pub contains-wal_touched_doc_ids :
    (es : List WalEntry) (k : String) → contains (wal_touched_doc_ids es) k ≡ touches es k
unfolding wal_touched_doc_ids contains
contains-wal_touched_doc_ids es k = contains-touched_from [] es k

pub touches-suffix :
    (earlier es : List WalEntry) (k : String)
    → touches (earlier ++ es) k ≡ false
    → touches es k ≡ false
touches-suffix [] es k h = h
touches-suffix (e ∷ earlier) es k h = touches-suffix earlier es k (ground arith)

-- The segments whose ids make up the tail (src/s3_batch.rs, `unindexed_wal_tail_range`).
abbrev unless_empty : ℕ → ℕ → Option (ℕ × ℕ)
unless_empty from to = if ltb to from then none else some (from, to)

unfoldable pub unindexed_wal_tail_range : {S : Type 0} → NamespaceMeta S → Option (ℕ × ℕ)
unfolding wal_replay_from saturating_add
unindexed_wal_tail_range meta =
    let next = saturating_add meta.index_cursor 1 in
    let to = meta.wal_commit_seq in
    if leb to meta.index_cursor
    then none
    else if ltb 0 meta.wal_snapshot_seq
    then (elim (wal_replay_from meta.wal_snapshot_seq to) [
      | none ↦ unless_empty next to
      | some from ↦ unless_empty from to
    ])
    else unless_empty next to

abbrev pub TailRange : {S : Type 0} → NamespaceMeta S → Option (ℕ × ℕ) → Type 0
TailRange meta none = meta.index_cursor ≡ meta.wal_commit_seq
TailRange meta (some (from, to)) =
    (meta.wal_snapshot_seq < from)
    × (from ≤ meta.index_cursor + 1)
    × (to ≡ meta.wal_commit_seq)
    × (from ≤ to)

-- With ordered cursors the tail has every entry after the index cursor up to the commit point, starts
-- after the entries of the snapshot, whose segments may be gone, and is empty only if all is indexed.
pub unindexed_wal_tail_range_covers :
    {S : Type 0} (meta : NamespaceMeta S)
    → IsValid meta
    → meta.wal_commit_seq ≤ u64_max
    → TailRange meta (unindexed_wal_tail_range meta)
unfolding unindexed_wal_tail_range
unindexed_wal_tail_range_covers meta v h = ground arith

module _ {V : Type 0} (c : Codec V) where
  -- The documents after all entries, or the error of the first that fails.
  unfoldable pub apply_entries : Docs V → List WalEntry → Result (Docs V)
  apply_entries docs [] = ok docs
  apply_entries docs (e ∷ es) =
      let (r, docs') = apply_entry c docs e in r >>= λ _. apply_entries docs' es

  apply_entry-untouched :
      (docs docs' : Docs V) (e : WalEntry) (k : String)
      → apply_entry c docs e ≡ (ok tt, docs')
      → entry_touches e k ≡ false
      → get docs' k ≡ get docs k
  unfolding into_documents patch_documents
  apply_entry-untouched docs docs' e k h t =
      let (us, ps, hu, hp, rows) = apply_entry_ok c docs e docs' h in
      ground (
        arith,
        get-apply_rows docs e.deletes us ps k,
        row_effect_untouched e.deletes us ps k (get docs k),
        contains-upsert_ids c e.upserts us k hu,
        contains-patch_ids c e.patches ps k hp,
      )

  -- Entries leave the documents that none of their rows names as they are.
  pub apply_entries-untouched :
      (docs docs' : Docs V) (es : List WalEntry) (k : String)
      → apply_entries docs es ≡ ok docs'
      → touches es k ≡ false
      → get docs' k ≡ get docs k
  unfolding apply_entries
  apply_entries-untouched docs docs' [] k h t = ground arith
  apply_entries-untouched docs docs' (e ∷ es) k h t =
      let r = (apply_entry c docs e).0 in
      let docs1 = (apply_entry c docs e).1 in
      let (u, first, rest) = >>=-eq-ok r (λ _. apply_entries docs1 es) h in
      let applied : apply_entry c docs e ≡ (ok tt, docs1) = ground arith in
      ground (
        arith,
        apply_entries-untouched docs1 docs' es k rest,
        apply_entry-untouched docs docs1 e k applied,
      )
