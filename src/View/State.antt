-- ===== src/View/State.antt =====
-- `NamespaceView` of src/view.rs: the documents of a namespace up to a log entry, with the last entry
-- that touched each of them.
use openpuffer.Base.{ℕ, String, Option, none, some, Bool, ◌&&◌, List, [], ◌∷◌}
use openpuffer.Base.Logic.{ok, err, if◌then◌else◌, leb, ltb}
use openpuffer.Base.Maps.{StrMap, get, insert, remove, contains_key, filter_map_entries}
use openpuffer.Error.{Result}
use openpuffer.Wal.Entry.{Document, Docs, WalEntry}
use openpuffer.Wal.Codec.{Codec}
use openpuffer.Wal.Apply.{apply_entry, into_documents}
use openpuffer.Wal.Delta.{patch_ids}
use openpuffer.Meta.Types.{NamespaceMeta, SchemaOps, default_meta}

pub record NamespaceView (S V : Type 0) : Type 0 where
  pub docs : Docs V
  pub meta : NamespaceMeta S
  pub meta_etag : Option ℕ
  pub last_applied_wal_seq : ℕ
  pub doc_last_wal_seq : StrMap ℕ

-- `map.get(id).copied().unwrap_or(0)`
abbrev pub seq_or_zero : Option ℕ → ℕ
seq_or_zero none = 0
seq_or_zero (some n) = n

unfoldable pub remove_ids : StrMap ℕ → List String → StrMap ℕ
remove_ids map [] = map
remove_ids map (id ∷ ids) = remove_ids (remove map id) ids

unfoldable pub touch_patched : StrMap ℕ → ℕ → List String → StrMap ℕ
touch_patched map seq [] = map
touch_patched map seq (id ∷ ids) =
    touch_patched (if contains_key map id then insert map id seq else map) seq ids

module _ {V : Type 0} where
  unfoldable pub set_upserted : StrMap ℕ → ℕ → List (Document V) → StrMap ℕ
  set_upserted map seq [] = map
  set_upserted map seq (d ∷ ds) = set_upserted (insert map d.id seq) seq ds

  -- `if let Ok(docs) = ..`: upserts that do not decode are passed over.
  abbrev pub set_decoded : StrMap ℕ → ℕ → Result (List (Document V)) → StrMap ℕ
  set_decoded map seq (ok docs) = set_upserted map seq docs
  set_decoded map seq (err e) = map

module _ {V : Type 0} (c : Codec V) where
  unfoldable pub update_doc_wal_seq_map : StrMap ℕ → ℕ → WalEntry → StrMap ℕ
  update_doc_wal_seq_map map seq entry =
      touch_patched (set_decoded (remove_ids map entry.deletes) seq (into_documents c entry)) seq
        (patch_ids entry.patches)

module _ {S V : Type 0} where
  unfoldable pub empty : SchemaOps S → NamespaceView S V
  empty ops = record {
    docs = [];
    meta = default_meta ops;
    meta_etag = none;
    last_applied_wal_seq = 0;
    doc_last_wal_seq = [];
  }

  -- With eventual consistency the documents that the index does not have yet are left out.
  unfoldable pub docs_for_query : NamespaceView S V → Bool → Docs V
  docs_for_query v skip_wal_tail =
      if skip_wal_tail && ltb v.meta.index_cursor v.meta.wal_commit_seq
      then filter_map_entries
          (λ id _. leb (seq_or_zero (get v.doc_last_wal_seq id)) v.meta.index_cursor) v.docs
      else v.docs

module _ {S V : Type 0} (c : Codec V) where
  -- The rest of `apply_committed`, once the entry is applied to the documents.
  abbrev pub committed_after :
      NamespaceView S V → ℕ → Result (Unit {0}) × Docs V → Result (Unit {0}) × NamespaceView S V
  committed_after v seq (err e, docs) = (err e, record v { docs = docs })
  committed_after v seq (ok _, docs) = (
    ok tt,
    record v {
      docs = docs;
      last_applied_wal_seq = seq;
      meta =
          if ltb v.meta.wal_commit_seq seq then record v.meta { wal_commit_seq = seq } else v.meta;
    },
  )

  unfoldable pub apply_committed :
      NamespaceView S V → ℕ → WalEntry → Result (Unit {0}) × NamespaceView S V
  unfolding update_doc_wal_seq_map
  apply_committed v seq entry =
      committed_after
        (record v { doc_last_wal_seq = update_doc_wal_seq_map c v.doc_last_wal_seq seq entry }) seq
        (apply_entry c v.docs entry)
