-- ===== src/View/Load.antt =====
-- `load`, `build_doc_last_wal_seq` and `catch_up` of src/view.rs.
use openpuffer.Base.{
  ℕ, zero, suc, ◌-◌, String, Option, none, some, Bool, true, false, List, [], ◌∷◌,
}
use openpuffer.Base.Logic.{ok, err, ◌>>=◌, if◌then◌else◌, leb, ltb}
use openpuffer.Base.Maps.{StrMap, insert, keys}
use openpuffer.Error.{Result}
use openpuffer.Wal.Entry.{Docs}
use openpuffer.Wal.Codec.{Codec}
use openpuffer.Wal.Format.{WalCorruptPolicy}
use openpuffer.Wal.Apply.{apply_entry}
use openpuffer.Meta.Types.{NamespaceMeta, SchemaOps, saturating_add}
use openpuffer.Namespace.Store.{Store, fetch_meta}
use openpuffer.Namespace.Load.{read_wal_entry, load_docs_at_wal_commit}
use openpuffer.View.State.{NamespaceView, empty, update_doc_wal_seq_map}

-- `for id in docs.keys() { map.insert(id.clone(), seq); }`
unfoldable pub seed_ids : StrMap ℕ → ℕ → List String → StrMap ℕ
seed_ids map seq [] = map
seed_ids map seq (id ∷ ids) = seed_ids (insert map id seq) seq ids

module _ {S V : Type 0} (c : Codec V) where
  -- `n` segments from `seq` on.
  unfoldable pub track_count : Store S V → ℕ → ℕ → StrMap ℕ → Result (StrMap ℕ)
  track_count s zero seq map = ok map
  track_count s (suc n) seq map = read_wal_entry c s seq >>= λ entry.
      track_count s n (suc seq) (update_doc_wal_seq_map c map seq entry)

  unfoldable pub build_doc_last_wal_seq :
      Store S V → NamespaceMeta S → Option (Docs V) → Result (StrMap ℕ)
  unfolding seed_ids track_count saturating_add
  build_doc_last_wal_seq s meta seed_docs =
      let seeded =
        if ltb 0 meta.wal_snapshot_seq
        then (elim seed_docs [
          | none ↦ []
          | some docs ↦ seed_ids [] meta.wal_snapshot_seq (keys docs)
        ])
        else [] in
      let from =
        if ltb 0 meta.wal_snapshot_seq then saturating_add meta.wal_snapshot_seq 1 else 1 in
      track_count s (suc meta.wal_commit_seq - from) from seeded

  -- `load` once the metadata is there, and the reload of `catch_up`.
  unfoldable pub load_at :
      Store S V → WalCorruptPolicy → NamespaceMeta S → ℕ → Result (NamespaceView S V)
  unfolding build_doc_last_wal_seq
  load_at s policy meta etag = load_docs_at_wal_commit c s policy meta >>= λ loaded.
      build_doc_last_wal_seq s meta (some loaded.0) >>= λ seqs. ok (record {
        docs = loaded.0;
        meta = meta;
        meta_etag = some etag;
        last_applied_wal_seq = loaded.1;
        doc_last_wal_seq = seqs;
      })

  unfoldable pub load : SchemaOps S → Store S V → WalCorruptPolicy → Result (NamespaceView S V)
  unfolding load_at fetch_meta
  load ops s policy = elim (fetch_meta s) [
    | none ↦ ok (empty ops)
    | some (meta, etag) ↦ load_at s policy meta etag
  ]

  -- The rest of a round of `catch_up`, once the entry is applied; `k` is the rest of the loop.
  abbrev pub advance_after :
      NamespaceView S V
      → Result (Unit {0}) × Docs V
      → (NamespaceView S V → Result (Unit {0}) × NamespaceView S V)
      → Result (Unit {0}) × NamespaceView S V
  advance_after v (ok _, docs) k = k (record v { docs = docs })
  advance_after v (err e, docs) k = (err e, record v { docs = docs })

  -- `n` segments from `seq` on; what was applied before an error stays in the view.
  unfoldable pub advance_count :
      Store S V → ℕ → ℕ → NamespaceView S V → Result (Unit {0}) × NamespaceView S V
  advance_count s zero seq v = (ok tt, v)
  advance_count s (suc n) seq v = elim (read_wal_entry c s seq) [
    | err e ↦ (err e, v)
    | ok entry ↦
        advance_after
          (record v { doc_last_wal_seq = update_doc_wal_seq_map c v.doc_last_wal_seq seq entry })
          (apply_entry c v.docs entry) (λ v'. advance_count s n (suc seq) v')
  ]

  -- The end of `catch_up`.
  abbrev pub advanced :
      NamespaceMeta S → ℕ → Result (Unit {0}) × NamespaceView S V → Result Bool × NamespaceView S V
  advanced meta etag (err e, v) = (err e, v)
  advanced meta etag (ok _, v) = (
    ok true,
    record v { last_applied_wal_seq = meta.wal_commit_seq; meta = meta; meta_etag = some etag },
  )

  -- The reload: `self.docs` is replaced before the sequence numbers are read.
  abbrev pub reload :
      Store S V
      → WalCorruptPolicy
      → NamespaceMeta S
      → ℕ
      → NamespaceView S V
      → Result Bool × NamespaceView S V
  reload s policy meta etag v = elim (load_docs_at_wal_commit c s policy meta) [
    | err e ↦ (err e, v)
    | ok (docs, last) ↦ elim (build_doc_last_wal_seq s meta (some docs)) [
      | err e ↦ (err e, record v { docs = docs })
      | ok seqs ↦ (
        ok true,
        record {
          docs = docs;
          meta = meta;
          meta_etag = some etag;
          last_applied_wal_seq = last;
          doc_last_wal_seq = seqs;
        },
      )
    ]
  ]

  -- Whether the view changed, or an error, with the view.
  unfoldable pub catch_up :
      Store S V → WalCorruptPolicy → NamespaceView S V → Result Bool × NamespaceView S V
  unfolding fetch_meta advance_count build_doc_last_wal_seq saturating_add
  catch_up s policy v = elim (fetch_meta s) [
    | none ↦ (ok false, v)
    | some (meta, etag) ↦
        if leb meta.wal_commit_seq v.last_applied_wal_seq
        then (ok false, record v { meta = meta; meta_etag = some etag })
        else if ltb v.last_applied_wal_seq meta.wal_snapshot_seq
        then reload s policy meta etag v
        else let from = saturating_add v.last_applied_wal_seq 1 in
          advanced meta etag (advance_count s (suc meta.wal_commit_seq - from) from v)
  ]
