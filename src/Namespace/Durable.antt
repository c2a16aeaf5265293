-- ===== src/Namespace/Durable.antt =====
-- Compaction of the log (src/wal_compaction.rs) against the documents that a load finds
-- (src/namespace.rs).
use openpuffer.Base.{
  ℕ, zero, suc, ◌-◌, ◌≤◌, ◌<◌, ◌≡◌, refl, sym, ap, ◌∙◌, Option, none, some, true, false, List, [],
  ◌∷◌, arith, inl, inr,
}
use openpuffer.Base.Logic.{ok, err, ltb, ◌==◌, Bool-cases, Option-cases}
use openpuffer.Base.Maps.{SameMap}
use openpuffer.Error.{Result, message}
use openpuffer.Wal.Entry.{Docs}
use openpuffer.Wal.Codec.{Codec}
use openpuffer.Wal.Format.{WalCorruptPolicy}
use openpuffer.Meta.Types.{u64_max, NamespaceMeta, saturating_add}
use openpuffer.Meta.Commit.{meta_after_compaction}
use openpuffer.Meta.Valid.{IsValid}
use openpuffer.Scheduling.Compaction.{
  should_compact_wal, needs_wal_compaction, wal_seqs_to_delete, wal_compact_keep,
}
use openpuffer.Namespace.Store.{
  Store, fetch_meta, from_docs, into_docs, read_wal_segment, delete_wal, delete_wals, put_meta,
  cas_meta,
}
use openpuffer.Namespace.Load.{
  replay_one, replay_count, replay_wal_range, load_docs_at_wal_commit, docs_at_index_cursor,
  cursor_baseline, compact_attempt, compact_after, compact_round, compact_rounds, maybe_compact_wal,
}
use openpuffer.Namespace.History.{
  loaded, loaded-ok, and_then-ok, from_count, at_snapshot, at_commit,
  load_docs_at_wal_commit-at_commit,
}
use openpuffer.Namespace.Keyed.{Keyed, Keyed-upsert_all, Keyed-replay_count, into_docs-from_docs}

module _ {S V : Type 0} (c : Codec V) where
  -- The snapshot in the store is the one that the metadata names.
  abbrev pub SnapshotMatches : Store S V → NamespaceMeta S → Type 0
  SnapshotMatches s meta = elim s.snapshot [
    | none ↦ meta.wal_snapshot_seq ≡ 0
    | some snap ↦ (snap.seq ≡ meta.wal_snapshot_seq) × (0 < snap.seq)
  ]

  delete_wals-keeps :
      (s : Store S V) (seqs : List ℕ)
      → ((delete_wals s seqs).snapshot ≡ s.snapshot) × ((delete_wals s seqs).meta ≡ s.meta)
  unfolding delete_wals delete_wal
  delete_wals-keeps s [] = (refl, refl)
  delete_wals-keeps s (q ∷ seqs) = delete_wals-keeps (delete_wal s q) seqs

  docs_at_index_cursor-replay :
      (s : Store S V) (policy : WalCorruptPolicy) (docs docs' : Docs V) (from cursor : ℕ)
      → 0 < cursor
      → from < cursor
      → replay_count c s policy (cursor - from) (suc from) docs ≡ (ok tt, docs')
      → replay_wal_range c s policy docs (suc from) cursor ≡ (ok tt, docs')
  unfolding replay_wal_range
  docs_at_index_cursor-replay s policy docs docs' from cursor l m h =
      ground (arith, from_count from cursor)

  docs_at_index_cursor-at_commit :
      (s : Store S V) (policy : WalCorruptPolicy) (meta : NamespaceMeta S) (docs : Docs V)
      → SnapshotMatches s meta
      → meta.wal_snapshot_seq < meta.index_cursor
      → meta.index_cursor < u64_max
      → at_commit c s policy meta meta.index_cursor ≡ (ok tt, docs)
      → docs_at_index_cursor c s policy meta.index_cursor ≡ ok docs
  unfolding docs_at_index_cursor cursor_baseline saturating_add
  docs_at_index_cursor-at_commit s policy meta docs m l u h =
      let (start, a, r) =
        and_then-ok (at_snapshot c s policy meta)
          (λ d.
            replay_count c s policy (meta.index_cursor - meta.wal_snapshot_seq)
              (suc meta.wal_snapshot_seq) d)
          docs h in
      let w =
        docs_at_index_cursor-replay s policy start docs meta.wal_snapshot_seq meta.index_cursor
          (omega arith) l r in
      elim (Option-cases s.snapshot) [ inl e ↦ ground arith | inr (x, e) ↦ ground arith ]

  Keyed-at_commit :
      (s : Store S V) (policy : WalCorruptPolicy) (meta : NamespaceMeta S) (n : ℕ) (docs : Docs V)
      → at_commit c s policy meta n ≡ (ok tt, docs)
      → Keyed docs
  unfolding into_docs
  Keyed-at_commit s policy meta n docs h =
      let snap = meta.wal_snapshot_seq in
      let (start, a, r) =
        and_then-ok (at_snapshot c s policy meta)
          (λ d. replay_count c s policy (n - snap) (suc snap) d) docs h in
      let from_start = λ (e : replay_count c s policy snap 1 [] ≡ (ok tt, start)).
        Keyed-replay_count c s policy snap 1 [] start tt e in
      Keyed-replay_count c s policy (n - snap) (suc snap) start docs
        (elim (Bool-cases (ltb 0 snap)) [
          | inr e ↦ let z : start ≡ [] = ground arith in rw z tt
          | inl e ↦ elim (Option-cases s.snapshot) [
            | inl x ↦ from_start (ground arith)
            | inr (x, g) ↦ elim (Bool-cases (x.seq == snap)) [
              | inr n' ↦ from_start (ground arith)
              | inl y ↦
                  let z : start ≡ into_docs x = ground arith in rw z (Keyed-upsert_all [] x.docs tt)
            ]
          ]
        ])
        r

  -- The store and the metadata after a compaction that nobody disturbs.
  abbrev pub compacted : Store S V → NamespaceMeta S → Docs V → Store S V
  compacted s meta docs =
      delete_wals
        (put_meta (record s { snapshot = some (from_docs meta.index_cursor docs) })
          (meta_after_compaction meta))
        (wal_seqs_to_delete meta.index_cursor wal_compact_keep)

  compact_round-compacted :
      (s : Store S V) (policy : WalCorruptPolicy) (meta : NamespaceMeta S) (docs : Docs V)
      (retry : Option (Store S V → Result (Unit {0}) × Store S V))
      → s.meta ≡ some meta
      → needs_wal_compaction meta ≡ true
      → docs_at_index_cursor c s policy meta.index_cursor ≡ ok docs
      → compact_round c s policy (λ x. x) retry ≡ (ok tt, compacted s meta docs)
  unfolding compact_round compact_attempt compact_after fetch_meta cas_meta
  compact_round-compacted s policy meta docs retry m n d = ground arith

  compacted-load :
      (s : Store S V) (policy : WalCorruptPolicy) (meta : NamespaceMeta S) (docs : Docs V)
      → 0 < meta.index_cursor
      → meta.index_cursor ≡ meta.wal_commit_seq
      → at_commit c s policy meta meta.wal_commit_seq ≡ (ok tt, docs)
      → at_commit c (compacted s meta docs) policy (meta_after_compaction meta) meta.wal_commit_seq
        ≡ (ok tt, into_docs (from_docs meta.index_cursor docs))
  unfolding meta_after_compaction put_meta replay_count from_docs
  compacted-load s policy meta docs l e h =
      let kept = record s { snapshot = some (from_docs meta.index_cursor docs) } in
      let (a, b) =
        delete_wals-keeps (put_meta kept (meta_after_compaction meta))
          (wal_seqs_to_delete meta.index_cursor wal_compact_keep) in
      let z : meta.wal_commit_seq - meta.index_cursor ≡ 0 = omega arith in ground arith

  maybe_compact_wal-compacted :
      (s : Store S V) (policy : WalCorruptPolicy) (meta : NamespaceMeta S) (docs : Docs V)
      → s.meta ≡ some meta
      → needs_wal_compaction meta ≡ true
      → docs_at_index_cursor c s policy meta.index_cursor ≡ ok docs
      → maybe_compact_wal c policy (λ _ x. x) s ≡ (ok tt, compacted s meta docs)
  unfolding maybe_compact_wal compact_rounds
  maybe_compact_wal-compacted s policy meta docs m n d =
      compact_round-compacted s policy meta docs
        (some (λ s'. compact_rounds c 6 policy (λ _ x. x) s')) m n d

  needed-cursor :
      (meta : NamespaceMeta S)
      → needs_wal_compaction meta ≡ true
      → IsValid meta
      → (meta.wal_snapshot_seq < meta.index_cursor)
        × (meta.index_cursor ≡ meta.wal_commit_seq)
        × (0 < meta.index_cursor)
  unfolding needs_wal_compaction should_compact_wal
  needed-cursor meta n valid = let i = valid.indexed in ground arith

  indexed :
      (meta : NamespaceMeta S)
      → IsValid meta
      → (meta_after_compaction meta).wal_snapshot_seq ≤ (meta_after_compaction meta).wal_commit_seq
  unfolding meta_after_compaction
  indexed meta valid = valid.indexed

  not_needed :
      (s : Store S V) (policy : WalCorruptPolicy) (meta : NamespaceMeta S)
      → s.meta ≡ some meta
      → needs_wal_compaction meta ≡ false
      → maybe_compact_wal c policy (λ _ x. x) s ≡ (ok tt, s)
  unfolding maybe_compact_wal compact_rounds compact_round fetch_meta
  not_needed s policy meta m n = ground arith

  -- A compaction that nobody disturbs succeeds wherever the documents can be loaded, and a load after it
  -- finds the same documents, at the same commit point, although the segments before are gone.
  pub maybe_compact_wal-SameMap :
      (s : Store S V) (policy : WalCorruptPolicy) (meta : NamespaceMeta S) (docs : Docs V)
      → s.meta ≡ some meta
      → IsValid meta
      → SnapshotMatches s meta
      → meta.wal_commit_seq < u64_max
      → load_docs_at_wal_commit c s policy meta ≡ ok (docs, meta.wal_commit_seq)
      → (s' : Store S V) × (meta' : NamespaceMeta S) × (docs' : Docs V) × (maybe_compact_wal c
            policy
            (λ _ x. x)
            s
          ≡ (ok tt, s'))
        × (s'.meta ≡ some meta')
        × (load_docs_at_wal_commit c s' policy meta' ≡ ok (docs', meta.wal_commit_seq))
        × SameMap docs' docs
  unfolding put_meta meta_after_compaction
  maybe_compact_wal-SameMap s policy meta docs m valid matches u h =
      elim (Bool-cases (needs_wal_compaction meta)) [
        | inr n ↦ (s, meta, docs, not_needed s policy meta m n, m, h, λ k. refl)
        | inl n ↦
            let (l, e, p) = needed-cursor meta n valid in
            let at =
              loaded-ok meta.wal_commit_seq (at_commit c s policy meta meta.wal_commit_seq) docs
                meta.wal_commit_seq
                (sym (load_docs_at_wal_commit-at_commit c s policy meta (omega arith) u) ∙ h) in
            let found =
              docs_at_index_cursor-at_commit s policy meta docs matches l (omega arith)
                (rw e (at.0)) in
            let (_, b) =
              delete_wals-keeps
                (put_meta (record s { snapshot = some (from_docs meta.index_cursor docs) })
                  (meta_after_compaction meta))
                (wal_seqs_to_delete meta.index_cursor wal_compact_keep) in
            (
              compacted s meta docs,
              meta_after_compaction meta,
              into_docs (from_docs meta.index_cursor docs),
              maybe_compact_wal-compacted s policy meta docs m n found,
              b,
              load_docs_at_wal_commit-at_commit c (compacted s meta docs) policy
                    (meta_after_compaction meta) (indexed meta valid) u
                  ∙ ap (loaded meta.wal_commit_seq) (compacted-load s policy meta docs p e (at.0)),
              λ k.
                  into_docs-from_docs meta.index_cursor docs k
                    (Keyed-at_commit s policy meta meta.wal_commit_seq docs (at.0)),
            )
      ]

  replay_count-missing :
      (s : Store S V) (policy : WalCorruptPolicy) (n : ℕ)
      → 0 < n
      → s.wal 1 ≡ none
      → replay_count c s policy n 1 [] ≡ (err (message "object not found"), [])
  unfolding replay_count replay_one read_wal_segment
  replay_count-missing s policy zero p h = absurd (omega arith)
  replay_count-missing s policy (suc n) p h = ground arith

  -- A compaction writes the snapshot first and the metadata later. In between, or if it stops there, the
  -- metadata names the older snapshot: when an earlier compaction has deleted the first segment, the
  -- documents of the namespace cannot be loaded.
  pub compact_window-load :
      (s : Store S V) (policy : WalCorruptPolicy) (meta : NamespaceMeta S) (docs : Docs V)
      → 0 < meta.wal_snapshot_seq
      → meta.wal_snapshot_seq < meta.index_cursor
      → meta.wal_snapshot_seq ≤ meta.wal_commit_seq
      → meta.wal_commit_seq < u64_max
      → s.wal 1 ≡ none
      → load_docs_at_wal_commit c
          (record s { snapshot = some (from_docs meta.index_cursor docs) })
          policy
          meta
        ≡ err (message "object not found")
  unfolding from_docs
  compact_window-load s policy meta docs p l n u h =
      let s1 = record s { snapshot = some (from_docs meta.index_cursor docs) } in
      let first = replay_count-missing s1 policy meta.wal_snapshot_seq p h in
      let missing : loaded meta.wal_commit_seq (at_commit c s1 policy meta meta.wal_commit_seq)
          ≡ err (message "object not found") =
        ground arith in
      load_docs_at_wal_commit-at_commit c s1 policy meta n u ∙ missing
