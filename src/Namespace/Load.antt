-- ===== src/Namespace/Load.antt =====
-- Reading the documents of a namespace back from its log and its snapshot (src/namespace.rs), and the
-- compaction of the log (src/wal_compaction.rs).
use openpuffer.Base.{ℕ, zero, suc, ◌-◌, Option, none, some, [], ◌||◌, List, ◌∷◌}
use openpuffer.Base.Logic.{ok, err, ◌>>=◌, if◌then◌else◌, ◌==◌, ltb, leb}
use openpuffer.Error.{Result, message}
use openpuffer.Wal.Entry.{Docs, WalEntry}
use openpuffer.Wal.Codec.{Codec}
use openpuffer.Wal.Format.{WalCorruptPolicy, decode_segment, decode_segment_with_policy}
use openpuffer.Wal.Apply.{apply_entry}
use openpuffer.Meta.Types.{NamespaceMeta, saturating_add}
use openpuffer.Meta.Commit.{meta_after_compaction}
use openpuffer.Scheduling.Compaction.{
  needs_wal_compaction, wal_seqs_to_delete, wal_replay_from, wal_compact_keep,
}
use openpuffer.Namespace.Store.{
  from_docs, into_docs, Store, fetch_meta, delete_wals, cas_meta, read_wal_segment,
}

-- The next step of a loop that changes documents in place and may stop.
abbrev pub and_then :
    {A : Type 0} → Result (Unit {0}) × A → (A → Result (Unit {0}) × A) → Result (Unit {0}) × A
and_then (ok _, docs) f = f docs
and_then (err e, docs) f = (err e, docs)

module _ {S V : Type 0} (c : Codec V) where
  unfoldable pub read_wal_entry : Store S V → ℕ → Result WalEntry
  unfolding read_wal_segment
  read_wal_entry s seq = read_wal_segment s seq >>= λ bytes. decode_segment c bytes (some seq)

  -- `n` segments from `seq` on, decoded and not applied.
  unfoldable pub read_count : Store S V → ℕ → ℕ → Result (List WalEntry)
  read_count s zero seq = ok []
  read_count s (suc n) seq =
      read_wal_entry s seq >>= λ entry. read_count s n (suc seq) >>= λ rest. ok (entry ∷ rest)

  unfoldable pub replay_wal_entries : Store S V → ℕ → ℕ → Result (List WalEntry)
  unfolding read_count
  replay_wal_entries s from_seq to_seq =
      if from_seq == 0 || to_seq == 0 || ltb to_seq from_seq
      then ok []
      else read_count s (suc to_seq - from_seq) from_seq

  unfoldable pub replay_one : Store S V → WalCorruptPolicy → ℕ → Docs V → Result (Unit {0}) × Docs V
  unfolding read_wal_segment
  replay_one s policy seq docs =
      elim (read_wal_segment s seq >>= λ bytes. decode_segment_with_policy c bytes seq policy) [
        | err e ↦ (err e, docs)
        | ok none ↦ (ok tt, docs)
        | ok (some entry) ↦ apply_entry c docs entry
      ]

  -- `n` segments from `seq` on.
  unfoldable pub replay_count :
      Store S V → WalCorruptPolicy → ℕ → ℕ → Docs V → Result (Unit {0}) × Docs V
  replay_count s policy zero seq docs = (ok tt, docs)
  replay_count s policy (suc n) seq docs =
      and_then (replay_one s policy seq docs) (λ docs'. replay_count s policy n (suc seq) docs')

  unfoldable pub replay_wal_range :
      Store S V → WalCorruptPolicy → Docs V → ℕ → ℕ → Result (Unit {0}) × Docs V
  replay_wal_range s policy docs from_seq to_seq =
      if from_seq == 0 || to_seq == 0 || ltb to_seq from_seq
      then (ok tt, docs)
      else replay_count s policy (suc to_seq - from_seq) from_seq docs

  -- The snapshot that `load_docs_at_wal_commit` starts from, with its sequence number.
  unfoldable pub snapshot_baseline : Store S V → NamespaceMeta S → Docs V × ℕ
  unfolding into_docs
  snapshot_baseline s meta =
      if ltb 0 meta.wal_snapshot_seq
      then (elim s.snapshot [
        | none ↦ ([], 0)
        | some snap ↦
            if snap.seq == meta.wal_snapshot_seq then (into_docs snap, snap.seq) else ([], 0)
      ])
      else ([], 0)

  unfoldable pub load_docs_at_wal_commit :
      Store S V → WalCorruptPolicy → NamespaceMeta S → Result (Docs V × ℕ)
  unfolding snapshot_baseline
  load_docs_at_wal_commit s policy meta =
      let (docs, last_applied) = snapshot_baseline s meta in
      elim (wal_replay_from last_applied meta.wal_commit_seq) [
        | none ↦ ok (docs, last_applied)
        | some from ↦
            let (r, docs') = replay_wal_range s policy docs from meta.wal_commit_seq in
            r >>= λ _. ok (docs', meta.wal_commit_seq)
      ]

  -- The snapshot that `docs_at_index_cursor` starts from, and the first segment that it reads.
  unfoldable pub cursor_baseline : Store S V → ℕ → Docs V × ℕ
  unfolding into_docs saturating_add
  cursor_baseline s index_cursor = elim s.snapshot [
    | none ↦ ([], 1)
    | some snap ↦
        if leb snap.seq index_cursor then (into_docs snap, saturating_add snap.seq 1) else ([], 1)
  ]

  unfoldable pub docs_at_index_cursor : Store S V → WalCorruptPolicy → ℕ → Result (Docs V)
  unfolding cursor_baseline
  docs_at_index_cursor s policy index_cursor =
      if index_cursor == 0
      then ok []
      else let (docs, replay_from) = cursor_baseline s index_cursor in
        if leb replay_from index_cursor
        then (let (r, docs') = replay_wal_range s policy docs replay_from index_cursor in
            r >>= λ _. ok docs')
        else ok docs

  -- The body of `maybe_compact_wal` once the lock is held, with what others do to the store between
  -- the put of the snapshot and that of the metadata; `none` is a conflict.
  unfoldable pub compact_attempt :
      Store S V
      → WalCorruptPolicy
      → (Store S V → Store S V)
      → NamespaceMeta S
      → ℕ
      → Result (Option (Store S V) × Store S V)
  unfolding from_docs
  compact_attempt s policy others meta etag =
      docs_at_index_cursor s policy meta.index_cursor >>= λ docs.
      let s1 = others (record s { snapshot = some (from_docs meta.index_cursor docs) }) in
      ok (
        elim (cas_meta s1 (some etag) (meta_after_compaction meta)) [
          | none ↦ none
          | some s2 ↦ some (delete_wals s2 (wal_seqs_to_delete meta.index_cursor wal_compact_keep))
        ],
        s1,
      )

  -- The result of one round; `retry` is the next round of the loop, if there is one.
  unfoldable pub compact_after :
      Store S V
      → Option (Store S V → Result (Unit {0}) × Store S V)
      → Result (Option (Store S V) × Store S V)
      → Result (Unit {0}) × Store S V
  compact_after s retry (err e) = (err e, s)
  compact_after s retry (ok (some s2, s1)) = (ok tt, s2)
  compact_after s retry (ok (none, s1)) = elim retry [
    | none ↦ (err (message "put meta after wal compact"), s1)
    | some again ↦ again s1
  ]

  -- One round of the loop of `maybe_compact_wal`.
  unfoldable pub compact_round :
      Store S V
      → WalCorruptPolicy
      → (Store S V → Store S V)
      → Option (Store S V → Result (Unit {0}) × Store S V)
      → Result (Unit {0}) × Store S V
  unfolding fetch_meta compact_attempt compact_after
  compact_round s policy others retry = elim (fetch_meta s) [
    | none ↦ (ok tt, s)
    | some (meta, etag) ↦
        if needs_wal_compaction meta
        then compact_after s retry (compact_attempt s policy others meta etag)
        else (ok tt, s)
  ]

  -- The rounds that are left after this one.
  unfoldable pub compact_rounds :
      ℕ → WalCorruptPolicy → (ℕ → Store S V → Store S V) → Store S V → Result (Unit {0}) × Store S V
  unfolding compact_round
  compact_rounds zero policy others s = compact_round s policy (others zero) none
  compact_rounds (suc n) policy others s =
      let again = λ (s' : Store S V). compact_rounds n policy others s' in
      compact_round s policy (others (suc n)) (some again)

  unfoldable pub maybe_compact_wal :
      WalCorruptPolicy → (ℕ → Store S V → Store S V) → Store S V → Result (Unit {0}) × Store S V
  unfolding compact_rounds
  maybe_compact_wal policy others s = compact_rounds 7 policy others s
