-- ===== src/View/Cold.antt =====
-- The cold load of src/view.rs (`load_cold_batched`), with the objects that `cold_load_meta_and_wal` of
-- src/s3_batch.rs fetches for it in one round. The counts of requests are left out.
use openpuffer.Base.{
  ℕ, zero, suc, ◌-◌, String, Option, none, some, Bool, true, ◌&&◌, not, List, [], ◌∷◌, max,
}
use openpuffer.Base.Logic.{ok, err, ◌>>=◌, if◌then◌else◌, ltb}
use openpuffer.Base.Maps.{is_some, StrMap, keys, or_insert}
use openpuffer.Error.{Result, message}
use openpuffer.Wal.Entry.{Bytes, Docs, WalEntry}
use openpuffer.Wal.Codec.{Codec}
use openpuffer.Wal.Format.{WalCorruptPolicy, decode_segment_with_policy}
use openpuffer.Wal.Apply.{apply_entry}
use openpuffer.Meta.Types.{NamespaceMeta, SchemaOps}
use openpuffer.Scheduling.Compaction.{wal_replay_from}
use openpuffer.Namespace.Store.{Store, WalSnapshot, fetch_meta, into_docs}
use openpuffer.View.State.{NamespaceView, empty, update_doc_wal_seq_map}

-- `for id in docs.keys() { map.entry(id.clone()).or_insert(seq); }`
unfoldable pub seed_missing : StrMap ℕ → ℕ → List String → StrMap ℕ
seed_missing map seq [] = map
seed_missing map seq (id ∷ ids) = seed_missing (or_insert map id seq) seq ids

-- `wal_commit_replay_from`
unfoldable pub wal_commit_replay_from : {S : Type 0} → NamespaceMeta S → Option ℕ
unfolding wal_replay_from
wal_commit_replay_from meta =
    if ltb 0 meta.wal_snapshot_seq
    then wal_replay_from meta.wal_snapshot_seq meta.wal_commit_seq
    else if ltb 0 meta.wal_commit_seq
    then some 1
    else none

-- The fetched objects: the snapshot, and the segments by their numbers.
pub record Fetched (V : Type 0) : Type 0 where
  pub snapshot : Option (WalSnapshot V)
  pub segments : ℕ → Option Bytes

module _ {S V : Type 0} where
  -- Whether all of `n` segments from `seq` on are there.
  unfoldable pub all_present : Store S V → ℕ → ℕ → Bool
  all_present s zero seq = true
  all_present s (suc n) seq = is_some (s.wal seq) && all_present s n (suc seq)

  -- `fetch_round` of the keys: it fails if one of them is missing.
  unfoldable pub fetch_round : Store S V → NamespaceMeta S → Result (Unit {0})
  unfolding wal_commit_replay_from all_present
  fetch_round s meta =
      if ltb 0 meta.wal_snapshot_seq && not (is_some s.snapshot)
      then err (message "object not found")
      else (elim (wal_commit_replay_from meta) [
        | none ↦ ok tt
        | some from ↦
            if all_present s (suc meta.wal_commit_seq - from) from
            then ok tt
            else err (message "object not found")
      ])

  unfoldable pub cold_load_meta_and_wal : Store S V → NamespaceMeta S → Result (Fetched V)
  unfolding wal_commit_replay_from fetch_round
  cold_load_meta_and_wal s meta = fetch_round s meta >>= λ _. ok (record {
    snapshot = if ltb 0 meta.wal_snapshot_seq then s.snapshot else none;
    segments = λ seq. elim (wal_commit_replay_from meta) [
      | none ↦ none
      | some from ↦
          if ltb seq from then none else if ltb meta.wal_commit_seq seq then none else s.wal seq
    ];
  })

module _ {V : Type 0} where
  abbrev pub cold_baseline : Fetched V → Docs V × ℕ
  cold_baseline fetched = elim fetched.snapshot [
    | none ↦ ([], 0)
    | some snap ↦ (into_docs snap, snap.seq)
  ]

module _ {V : Type 0} (c : Codec V) where
  -- The documents and the numbers after one segment.
  abbrev pub cold_after :
      ℕ → ℕ → WalEntry → StrMap ℕ → Result (Unit {0}) × Docs V → Result (Docs V × StrMap ℕ)
  cold_after threshold seq entry map (err e, docs) = err e
  cold_after threshold seq entry map (ok _, docs) =
      ok (docs, (if ltb threshold seq then update_doc_wal_seq_map c map seq entry else map))

  -- One round of the replay: a segment that was not fetched is passed over.
  unfoldable pub cold_one :
      Fetched V → WalCorruptPolicy → ℕ → ℕ → Docs V × StrMap ℕ → Result (Docs V × StrMap ℕ)
  unfolding update_doc_wal_seq_map
  cold_one fetched policy threshold seq (docs, map) = elim (fetched.segments seq) [
    | none ↦ ok (docs, map)
    | some bytes ↦ elim (decode_segment_with_policy c bytes seq policy) [
      | err e ↦ err e
      | ok none ↦ ok (docs, map)
      | ok (some entry) ↦ cold_after threshold seq entry map (apply_entry c docs entry)
    ]
  ]

  -- `n` segments from `seq` on.
  unfoldable pub cold_count :
      Fetched V → WalCorruptPolicy → ℕ → ℕ → ℕ → Docs V × StrMap ℕ → Result (Docs V × StrMap ℕ)
  cold_count fetched policy threshold zero seq state = ok state
  cold_count fetched policy threshold (suc n) seq state =
      cold_one fetched policy threshold seq state >>= λ state'.
      cold_count fetched policy threshold n (suc seq) state'

module _ {S V : Type 0} (c : Codec V) where
  -- `load_cold_batched` once the metadata is there, with the log.
  unfoldable pub load_cold_at :
      Fetched V → WalCorruptPolicy → NamespaceMeta S → ℕ → Result (NamespaceView S V)
  unfolding cold_count wal_replay_from seed_missing
  load_cold_at fetched policy meta etag =
      let (docs, last_applied) = cold_baseline fetched in
      let threshold = max last_applied meta.wal_snapshot_seq in
      let replayed : Result (Docs V × StrMap ℕ) =
        elim (wal_replay_from last_applied meta.wal_commit_seq) [
          | none ↦ ok (docs, [])
          | some from ↦
              cold_count c fetched policy threshold (suc meta.wal_commit_seq - from) from (docs, [])
        ] in
      replayed >>= λ loaded. ok (record {
        docs = loaded.0;
        meta = meta;
        meta_etag = some etag;
        last_applied_wal_seq = meta.wal_commit_seq;
        doc_last_wal_seq =
            if ltb 0 meta.wal_snapshot_seq
            then seed_missing loaded.1 meta.wal_snapshot_seq (keys loaded.0)
            else loaded.1;
      })

  -- Without the log only the metadata is fetched.
  unfoldable pub load_cold_batched :
      SchemaOps S → Store S V → WalCorruptPolicy → Bool → Result (NamespaceView S V)
  unfolding fetch_meta load_cold_at cold_load_meta_and_wal
  load_cold_batched ops s policy include_wal = elim (fetch_meta s) [
    | none ↦ ok (empty ops)
    | some (meta, etag) ↦
        if include_wal
        then (cold_load_meta_and_wal s meta >>= λ fetched. load_cold_at fetched policy meta etag)
        else ok (record {
          docs = [];
          meta = meta;
          meta_etag = some etag;
          last_applied_wal_seq = 0;
          doc_last_wal_seq = [];
        })
  ]
