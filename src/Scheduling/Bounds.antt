-- ===== src/Scheduling/Bounds.antt =====
-- What the schedule promises (src/indexer.rs, src/wal_compaction.rs).
use openpuffer.Base.{
  max, ℕ, zero, suc, ◌+◌, ◌-◌, ◌≤◌, ◌<◌, ◌≡◌, ◌↔◌, some, true, arith, max, inl, inr,
}
use openpuffer.Base.Logic.{leb, Bool-cases}
use openpuffer.Base.Lists.{All, count_up}
use openpuffer.Meta.Types.{NamespaceMeta, u64_max}
use openpuffer.Meta.Valid.{IsValid}
use openpuffer.Scheduling.Lag.{
  needs_indexing, unindexed_wal_segments, index_scheduling_lag, segments_per_background_tick,
  from_meta, catching_up,
}
use openpuffer.Scheduling.Compaction.{wal_seqs_to_delete, wal_replay_from, wal_compact_keep}

-- The segments of one tick are at least one, at most eight, and no more than the lag where there is
-- one.
pub segments_per_tick_bounds :
    (lag competing : ℕ)
    → (1 ≤ segments_per_background_tick lag competing)
      × (segments_per_background_tick lag competing ≤ 8)
      × (segments_per_background_tick lag competing ≤ max lag 1)
unfolding segments_per_background_tick
segments_per_tick_bounds lag competing = ground arith

All-count_up {κ} :
    (P : ℕ → Type κ) (n from : ℕ)
    → ((s : ℕ) → from ≤ s → s < from + n → P s)
    → All P (count_up n from)
All-count_up P zero from h = tt
All-count_up P (suc n) from h = (
  h from (omega arith) (omega arith),
  All-count_up P n (suc from) (λ s l u. h s (omega arith) (omega arith)),
)

All-deleted {κ} :
    (P : ℕ → Type κ) (cursor keep : ℕ)
    → ((s : ℕ) → 1 ≤ s → s + keep ≤ cursor → P s)
    → All P (wal_seqs_to_delete cursor keep)
unfolding wal_seqs_to_delete
All-deleted P cursor keep h = elim (Bool-cases (leb cursor keep)) [
  | inl e ↦ rw e tt
  | inr e ↦
      let gt : keep < cursor = ground arith in
      rw e (All-count_up P (suc (cursor - keep) - 1) 1 (λ s l u. h s l (omega arith)))
]

module _ {S : Type 0} where
  -- The lag is the length of the unindexed tail; a namespace needs indexing exactly when it is not
  -- zero, and exactly then its status is `catching_up`.
  pub lag_exact :
      (m : NamespaceMeta S)
      → IsValid m
      → (m.index_cursor + index_scheduling_lag m ≡ m.wal_commit_seq)
        × ((needs_indexing m ≡ true) ↔ (0 < index_scheduling_lag m))
        × ((from_meta m.index_cursor m.wal_commit_seq ≡ catching_up) ↔ (needs_indexing m ≡ true))
  unfolding index_scheduling_lag unindexed_wal_segments needs_indexing from_meta
  lag_exact m v = ground arith

  -- After a compaction at the index cursor, every deleted segment lies before the first one that a
  -- load from the snapshot reads, and the last `wal_compact_keep` segments stay.
  pub compaction_deletes_below :
      (m : NamespaceMeta S) (from commit : ℕ)
      → m.index_cursor ≤ u64_max
      → wal_replay_from m.index_cursor commit ≡ some from
      → All (λ s. s < from) (wal_seqs_to_delete m.index_cursor wal_compact_keep)
        × All
            (λ s. s + wal_compact_keep ≤ m.index_cursor)
            (wal_seqs_to_delete m.index_cursor wal_compact_keep)
  unfolding wal_replay_from
  compaction_deletes_below m from commit u r =
      let first : m.index_cursor ≤ from = ground arith in
      (
        All-deleted (λ s. s < from) m.index_cursor wal_compact_keep (λ s l g. omega arith),
        All-deleted (λ s. s + wal_compact_keep ≤ m.index_cursor) m.index_cursor wal_compact_keep
            (λ s l g. g),
      )
