-- ===== src/Scheduling/Lag.antt =====
-- The indexer's schedule (src/indexer.rs) and `IndexStatus` (src/models.rs).
use openpuffer.Base.{ℕ, ◌-◌, Bool, ◌||◌, min, max, Option, none, some}
use openpuffer.Base.Logic.{if◌then◌else◌, ◌==◌, ltb, leb}
use openpuffer.Meta.Types.{NamespaceMeta}

abbrev pub high_index_lag_segments : ℕ
high_index_lag_segments = 4

abbrev pub burst_index_lag_segments : ℕ
burst_index_lag_segments = 8

abbrev pub max_segments_burst_per_tick : ℕ
max_segments_burst_per_tick = 8

-- In milliseconds.
abbrev pub max_index_time_per_ns_per_tick : ℕ
max_index_time_per_ns_per_tick = 2000

module _ {S : Type 0} where
  unfoldable pub needs_indexing : NamespaceMeta S → Bool
  needs_indexing meta = ltb meta.index_cursor meta.wal_commit_seq

  unfoldable pub unindexed_wal_segments : NamespaceMeta S → ℕ
  unindexed_wal_segments meta =
      if leb meta.wal_commit_seq meta.index_cursor
      then 0
      else meta.wal_commit_seq - meta.index_cursor

  unfoldable pub index_scheduling_lag : NamespaceMeta S → ℕ
  unfolding unindexed_wal_segments
  index_scheduling_lag meta = unindexed_wal_segments meta

-- `lag.clamp(1, MAX_SEGMENTS_BURST_PER_TICK)` in the burst branch.
unfoldable pub segments_per_background_tick : ℕ → ℕ → ℕ
segments_per_background_tick lag competing =
    if lag == 0
    then 1
    else if leb competing 1 || leb burst_index_lag_segments lag
    then max 1 (min lag max_segments_burst_per_tick)
    else if leb high_index_lag_segments lag
    then 2
    else 1

unfoldable pub background_tick_time_limit : ℕ → ℕ → Option ℕ
background_tick_time_limit lag competing =
    if leb competing 1 || leb burst_index_lag_segments lag
    then none
    else some max_index_time_per_ns_per_tick

pub data IndexStatus : Type 0 where
  catching_up up_to_date : IndexStatus

unfoldable pub from_meta : ℕ → ℕ → IndexStatus
from_meta index_cursor wal_commit_seq =
    if ltb index_cursor wal_commit_seq then catching_up else up_to_date
