-- ===== src/Scheduling/Compaction.antt =====
-- The decisions of the log's compaction (src/wal_compaction.rs).
use openpuffer.Base.{ℕ, ◌-◌, Bool, ◌&&◌, Option, none, some, List, [], max}
use openpuffer.Base.Logic.{if◌then◌else◌, ◌==◌, ltb, leb}
use openpuffer.Base.Lists.{range_incl}
use openpuffer.Meta.Types.{NamespaceMeta, saturating_add}

abbrev pub wal_compaction_threshold : ℕ
wal_compaction_threshold = 10

abbrev pub wal_compact_keep : ℕ
wal_compact_keep = 3

module _ {S : Type 0} where
  unfoldable pub should_compact_wal : NamespaceMeta S → Bool
  should_compact_wal meta =
      leb meta.wal_commit_seq meta.index_cursor
      && ltb wal_compaction_threshold meta.wal_commit_seq
      && ltb wal_compact_keep meta.index_cursor

  unfoldable pub needs_wal_compaction : NamespaceMeta S → Bool
  unfolding should_compact_wal
  needs_wal_compaction meta = should_compact_wal meta && ltb meta.wal_snapshot_seq meta.index_cursor

-- `(1..=index_cursor - keep_k)`
unfoldable pub wal_seqs_to_delete : ℕ → ℕ → List ℕ
wal_seqs_to_delete index_cursor keep_k =
    if leb index_cursor keep_k then [] else range_incl 1 (index_cursor - keep_k)

unfoldable pub wal_replay_from : ℕ → ℕ → Option ℕ
unfolding saturating_add
wal_replay_from snapshot_seq wal_commit_seq =
    if wal_commit_seq == 0
    then none
    else let from = saturating_add snapshot_seq 1 in
      if ltb wal_commit_seq from then none else some (max from 1)
