-- ===== src/Tests/Buffers.antt =====
-- The theorems on the write buffer at concrete inputs.
use openpuffer.Base.{ℕ, ◌≡◌, ◌<◌, refl, ◌⊎◌, none, some, true, false, List, [], ◌∷◌, ◌++◌, arith}
use openpuffer.Base.Logic.{ok, err}
use openpuffer.Error.{message}
use openpuffer.Wal.Entry.{WalEntry}
use openpuffer.Meta.Types.{SchemaOps, f32}
use openpuffer.Buffer.State.{
  WriteBufferConfig, WriteStats, BufferState, Request, Batch, empty_state, enqueue, ops, flush_now,
  pending, drain,
}
use openpuffer.Buffer.Steps.{
  Buffers, appending, write, ask, request, check_pending, cooldown, start_flush, finish_flush,
  initial, Step, arrive, start, finish, asks, requests, Reach, here, next,
}
use openpuffer.Buffer.Rate
use openpuffer.Buffer.Rate.{Spaced}
use openpuffer.Buffer.Watched
use openpuffer.Buffer.Watched.{watched}
use openpuffer.Buffer.Stranded
use openpuffer.Buffer.Stranded.{Stranded, Flushing, Fills}
use openpuffer.Buffer.Gather
use openpuffer.Buffer.Gather.{enqueue_all, all_upserts, all_patches, all_deletes, all_waiters, told}

abbrev second : WriteBufferConfig
second = record { max_delay = 1000; max_batch_ops = 512; min_commit_interval = 1000 }

abbrev at_once : WriteBufferConfig
at_once = record { max_delay = 1000; max_batch_ops = 1; min_commit_interval = 1000 }

-- No two schemas can be merged.
abbrev no_merge : SchemaOps ℕ
no_merge = record {
  empty_schema = 0;
  merge_schema = λ a b. err (message "too many vector fields");
  vector_fields_from_schema = λ _. [];
  vector_dimensions_for_field = λ _ _. none;
  vector_element_for_field = λ _ _. f32;
}

abbrev no_stats : WriteStats
no_stats = record {
  rows_upserted = 1;
  rows_patched = 0;
  rows_deleted = 0;
  upserted_ids = none;
  deleted_ids = none;
  rows_remaining = none;
}

abbrev upsert_a : Request ℕ ℕ
upsert_a = record {
  upserts = record { id = "a"; attributes = [] } ∷ [];
  patches = [];
  deletes = [];
  schema_patch = none;
  distance_metric = none;
  stats = no_stats;
}

abbrev patched_a : Request ℕ ℕ
patched_a = record upsert_a { schema_patch = some 1 }

abbrev no_rows : WalEntry
no_rows = record { upserts = []; patches = []; deletes = [] }

abbrev batch_a : Batch ℕ ℕ
batch_a = record {
  upserts = upsert_a.upserts;
  patches = [];
  deletes = [];
  schema_patch = none;
  distance_metric = none;
  waiters = record { stats = no_stats; tx = 7 } ∷ [];
}

abbrev accepted_a : Buffers ℕ ℕ
accepted_a = (write at_once no_merge (initial 5) upsert_a 7).1

abbrev written : Buffers ℕ ℕ
written = request (ask accepted_a 0) 0

written-Reach : Reach at_once no_merge (initial 5) written
unfolding write ask initial
written-Reach = next (next (next here (arrive upsert_a 7)) (asks 0 refl)) (requests 0 refl)

committed-Reach :
    Reach at_once no_merge
      (initial 5)
      (finish_flush (start_flush written) batch_a (ok (1, no_rows)))
unfolding write ask request start_flush initial cooldown
committed-Reach =
    next (next written-Reach (start refl refl)) (finish batch_a (ok (1, no_rows)) refl)

commits-Spaced_example :
    Spaced 1000 (finish_flush (start_flush written) batch_a (ok (1, no_rows))).commits
commits-Spaced_example = Rate.commits-Spaced at_once no_merge 5 committed-Reach

-- The writer has left its first critical section and has not asked for a flush yet.
accepted_a-none_missed : accepted_a.missed ≡ false
unfolding write initial
accepted_a-none_missed = refl

accepted_a-pending : pending accepted_a.state ≡ true
unfolding write initial pending
accepted_a-pending = refl

pending-watched_example : watched accepted_a ≡ true
pending-watched_example =
    Watched.pending-watched at_once no_merge 5 (next here (arrive upsert_a 7))
      accepted_a-none_missed accepted_a-pending

-- A flush task that has ended with rows in the buffer finds the lock of the state taken: the rows wait, no
-- flush runs, and the buffer has no timer.
abbrev unlucky : Buffers ℕ ℕ
unlucky = check_pending (record accepted_a { asking = 0; arming = 1 }) false 0

unlucky-unwatched : (pending unlucky.state ≡ true) × (watched unlucky ≡ false)
unfolding write initial pending check_pending
unlucky-unwatched = (refl, refl)

-- A flush of another batch is in its append.
abbrev in_append : Buffers ℕ ℕ
in_append = record (initial 5) { flush_running = true; task = appending batch_a }

in_append-Flushing : Flushing in_append batch_a
unfolding initial
in_append-Flushing = record {
  running = refl;
  in_append = refl;
  no_timer = refl;
  none_asleep = refl;
  nobody = record {
    no_asking = refl;
    no_requesting = refl;
    no_looking = refl;
    no_arming = refl;
    no_setting = refl;
  };
}

accepted : (enqueue no_merge in_append.state upsert_a 8).0 ≡ ok tt
unfolding enqueue
accepted = refl

too_small : flush_now second (enqueue no_merge in_append.state upsert_a 8).1 ≡ false
unfolding enqueue flush_now initial
too_small = refl

some_rows : 0 < ops (enqueue no_merge in_append.state upsert_a 8).1
unfolding enqueue initial
some_rows = omega arith

write_strands_example :
    (c : Buffers ℕ ℕ) × Reach second no_merge in_append c
    × Stranded c
    × ((d e : Buffers ℕ ℕ)
        → Stranded d
        → Step second no_merge d e
        → Stranded e ⊎ Fills second no_merge d e)
write_strands_example =
    Stranded.write_strands second no_merge in_append upsert_a 8 batch_a (1, no_rows)
      in_append-Flushing accepted too_small some_rows (omega arith)

abbrev had_patch : BufferState ℕ ℕ
had_patch = (enqueue no_merge empty_state patched_a 7).1

refused : (enqueue no_merge had_patch patched_a 8).0 ≡ err (message "too many vector fields")
unfolding enqueue
refused = refl

rows_left : 0 < ops (enqueue no_merge had_patch patched_a 8).1
unfolding enqueue
rows_left = omega arith

refused_write_commits_example :
    (bt : Batch ℕ ℕ) × ((drain (enqueue no_merge had_patch patched_a 8).1).0 ≡ some bt)
    × (bt.upserts ≡ had_patch.upserts ++ patched_a.upserts)
    × (bt.patches ≡ had_patch.patches ++ patched_a.patches)
    × (bt.deletes ≡ had_patch.deletes ++ patched_a.deletes)
    × (bt.waiters ≡ had_patch.waiters)
    × (bt.schema_patch ≡ none)
refused_write_commits_example =
    Gather.refused_write_commits no_merge had_patch patched_a 8 (message "too many vector fields")
      refused rows_left

-- Two writers, of which the first also deletes.
abbrev two_writers : List (Request ℕ ℕ × ℕ)
two_writers = (record upsert_a { deletes = "b" ∷ [] }, 7) ∷ (upsert_a, 8) ∷ []

abbrev two_written : BufferState ℕ ℕ
two_written = record empty_state {
  upserts = all_upserts two_writers;
  deletes = "b" ∷ [];
  waiters = all_waiters two_writers;
}

abbrev two_drained : Batch ℕ ℕ
two_drained = record batch_a {
  upserts = all_upserts two_writers;
  deletes = "b" ∷ [];
  waiters = all_waiters two_writers;
}

two_accepted : enqueue_all no_merge empty_state two_writers ≡ ok two_written
unfolding enqueue_all
two_accepted = refl

drained : (drain two_written).0 ≡ some two_drained
unfolding drain
drained = refl

flush_gathers_example :
    (two_drained.upserts ≡ all_upserts two_writers)
    × (two_drained.patches ≡ all_patches two_writers)
    × (two_drained.deletes ≡ all_deletes two_writers)
    × ((finish_flush in_append two_drained (ok (1, no_rows))).replies
        ≡ in_append.replies ++ told 1 no_rows two_writers)
flush_gathers_example =
    Gather.flush_gathers no_merge in_append two_written two_writers two_drained 1 no_rows
      two_accepted drained
