-- ===== src/Buffer/State.antt =====
-- The state of the write buffer of one namespace, and what each critical section of src/buffer.rs
-- does to it. Times and delays are milliseconds.
use openpuffer.Base.{
  ℕ, ◌+◌, ◌-◌, String, Option, none, some, List, [], ◌∷◌, ◌++◌, Bool, true, false, not, ◌&&◌, ◌||◌,
  ◌≡◌, refl, ◌⊎◌, inl, inr,
}
use openpuffer.Base.Logic.{Bool-cases, ok, err, if◌then◌else◌, ltb, leb, ◌==◌}
use openpuffer.Base.Lists.{length, is_empty}
use openpuffer.Base.Maps.{is_some, or_else}
use openpuffer.Error.{Result}
use openpuffer.Wal.Entry.{Document, WalEntry}
use openpuffer.Meta.Types.{SchemaOps, DistanceMetric}

pub record WriteBufferConfig : Type 0 where
  pub max_delay : ℕ
  pub max_batch_ops : ℕ
  pub min_commit_interval : ℕ

pub record WriteStats : Type 0 where
  pub rows_upserted : ℕ
  pub rows_patched : ℕ
  pub rows_deleted : ℕ
  pub upserted_ids : Option (List String)
  pub deleted_ids : Option (List String)
  pub rows_remaining : Option Bool

pub record CommittedBatch : Type 0 where
  pub seq : ℕ
  pub entry : WalEntry
  pub stats : WriteStats

-- The sender of a waiter's channel is a number.
pub record WriteWaiter : Type 0 where
  pub stats : WriteStats
  pub tx : ℕ

-- A timer is the number of its task.
pub record BufferState (S V : Type 0) : Type 0 where
  pub upserts : List (Document V)
  pub patches : List (Document V)
  pub deletes : List String
  pub schema_patch : Option S
  pub distance_metric : Option DistanceMetric
  pub waiters : List WriteWaiter
  pub timer : Option ℕ

-- The arguments of a call of `write`.
pub record Request (S V : Type 0) : Type 0 where
  pub upserts : List (Document V)
  pub patches : List (Document V)
  pub deletes : List String
  pub schema_patch : Option S
  pub distance_metric : Option DistanceMetric
  pub stats : WriteStats

-- What a flush takes out of the buffer.
pub record Batch (S V : Type 0) : Type 0 where
  pub upserts : List (Document V)
  pub patches : List (Document V)
  pub deletes : List String
  pub schema_patch : Option S
  pub distance_metric : Option DistanceMetric
  pub waiters : List WriteWaiter

unfoldable pub remaining_commit_cooldown : Option ℕ → ℕ → ℕ → ℕ
remaining_commit_cooldown none min_interval now = 0
remaining_commit_cooldown (some t) min_interval now = min_interval - (now - t)

module _ {S : Type 0} where
  -- `st.schema_patch = Some(match st.schema_patch.take() { .. merge_schema(&existing, &patch)? .. })`;
  -- where the merge fails nothing is put back.
  unfoldable pub merged_patch : SchemaOps S → Option S → Option S → Result (Option S)
  merged_patch sops existing none = ok existing
  merged_patch sops none (some patch) = ok (some patch)
  merged_patch sops (some existing) (some patch) = elim (sops.merge_schema existing patch) [
    | err e ↦ err e
    | ok merged ↦ ok (some merged)
  ]

module _ {S V : Type 0} where
  abbrev pub empty_state : BufferState S V
  empty_state = record {
    upserts = [];
    patches = [];
    deletes = [];
    schema_patch = none;
    distance_metric = none;
    waiters = [];
    timer = none;
  }

  abbrev pub ops : BufferState S V → ℕ
  ops st = length st.upserts + length st.patches + length st.deletes

  abbrev pub metadata_only : BufferState S V → Bool
  metadata_only st = ops st == 0 && (is_some st.schema_patch || is_some st.distance_metric)

  -- `ops > 0 || metadata_only`
  unfoldable pub pending : BufferState S V → Bool
  pending st = ltb 0 (ops st) || metadata_only st

  -- The test for emptiness of `flush_namespace`.
  unfoldable pub nothing_buffered : BufferState S V → Bool
  nothing_buffered st =
      is_empty st.upserts
      && is_empty st.patches
      && is_empty st.deletes
      && not (is_some st.schema_patch)
      && not (is_some st.distance_metric)

  abbrev pub add_rows : BufferState S V → Request S V → BufferState S V
  add_rows st r = record st {
    upserts = st.upserts ++ r.upserts;
    patches = st.patches ++ r.patches;
    deletes = st.deletes ++ r.deletes;
  }

  -- The rows are in the buffer before the schema patch is merged; an error leaves them there.
  unfoldable pub enqueue :
      SchemaOps S → BufferState S V → Request S V → ℕ → Result (Unit {0}) × BufferState S V
  unfolding merged_patch
  enqueue sops st r tx = elim (merged_patch sops st.schema_patch r.schema_patch) [
    | err e ↦ (err e, record (add_rows st r) { schema_patch = none })
    | ok merged ↦ (
      ok tt,
      record (add_rows st r) {
        schema_patch = merged;
        distance_metric = or_else r.distance_metric st.distance_metric;
        waiters = st.waiters ++ record { stats = r.stats; tx = tx } ∷ [];
      },
    )
  ]

  -- Whether a write asks for a flush at once.
  unfoldable pub flush_now : WriteBufferConfig → BufferState S V → Bool
  flush_now cfg st = leb cfg.max_batch_ops (ops st) || metadata_only st

  unfoldable pub drain : BufferState S V → Option (Batch S V) × BufferState S V
  unfolding nothing_buffered
  drain st = if nothing_buffered st then (none, st) else (
    some (record {
      upserts = st.upserts;
      patches = st.patches;
      deletes = st.deletes;
      schema_patch = st.schema_patch;
      distance_metric = st.distance_metric;
      waiters = st.waiters;
    }),
    empty_state,
  )

  pub drain-cases :
      (st : BufferState S V)
      → ((nothing_buffered st ≡ true) × (drain st ≡ (none, st)))
        ⊎ ((bt : Batch S V) × (nothing_buffered st ≡ false) × (drain st ≡ (some bt, empty_state)))
  unfolding drain
  drain-cases st = elim (Bool-cases (nothing_buffered st)) [
    | inl e ↦ inl (e, rw e refl)
    | inr e ↦ inr (
      record {
        upserts = st.upserts;
        patches = st.patches;
        deletes = st.deletes;
        schema_patch = st.schema_patch;
        distance_metric = st.distance_metric;
        waiters = st.waiters;
      },
      e,
      rw e refl,
    )
  ]

  -- The second look at a buffer that was empty: the waiters to answer are taken only if it still is.
  unfoldable pub take_idle_waiters : BufferState S V → List WriteWaiter × BufferState S V
  unfolding nothing_buffered
  take_idle_waiters st =
      if nothing_buffered st
      then (st.waiters, record st { waiters = []; timer = none })
      else ([], record st { timer = none })

-- `w.tx.send(Ok(batch))` for each waiter, and the same for an error.
unfoldable pub send_ok : ℕ → WalEntry → List WriteWaiter → List (ℕ × Result CommittedBatch)
send_ok seq entry [] = []
send_ok seq entry (w ∷ ws) =
    (w.tx, ok (record { seq = seq; entry = entry; stats = w.stats })) ∷ send_ok seq entry ws
