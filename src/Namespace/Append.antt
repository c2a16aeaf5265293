-- ===== src/Namespace/Append.antt =====
-- `append_wal` of src/namespace.rs. An attempt reads the metadata, writes the segment, and then puts
-- the metadata under the condition that it did not change; other writers may act in between.
use openpuffer.Base.{ℕ, zero, suc, Option, none, some}
use openpuffer.Base.Logic.{ok, err, ◌>>=◌}
use openpuffer.Error.{Result, message}
use openpuffer.Wal.Entry.{WalEntry}
use openpuffer.Wal.Codec.{Codec}
use openpuffer.Wal.Format.{encode}
use openpuffer.Meta.Types.{NamespaceMeta, SchemaOps, DistanceMetric, default_meta, next_wal_seq}
use openpuffer.Meta.Commit.{meta_after_wal_commit_options}
use openpuffer.Namespace.Store.{Store, fetch_meta, put_wal, delete_wal, cas_meta}

abbrev pub meta_retries : ℕ
meta_retries = 8

-- What a writer remembers between its read and its conditional put.
pub record Attempt (S : Type 0) : Type 0 where
  pub meta : NamespaceMeta S
  pub meta_etag : Option ℕ
  pub seq : ℕ

-- The entry and the options of one call.
pub record Append (S : Type 0) : Type 0 where
  pub entry : WalEntry
  pub schema_patch : Option S
  pub distance_metric : Option DistanceMetric

module _ {S V : Type 0} (c : Codec V) (ops : SchemaOps S) where
  unfoldable pub read_attempt : Store S V → Attempt S
  unfolding fetch_meta next_wal_seq
  read_attempt s = elim (fetch_meta s) [
    | none ↦ record {
      meta = default_meta ops;
      meta_etag = none;
      seq = next_wal_seq (default_meta ops);
    }
    | some (m, e) ↦ record { meta = m; meta_etag = some e; seq = next_wal_seq m }
  ]

  -- Up to the put of the segment.
  unfoldable pub begin_attempt : Store S V → Append S → Result (Attempt S) × Store S V
  unfolding read_attempt put_wal
  begin_attempt s a = elim (encode c a.entry) [
    | err e ↦ (err e, s)
    | ok body ↦ (ok (read_attempt s), put_wal s (read_attempt s).seq body)
  ]

  -- The conditional put: the new store, `none` on a conflict, or an error in the metadata.
  unfoldable pub commit_attempt : Store S V → Append S → Attempt S → Result (Option (Store S V))
  unfolding cas_meta
  commit_attempt s a t =
      meta_after_wal_commit_options ops t.meta t.seq a.schema_patch a.distance_metric >>= λ next.
      ok (cas_meta s t.meta_etag next)

  -- The rest of an attempt; `retry` is the next round of the loop, if there is one. A conflict that is
  -- tried again deletes the segment first.
  unfoldable pub finish_attempt :
      Store S V
      → Append S
      → Attempt S
      → Option (Store S V → Result ℕ × Store S V)
      → Result ℕ × Store S V
  unfolding commit_attempt delete_wal
  finish_attempt s a t retry = elim (commit_attempt s a t) [
    | err e ↦ (err e, s)
    | ok (some s') ↦ (ok t.seq, s')
    | ok none ↦ elim retry [
      | none ↦ (err (message "put meta after wal"), s)
      | some again ↦ again (delete_wal s t.seq)
    ]
  ]

  -- The rounds that are left after this one, and what others do to the store between the two halves
  -- of each round.
  unfoldable pub append_rounds :
      ℕ → (ℕ → Store S V → Store S V) → Store S V → Append S → Result ℕ × Store S V
  unfolding begin_attempt finish_attempt
  append_rounds zero others s a =
      let (r, s1) = begin_attempt s a in
      elim r [ err e ↦ (err e, s1) | ok t ↦ finish_attempt (others zero s1) a t none ]
  append_rounds (suc n) others s a =
      let again = λ (s' : Store S V). append_rounds n others s' a in
      let (r, s1) = begin_attempt s a in
      elim r [ err e ↦ (err e, s1) | ok t ↦ finish_attempt (others (suc n) s1) a t (some again) ]

  unfoldable pub append_wal :
      (ℕ → Store S V → Store S V) → Store S V → Append S → Result ℕ × Store S V
  unfolding append_rounds
  append_wal others s a = append_rounds 7 others s a
