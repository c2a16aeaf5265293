-- ===== src/Buffer/Gather.antt =====
-- Which rows a flush commits, and what each writer is told (src/buffer.rs).
use openpuffer.Base.{
  ℕ, String, ◌<◌, ◌≡◌, refl, ◌∙◌, sym, ap, none, some, List, [], ◌∷◌, ◌++◌, arith, inl, inr,
}
use mathlib.Core.List.{append_assoc, append-nil}
use openpuffer.Base.Logic.{ok, err, ◌>>=◌, >>=-eq-ok, Result-cases, Bool-cases}
use openpuffer.Error.{Error, Result}
use openpuffer.Wal.Entry.{Document, WalEntry}
use openpuffer.Meta.Types.{SchemaOps}
use openpuffer.Buffer.State.{
  CommittedBatch, WriteWaiter, BufferState, Request, Batch, merged_patch, enqueue, empty_state, ops,
  drain, nothing_buffered, send_ok,
}
use openpuffer.Buffer.Steps.{Buffers, finish_flush}

module _ {S V : Type 0} where
  -- Requests with the senders of their channels, in the order in which they come in.
  unfoldable pub enqueue_all :
      SchemaOps S → BufferState S V → List (Request S V × ℕ) → Result (BufferState S V)
  unfolding enqueue
  enqueue_all sops st [] = ok st
  enqueue_all sops st ((r, tx) ∷ rs) =
      let (result, st') = enqueue sops st r tx in result >>= λ _. enqueue_all sops st' rs

  abbrev pub all_upserts : List (Request S V × ℕ) → List (Document V)
  all_upserts [] = []
  all_upserts ((r, tx) ∷ rs) = r.upserts ++ all_upserts rs

  abbrev pub all_patches : List (Request S V × ℕ) → List (Document V)
  all_patches [] = []
  all_patches ((r, tx) ∷ rs) = r.patches ++ all_patches rs

  abbrev pub all_deletes : List (Request S V × ℕ) → List String
  all_deletes [] = []
  all_deletes ((r, tx) ∷ rs) = r.deletes ++ all_deletes rs

  abbrev pub all_waiters : List (Request S V × ℕ) → List WriteWaiter
  all_waiters [] = []
  all_waiters ((r, tx) ∷ rs) = record { stats = r.stats; tx = tx } ∷ all_waiters rs

  -- What each writer is told: its own numbers with the segment and the entry of all.
  abbrev pub told : ℕ → WalEntry → List (Request S V × ℕ) → List (ℕ × Result CommittedBatch)
  told seq entry [] = []
  told seq entry ((r, tx) ∷ rs) =
      (tx, ok (record { seq = seq; entry = entry; stats = r.stats })) ∷ told seq entry rs

  -- The rows and waiters of a buffer.
  pub record Holds (st : BufferState S V) (us ps : List (Document V)) (ds : List String)
      (ws : List WriteWaiter) : Type 0 where
    pub has_upserts : st.upserts ≡ us
    pub has_patches : st.patches ≡ ps
    pub has_deletes : st.deletes ≡ ds
    pub has_waiters : st.waiters ≡ ws

  enqueue-Holds :
      (sops : SchemaOps S) (st : BufferState S V) (r : Request S V) (tx : ℕ)
      → (enqueue sops st r tx).0 ≡ ok tt
      → Holds
          (enqueue sops st r tx).1
          (st.upserts ++ r.upserts)
          (st.patches ++ r.patches)
          (st.deletes ++ r.deletes)
          (st.waiters ++ record { stats = r.stats; tx = tx } ∷ [])
  unfolding enqueue
  enqueue-Holds sops st r tx h =
      elim (Result-cases (merged_patch sops st.schema_patch r.schema_patch)) [
        | inl (m, e) ↦
            rw (e, enqueue)
              (record {
                has_upserts = refl;
                has_patches = refl;
                has_deletes = refl;
                has_waiters = refl;
              })
        | inr (x, e) ↦ absurd (ground arith)
      ]

  enqueue_all-Holds :
      (sops : SchemaOps S) (st st' : BufferState S V) (rs : List (Request S V × ℕ))
      → enqueue_all sops st rs ≡ ok st'
      → Holds st'
          (st.upserts ++ all_upserts rs)
          (st.patches ++ all_patches rs)
          (st.deletes ++ all_deletes rs)
          (st.waiters ++ all_waiters rs)
  unfolding enqueue_all
  enqueue_all-Holds sops st st' [] h =
      let e : st' ≡ st = ground arith in
      rw e (record {
        has_upserts = sym (append-nil st.upserts);
        has_patches = sym (append-nil st.patches);
        has_deletes = sym (append-nil st.deletes);
        has_waiters = sym (append-nil st.waiters);
      })
  enqueue_all-Holds sops st st' ((r, tx) ∷ rs) h =
      let st1 = (enqueue sops st r tx).1 in
      let (u, first, rest) = >>=-eq-ok (enqueue sops st r tx).0 (λ _. enqueue_all sops st1 rs) h in
      let one = enqueue-Holds sops st r tx first in
      let more = enqueue_all-Holds sops st1 st' rs rest in
      record {
        has_upserts =
            more.has_upserts
            ∙ ap (λ us. us ++ all_upserts rs) one.has_upserts
            ∙ append_assoc st.upserts r.upserts (all_upserts rs);
        has_patches =
            more.has_patches
            ∙ ap (λ us. us ++ all_patches rs) one.has_patches
            ∙ append_assoc st.patches r.patches (all_patches rs);
        has_deletes =
            more.has_deletes
            ∙ ap (λ us. us ++ all_deletes rs) one.has_deletes
            ∙ append_assoc st.deletes r.deletes (all_deletes rs);
        has_waiters =
            more.has_waiters
            ∙ ap (λ us. us ++ all_waiters rs) one.has_waiters
            ∙ append_assoc st.waiters (record { stats = r.stats; tx = tx } ∷ []) (all_waiters rs);
      }

  send_ok-told :
      (seq : ℕ) (entry : WalEntry) (rs : List (Request S V × ℕ))
      → send_ok seq entry (all_waiters rs) ≡ told seq entry rs
  unfolding send_ok
  send_ok-told seq entry [] = refl
  send_ok-told seq entry ((r, tx) ∷ rs) = ground (arith, send_ok-told seq entry rs)

  -- Requests that an empty buffer accepted, in order, are drained as one batch with the rows of all in
  -- that order; where its append succeeds, each writer is sent the segment, the entry and its own numbers.
  pub flush_gathers :
      (sops : SchemaOps S) (b : Buffers S V) (st : BufferState S V) (rs : List (Request S V × ℕ))
      (bt : Batch S V) (seq : ℕ) (entry : WalEntry)
      → enqueue_all sops empty_state rs ≡ ok st
      → (drain st).0 ≡ some bt
      → (bt.upserts ≡ all_upserts rs)
        × (bt.patches ≡ all_patches rs)
        × (bt.deletes ≡ all_deletes rs)
        × ((finish_flush b bt (ok (seq, entry))).replies ≡ b.replies ++ told seq entry rs)
  unfolding drain finish_flush
  flush_gathers sops b st rs bt seq entry h d =
      let all = enqueue_all-Holds sops empty_state st rs h in
      let sent = send_ok-told seq entry rs in
      elim (Bool-cases (nothing_buffered st)) [
        | inl e ↦ absurd (ground arith)
        | inr e ↦ (ground arith, ground arith, ground arith, ground arith)
      ]

  -- A write whose schema patch cannot be merged is refused, but its rows stay in the buffer, and the
  -- patch that the buffer had is gone: the next flush commits the rows without either patch, and the
  -- refused writer is not among those that it answers.
  pub refused_write_commits :
      (sops : SchemaOps S) (st : BufferState S V) (r : Request S V) (tx : ℕ) (e : Error)
      → (enqueue sops st r tx).0 ≡ err e
      → 0 < ops (enqueue sops st r tx).1
      → (bt : Batch S V) × ((drain (enqueue sops st r tx).1).0 ≡ some bt)
        × (bt.upserts ≡ st.upserts ++ r.upserts)
        × (bt.patches ≡ st.patches ++ r.patches)
        × (bt.deletes ≡ st.deletes ++ r.deletes)
        × (bt.waiters ≡ st.waiters)
        × (bt.schema_patch ≡ none)
  unfolding enqueue drain nothing_buffered
  refused_write_commits sops st r tx e h p =
      elim (Result-cases (merged_patch sops st.schema_patch r.schema_patch)) [
        | inl (m, g) ↦ absurd (ground arith)
        | inr (x, g) ↦ (
          record {
            upserts = st.upserts ++ r.upserts;
            patches = st.patches ++ r.patches;
            deletes = st.deletes ++ r.deletes;
            schema_patch = none;
            distance_metric = st.distance_metric;
            waiters = st.waiters;
          },
          ground arith,
          refl,
          refl,
          refl,
          refl,
          refl,
        )
      ]
