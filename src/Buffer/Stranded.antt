-- ===== src/Buffer/Stranded.antt =====
-- A write whose timer wakes during a flush (src/buffer.rs): the handle that the buffer keeps stands for
-- no task any more, and no other timer is armed.
use openpuffer.Base.{
  ℕ, ◌+◌, ◌≤◌, ◌<◌, ◌≡◌, refl, none, some, [], ◌∷◌, true, false, arith, inl, inr, ◌⊎◌,
}
use openpuffer.Base.Logic.{ok, Bool-cases, Result-cases}
use openpuffer.Base.Lists.{length-append}
use openpuffer.Base.Maps.{is_some}
use openpuffer.Wal.Entry.{WalEntry}
use openpuffer.Meta.Types.{SchemaOps}
use openpuffer.Buffer.State.{
  WriteBufferConfig, BufferState, Request, Batch, merged_patch, enqueue, ops, flush_now, pending,
}
use openpuffer.Buffer.Steps.{
  idle, appending, Buffers, request_flush, write, cooldown, finish_flush, release, look,
  check_pending, remove_timer, Step, wait, arrive, wake, start, recheck, finish, asks, requests,
  releases, looks, checks, sets, Reach, here, next,
}

module _ {S V : Type 0} where
  -- No task is between two critical sections of `write` or of `after_flush_task`.
  pub record Quiescent (b : Buffers S V) : Type 0 where
    pub no_asking : b.asking ≡ 0
    pub no_requesting : b.requesting ≡ 0
    pub no_looking : b.looking ≡ 0
    pub no_arming : b.arming ≡ 0
    pub no_setting : b.setting ≡ 0

  -- Rows wait, no flush runs, no timer sleeps, a handle is kept, and no task is on its way.
  pub record Stranded (b : Buffers S V) : Type 0 where
    pub rows : 0 < ops b.state
    pub stopped : b.flush_running ≡ false
    pub at_rest : b.task ≡ idle
    pub alone : b.sleeping ≡ []
    pub handle : is_some b.state.timer ≡ true
    pub nobody : Quiescent b

  -- The buffer while a flush is in `append_wal` and nothing else happens.
  pub record Flushing (b : Buffers S V) (bt : Batch S V) : Type 0 where
    pub running : b.flush_running ≡ true
    pub in_append : b.task ≡ appending bt
    pub no_timer : b.state.timer ≡ none
    pub none_asleep : b.sleeping ≡ []
    pub nobody : Quiescent b

  -- During an append a write comes in that is too small for a flush of its own, its timer wakes, the
  -- append succeeds, and the flush task ends, with each lock that it tries free.
  pub after_slow_append :
      WriteBufferConfig
      → SchemaOps S
      → Buffers S V
      → Request S V
      → ℕ
      → Batch S V
      → ℕ × WalEntry
      → Buffers S V
  unfolding write request_flush finish_flush release look check_pending remove_timer
  after_slow_append cfg sops b r tx bt done =
      let b1 = (write cfg sops b r tx).1 in
      let b2 = record b1 { now = b.now + cfg.max_delay } in
      let b3 = request_flush (record b2 { sleeping = remove_timer b2.sleeping b.next_timer }) in
      let b4 = finish_flush b3 bt (ok done) in check_pending (look cfg (release b4) 0) true 0

  -- The buffer after such a write.
  record Armed (cfg : WriteBufferConfig) (b c : Buffers S V) (bt : Batch S V) (st : BufferState S V)
      : Type 0 where
    running : c.flush_running ≡ true
    in_append : c.task ≡ appending bt
    clock : c.now ≡ b.now
    asleep : c.sleeping ≡ (b.next_timer, b.now + cfg.max_delay) ∷ []
    buffered : c.state ≡ record st { timer = some b.next_timer }
    nobody : Quiescent c

  enqueue-timer :
      (sops : SchemaOps S) (st : BufferState S V) (r : Request S V) (tx : ℕ)
      → (enqueue sops st r tx).1.timer ≡ st.timer
  unfolding enqueue
  enqueue-timer sops st r tx =
      elim (Result-cases (merged_patch sops st.schema_patch r.schema_patch)) [
        | inl (m, e) ↦ rw (e, enqueue) refl
        | inr (x, e) ↦ rw (e, enqueue) refl
      ]

  write-Armed :
      (cfg : WriteBufferConfig) (sops : SchemaOps S) (b : Buffers S V) (r : Request S V) (tx : ℕ)
      (bt : Batch S V)
      → Flushing b bt
      → (enqueue sops b.state r tx).0 ≡ ok tt
      → flush_now cfg (enqueue sops b.state r tx).1 ≡ false
      → Armed cfg b (write cfg sops b r tx).1 bt (enqueue sops b.state r tx).1
  unfolding write
  write-Armed cfg sops b r tx bt f a small = ground (arith, enqueue-timer sops b.state r tx)

  slow_append-Reach :
      (cfg : WriteBufferConfig) (sops : SchemaOps S) (b : Buffers S V) (r : Request S V) (tx : ℕ)
      (bt : Batch S V) (done : ℕ × WalEntry)
      → Flushing b bt
      → (enqueue sops b.state r tx).0 ≡ ok tt
      → flush_now cfg (enqueue sops b.state r tx).1 ≡ false
      → 0 < ops (enqueue sops b.state r tx).1
      → 0 < cfg.min_commit_interval
      → Reach cfg sops b (after_slow_append cfg sops b r tx bt done)
  unfolding after_slow_append pending cooldown
  slow_append-Reach cfg sops b r tx bt (seq, entry) f a small p i =
      let w = write-Armed cfg sops b r tx bt f a small in
      let b1 = (write cfg sops b r tx).1 in
      let later = b.now + cfg.max_delay in
      let b2 : Buffers S V = record b1 { now = later } in
      let b2' : Buffers S V = record b2 { sleeping = remove_timer b2.sleeping b.next_timer } in
      let b3 = request_flush b2' in
      let b4 = finish_flush b3 bt (ok (seq, entry)) in
      let r1 : Reach cfg sops b b1 = next here (arrive r tx) in
      let r2 : Reach cfg sops b b2 = next r1 (wait later (ground arith)) in
      let r3 : Reach cfg sops b b3 =
        next r2 (wake b.next_timer later (ground arith) (ground arith)) in
      let r4 : Reach cfg sops b b4 = next r3 (finish bt (ok (seq, entry)) (ground arith)) in
      let r5 : Reach cfg sops b (release b4) = next r4 (releases (ground arith)) in
      let r6 : Reach cfg sops b (look cfg (release b4) 0) = next r5 (looks 0 (ground arith)) in
      next r6 (checks true 0 (ground arith))

  -- The end of a flush task that has just committed, with rows and a handle in the buffer and no timer
  -- asleep.
  end-Stranded :
      (cfg : WriteBufferConfig) (b : Buffers S V)
      → 0 < ops b.state
      → b.sleeping ≡ []
      → is_some b.state.timer ≡ true
      → Quiescent b
      → b.last_committed_at ≡ some b.now
      → 0 < cfg.min_commit_interval
      → Stranded (check_pending (look cfg (release b) 0) true 0)
  unfolding release look check_pending pending cooldown
  end-Stranded cfg b rows alone handle q last i = ground (arith, q.no_asking, q.no_setting)

  slow_append-Stranded :
      (cfg : WriteBufferConfig) (sops : SchemaOps S) (b : Buffers S V) (r : Request S V) (tx : ℕ)
      (bt : Batch S V) (done : ℕ × WalEntry)
      → Flushing b bt
      → (enqueue sops b.state r tx).0 ≡ ok tt
      → flush_now cfg (enqueue sops b.state r tx).1 ≡ false
      → 0 < ops (enqueue sops b.state r tx).1
      → 0 < cfg.min_commit_interval
      → Stranded (after_slow_append cfg sops b r tx bt done)
  unfolding after_slow_append request_flush finish_flush remove_timer
  slow_append-Stranded cfg sops b r tx bt (seq, entry) f a small p i =
      let w = write-Armed cfg sops b r tx bt f a small in
      let b1 = (write cfg sops b r tx).1 in
      let b2 : Buffers S V = record b1 { now = b.now + cfg.max_delay } in
      let b3 = request_flush (record b2 { sleeping = remove_timer b2.sleeping b.next_timer }) in
      let b4 = finish_flush b3 bt (ok (seq, entry)) in
      end-Stranded cfg b4 (ground arith) (ground arith) (ground arith) (ground (arith, w.nobody))
        (ground arith) i

  enqueue-ops :
      (sops : SchemaOps S) (st : BufferState S V) (r : Request S V) (tx : ℕ)
      → ops st ≤ ops (enqueue sops st r tx).1
  unfolding enqueue
  enqueue-ops sops st r tx =
      let u = length-append st.upserts r.upserts in
      let p = length-append st.patches r.patches in
      let d = length-append st.deletes r.deletes in
      elim (Result-cases (merged_patch sops st.schema_patch r.schema_patch)) [
        | inl (m, e) ↦ rw (e, enqueue) (omega arith)
        | inr (x, e) ↦ rw (e, enqueue) (omega arith)
      ]

  write-Stranded :
      (cfg : WriteBufferConfig) (sops : SchemaOps S) (b : Buffers S V) (r : Request S V) (tx : ℕ)
      → Stranded b
      → ((enqueue sops b.state r tx).0 ≡ ok tt
          → flush_now cfg (enqueue sops b.state r tx).1 ≡ false)
      → Stranded (write cfg sops b r tx).1
  unfolding write
  write-Stranded cfg sops b r tx s small =
      let kept = enqueue-timer sops b.state r tx in
      let more = enqueue-ops sops b.state r tx in
      elim (Result-cases (enqueue sops b.state r tx).0) [
        | inl (u, e) ↦ ground (arith, small e)
        | inr (x, e) ↦ ground arith
      ]

  -- The step is a write that is accepted and with which the batch asks for a flush.
  abbrev pub Fills : WriteBufferConfig → SchemaOps S → Buffers S V → Buffers S V → Type 0
  Fills cfg sops d e =
      (r : Request S V) × (tx : ℕ) × (e ≡ (write cfg sops d r tx).1)
      × ((enqueue sops d.state r tx).0 ≡ ok tt)
      × (flush_now cfg (enqueue sops d.state r tx).1 ≡ true)

  write-Fills :
      (cfg : WriteBufferConfig) (sops : SchemaOps S) (b : Buffers S V) (r : Request S V) (tx : ℕ)
      → Stranded b
      → Stranded (write cfg sops b r tx).1 ⊎ Fills cfg sops b (write cfg sops b r tx).1
  write-Fills cfg sops b r tx s = elim (Result-cases (enqueue sops b.state r tx).0) [
    | inl (u, ok_e) ↦ elim (Bool-cases (flush_now cfg (enqueue sops b.state r tx).1)) [
      | inl full ↦ inr (r, tx, refl, ok_e, full)
      | inr small ↦ inl (write-Stranded cfg sops b r tx s (λ _. small))
    ]
    | inr (x, e) ↦ inl (write-Stranded cfg sops b r tx s (λ a. absurd (ground arith)))
  ]

  -- Nothing but such a write ends it.
  Step-Stranded :
      (cfg : WriteBufferConfig) (sops : SchemaOps S) {b c : Buffers S V}
      → Step cfg sops b c
      → Stranded b
      → Stranded c ⊎ Fills cfg sops b c
  Step-Stranded cfg sops (wait later h) s = inl (record {
    rows = s.rows;
    stopped = s.stopped;
    at_rest = s.at_rest;
    alone = s.alone;
    handle = s.handle;
    nobody = record {
      no_asking = s.nobody.no_asking;
      no_requesting = s.nobody.no_requesting;
      no_looking = s.nobody.no_looking;
      no_arming = s.nobody.no_arming;
      no_setting = s.nobody.no_setting;
    };
  })
  Step-Stranded cfg sops {b = b} (arrive r tx) s = write-Fills cfg sops b r tx s
  Step-Stranded cfg sops (wake h due e d) s = absurd (ground arith)
  Step-Stranded cfg sops (start e h) s = absurd (ground arith)
  Step-Stranded cfg sops (recheck e) s = absurd (ground arith)
  Step-Stranded cfg sops (finish bt outcome e) s = absurd (ground arith)
  Step-Stranded cfg sops (asks n e) s = absurd (ground (arith, s.nobody.no_asking))
  Step-Stranded cfg sops (requests n e) s = absurd (ground (arith, s.nobody.no_requesting))
  Step-Stranded cfg sops (releases e) s = absurd (ground arith)
  Step-Stranded cfg sops (looks n e) s = absurd (ground (arith, s.nobody.no_looking))
  Step-Stranded cfg sops (checks l n e) s = absurd (ground (arith, s.nobody.no_arming))
  Step-Stranded cfg sops (sets l m n e) s = absurd (ground (arith, s.nobody.no_setting))

  -- Where the commit interval is not zero, a flush is in its append, no timer is armed and no other task
  -- is at work on the buffer: an accepted write that asks for no flush, after which the buffer has rows,
  -- can end in a state where its rows wait, no flush runs, no timer sleeps, the buffer keeps the handle of
  -- a timer and no task is on its way, as its timer wakes before the append returns. From every such state
  -- each step, the passing of time included, leads to such a state again, except a step that is a write,
  -- accepted, with which the batch asks for a flush.
  pub write_strands :
      (cfg : WriteBufferConfig) (sops : SchemaOps S) (b : Buffers S V) (r : Request S V) (tx : ℕ)
      (bt : Batch S V) (done : ℕ × WalEntry)
      → Flushing b bt
      → (enqueue sops b.state r tx).0 ≡ ok tt
      → flush_now cfg (enqueue sops b.state r tx).1 ≡ false
      → 0 < ops (enqueue sops b.state r tx).1
      → 0 < cfg.min_commit_interval
      → (c : Buffers S V) × Reach cfg sops b c
        × Stranded c
        × ((d e : Buffers S V) → Stranded d → Step cfg sops d e → Stranded e ⊎ Fills cfg sops d e)
  write_strands cfg sops b r tx bt done f a small p i = (
    after_slow_append cfg sops b r tx bt done,
    slow_append-Reach cfg sops b r tx bt done f a small p i,
    slow_append-Stranded cfg sops b r tx bt done f a small p i,
    λ d e s step. Step-Stranded cfg sops step s,
  )
