-- ===== src/Buffer/Watched.antt =====
-- Who sees to the rows in the write buffer (src/buffer.rs): the flush task, the handle of a timer, or a
-- task on its way between two critical sections.
use openpuffer.Base.{
  ℕ, ◌+◌, ◌≡◌, refl, Option, none, some, Bool, true, false, ◌||◌, arith, inl, inr,
}
use openpuffer.Base.Logic.{ok, err, ltb, Result-cases}
use openpuffer.Base.Maps.{is_some}
use openpuffer.Error.{Error, Result}
use openpuffer.Wal.Entry.{WalEntry}
use openpuffer.Meta.Types.{SchemaOps}
use openpuffer.Buffer.State.{
  WriteBufferConfig, BufferState, Request, Batch, merged_patch, enqueue, pending, drain-cases,
}
use openpuffer.Buffer.Steps.{
  Task, idle, waiting, rechecking, appending, Buffers, request_flush, after_enqueue, write,
  start_flush, answer_idle, finish_flush, ask, request, release, look, check_pending,
  set_cooldown_timer, remove_timer, Step, wait, arrive, wake, start, recheck, finish, asks,
  requests, releases, looks, checks, sets, Reach, here, next, initial,
}

module _ {S : Type 0} where
  -- A patch is refused only if the buffer had one.
  refused_patch :
      (sops : SchemaOps S) (old new : Option S) (e : Error)
      → merged_patch sops old new ≡ err e
      → is_some old ≡ true
  unfolding merged_patch
  refused_patch sops none none e h = absurd (ground arith)
  refused_patch sops none (some n) e h = absurd (ground arith)
  refused_patch sops (some o) new e h = refl

module _ {S V : Type 0} where
  abbrev pub is_idle : Task S V → Bool
  is_idle idle = true
  is_idle _ = false

  -- The tasks that are between two critical sections of `write` or of `after_flush_task`.
  abbrev pub on_their_way : Buffers S V → ℕ
  on_their_way b = b.asking + b.requesting + b.looking + b.arming + b.setting

  -- Something holds the promise of a flush: the flush task, the handle of a timer, or such a task.
  abbrev pub watched : Buffers S V → Bool
  watched b = b.flush_running || is_some b.state.timer || ltb 0 (on_their_way b)

  pub record Watched (b : Buffers S V) : Type 0 where
    pub busy : is_idle b.task || b.flush_running ≡ true
    pub seen : pending b.state ≡ true → watched b || b.missed ≡ true

  request_flush-Watched :
      (b : Buffers S V) → is_idle b.task || b.flush_running ≡ true → Watched (request_flush b)
  unfolding request_flush
  request_flush-Watched b h = ground arith

  after_enqueue-Watched :
      (cfg : WriteBufferConfig) (b : Buffers S V)
      → is_idle b.task || b.flush_running ≡ true
      → Watched (after_enqueue cfg b)
  unfolding after_enqueue pending
  after_enqueue-Watched cfg b h = ground arith

  pending_patch : (st : BufferState S V) → is_some st.schema_patch ≡ true → pending st ≡ true
  unfolding pending
  pending_patch st h = ground arith

  write-Watched :
      (cfg : WriteBufferConfig) (sops : SchemaOps S) (b : Buffers S V) (r : Request S V) (tx : ℕ)
      → Watched b
      → Watched (write cfg sops b r tx).1
  unfolding write enqueue
  write-Watched cfg sops b r tx w =
      elim (Result-cases (merged_patch sops b.state.schema_patch r.schema_patch)) [
        | inl (merged, e) ↦
            let (_, st) = enqueue sops b.state r tx in
            rw (e, enqueue, write) (after_enqueue-Watched cfg (record b { state = st }) w.busy)
        | inr (x, e) ↦
            let old =
              pending_patch b.state (refused_patch sops b.state.schema_patch r.schema_patch x e) in
            rw (e, enqueue, write)
              (record { busy = w.busy; seen = λ _. ground (arith, w.seen old) })
      ]

  ask-Watched : (b : Buffers S V) (others : ℕ) → Watched b → Watched (ask b others)
  unfolding ask
  ask-Watched b others w = ground arith

  request-Watched :
      (b : Buffers S V) (others : ℕ)
      → is_idle b.task || b.flush_running ≡ true
      → Watched (request b others)
  unfolding request
  request-Watched b others h = ground arith

  release-Watched : (b : Buffers S V) → Watched (release b)
  unfolding release
  release-Watched b = ground arith

  look-Watched :
      (cfg : WriteBufferConfig) (b : Buffers S V) (others : ℕ)
      → Watched b
      → Watched (look cfg b others)
  unfolding look
  look-Watched cfg b others w = ground arith

  check_pending-Watched :
      (b : Buffers S V) (locked : Bool) (others : ℕ)
      → Watched b
      → Watched (check_pending b locked others)
  unfolding check_pending
  check_pending-Watched b locked others w = ground arith

  set_cooldown_timer-Watched :
      (cfg : WriteBufferConfig) (b : Buffers S V) (last_locked locked : Bool) (others : ℕ)
      → Watched b
      → Watched (set_cooldown_timer cfg b last_locked locked others)
  unfolding set_cooldown_timer
  set_cooldown_timer-Watched cfg b last_locked locked others w = ground arith

  start_flush-Watched : (b : Buffers S V) → b.task ≡ waiting → Watched b → Watched (start_flush b)
  unfolding start_flush pending
  start_flush-Watched b t w = elim (drain-cases b.state) [
    | inl (n, e) ↦ rw (e, start_flush) (ground arith)
    | inr (bt, n, e) ↦ rw (e, start_flush) (ground arith)
  ]

  answer_idle-Watched :
      (b : Buffers S V) → b.task ≡ rechecking → Watched b → Watched (answer_idle b)
  unfolding answer_idle
  answer_idle-Watched b t w = ground arith

  finish_flush-Watched :
      (b : Buffers S V) (bt : Batch S V) (outcome : Result (ℕ × WalEntry))
      → b.task ≡ appending bt
      → Watched b
      → Watched (finish_flush b bt outcome)
  unfolding finish_flush
  finish_flush-Watched b bt (ok (seq, entry)) t w = ground arith
  finish_flush-Watched b bt (err e) t w = ground arith

  Step-Watched :
      (cfg : WriteBufferConfig) (sops : SchemaOps S) {b c : Buffers S V}
      → Step cfg sops b c
      → Watched b
      → Watched c
  Step-Watched cfg sops {b = b} (wait later h) w = record { busy = w.busy; seen = w.seen }
  Step-Watched cfg sops {b = b} (arrive r tx) w = write-Watched cfg sops b r tx w
  Step-Watched cfg sops {b = b} (wake h due s d) w =
      request_flush-Watched (record b { sleeping = remove_timer b.sleeping h }) w.busy
  Step-Watched cfg sops {b = b} (start e h) w = start_flush-Watched b e w
  Step-Watched cfg sops {b = b} (recheck e) w = answer_idle-Watched b e w
  Step-Watched cfg sops {b = b} (finish bt outcome e) w = finish_flush-Watched b bt outcome e w
  Step-Watched cfg sops {b = b} (asks others e) w = ask-Watched b others w
  Step-Watched cfg sops {b = b} (requests others e) w = request-Watched b others w.busy
  Step-Watched cfg sops {b = b} (releases e) w = release-Watched b
  Step-Watched cfg sops {b = b} (looks others e) w = look-Watched cfg b others w
  Step-Watched cfg sops {b = b} (checks l others e) w = check_pending-Watched b l others w
  Step-Watched cfg sops {b = b} (sets l m others e) w =
      set_cooldown_timer-Watched cfg b l m others w

  Reach-Watched :
      (cfg : WriteBufferConfig) (sops : SchemaOps S) {b c : Buffers S V}
      → Reach cfg sops b c
      → Watched b
      → Watched c
  Reach-Watched cfg sops here w = w
  Reach-Watched cfg sops (next r s) w = Step-Watched cfg sops s (Reach-Watched cfg sops r w)

  -- From an empty buffer on, as long as no `try_lock` of `arm_cooldown_flush_timer` has failed: while
  -- something waits in the buffer, a flush task runs, or the buffer holds the handle of a timer, or a
  -- writer or a task that has ended its flush is on its way to ask for a flush, to look at the buffer or
  -- to arm a timer.
  pub pending-watched :
      (cfg : WriteBufferConfig) (sops : SchemaOps S) (now : ℕ) {b : Buffers S V}
      → Reach cfg sops (initial now) b
      → b.missed ≡ false
      → pending b.state ≡ true
      → watched b ≡ true
  unfolding initial pending
  pending-watched cfg sops now {b = b} r m h =
      let w = Reach-Watched cfg sops r (record { busy = refl; seen = λ p. ground arith }) in
      let seen = w.seen h in ground arith
