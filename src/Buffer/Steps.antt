-- ===== src/Buffer/Steps.antt =====
-- The tasks around the write buffer of one namespace (src/buffer.rs): writers, timers and the flush
-- task, as steps between their awaits.
use openpuffer.Base.{
  ℕ, suc, ◌+◌, ◌≤◌, ◌≡◌, Option, none, some, List, [], ◌∷◌, ◌++◌, Bool, true, false, not, ◌&&◌,
  ◌||◌, max,
}
use openpuffer.Base.Logic.{ok, err, if◌then◌else◌, ◌==◌}
use openpuffer.Base.Maps.{is_some}
use openpuffer.Error.{Error, Result}
use openpuffer.Wal.Entry.{WalEntry}
use openpuffer.Meta.Types.{SchemaOps}
use openpuffer.Buffer.State.{
  WriteBufferConfig, CommittedBatch, WriteWaiter, BufferState, Request, Batch, enqueue, flush_now,
  pending, drain, take_idle_waiters, send_ok, remaining_commit_cooldown, empty_state,
}

-- Where the flush task of `request_flush` is: it has not started, it waits for the cooldown, it has
-- seen an empty buffer, it is in `append_wal`, or it is about to run `after_flush_task`.
pub data Task (S V : Type 0) : Type 0 where
  idle waiting rechecking ending : Task S V
  appending : Batch S V → Task S V

-- The buffer with its flags, the timer tasks that sleep (with the time at which they wake), what the
-- waiters were sent, and, for the statements, the times of the commits. The tasks between two critical
-- sections are counted: `asking` are writers that are to take the lock of the state again to ask for a
-- flush, `looking` flush tasks that have cleared `flush_running` and wait for that lock, `requesting` the
-- tasks that have released it and are to call `request_flush`, `arming` and `setting` those that are at
-- the first and at the second half of `arm_cooldown_flush_timer`. `missed` says that one of its
-- `try_lock`s has failed.
pub record Buffers (S V : Type 0) : Type 0 where
  pub state : BufferState S V
  pub last_committed_at : Option ℕ
  pub flush_running : Bool
  pub task : Task S V
  pub sleeping : List (ℕ × ℕ)
  pub next_timer : ℕ
  pub now : ℕ
  pub replies : List (ℕ × Result CommittedBatch)
  pub commits : List ℕ
  pub asking : ℕ
  pub requesting : ℕ
  pub looking : ℕ
  pub arming : ℕ
  pub setting : ℕ
  pub missed : Bool

unfoldable pub remove_timer : List (ℕ × ℕ) → ℕ → List (ℕ × ℕ)
remove_timer [] h = []
remove_timer ((i, due) ∷ ts) h =
    let rest = remove_timer ts h in if i == h then rest else (i, due) ∷ rest

-- The timer task `h` sleeps until `due`.
abbrev pub sleeps : List (ℕ × ℕ) → ℕ → ℕ → Bool
sleeps [] h due = false
sleeps ((i, d) ∷ ts) h due = i == h && d == due || sleeps ts h due

unfoldable pub send_err : Error → List WriteWaiter → List (ℕ × Result CommittedBatch)
send_err e [] = []
send_err e (w ∷ ws) = (w.tx, err e) ∷ send_err e ws

module _ {S V : Type 0} where
  -- `tokio::spawn(.. sleep(delay).await; ..)` with the handle kept in the buffer.
  unfoldable pub arm_timer : Buffers S V → ℕ → Buffers S V
  arm_timer b delay = record b {
    state = record (b.state) { timer = some b.next_timer };
    sleeping = (b.next_timer, b.now + delay) ∷ b.sleeping;
    next_timer = b.next_timer + 1;
  }

  -- `if let Some(t) = st.timer.take() { t.abort(); }`
  unfoldable pub abort_timer : Buffers S V → Buffers S V
  unfolding remove_timer
  abort_timer b = elim b.state.timer [
    | none ↦ b
    | some h ↦ record b {
      state = record (b.state) { timer = none };
      sleeping = remove_timer b.sleeping h;
    }
  ]

  unfoldable pub request_flush : Buffers S V → Buffers S V
  request_flush b = if b.flush_running then b else record b { flush_running = true; task = waiting }

  -- The rest of the first critical section of `write`, once the request is in the buffer: the writer is
  -- to ask for a flush, or arms the timer, or leaves it to the timer that is armed.
  unfoldable pub after_enqueue : WriteBufferConfig → Buffers S V → Buffers S V
  unfolding flush_now arm_timer
  after_enqueue cfg b =
      if flush_now cfg b.state
      then record b { asking = suc b.asking }
      else if is_some b.state.timer
      then b
      else arm_timer b cfg.max_delay

  -- The first critical section of `write`; `tx` is the sender of its channel.
  unfoldable pub write :
      WriteBufferConfig
      → SchemaOps S
      → Buffers S V
      → Request S V
      → ℕ
      → Result (Unit {0}) × Buffers S V
  unfolding enqueue after_enqueue
  write cfg sops b r tx =
      let (result, st) = enqueue sops b.state r tx in
      let b' = record b { state = st } in
      elim result [ err e ↦ (err e, b') | ok _ ↦ (ok tt, after_enqueue cfg b') ]

  -- The second one, of a writer that asks for a flush, once it has the lock again.
  unfoldable pub ask : Buffers S V → ℕ → Buffers S V
  unfolding abort_timer
  ask b others = abort_timer (record b { asking = others; requesting = suc b.requesting })

  -- `request_flush` of such a writer, or of a flush task that has ended.
  unfoldable pub request : Buffers S V → ℕ → Buffers S V
  unfolding request_flush
  request b others = request_flush (record b { requesting = others })

  unfoldable pub cooldown : WriteBufferConfig → Buffers S V → ℕ
  unfolding remaining_commit_cooldown
  cooldown cfg b = remaining_commit_cooldown b.last_committed_at cfg.min_commit_interval b.now

  -- `flush_namespace` after the cooldown: the buffer is drained.
  unfoldable pub start_flush : Buffers S V → Buffers S V
  unfolding drain
  start_flush b =
      let (batch, st) = drain b.state in
      elim batch [
        | none ↦ record b { task = rechecking }
        | some bt ↦ record b { state = st; task = appending bt }
      ]

  -- The branch of an empty buffer.
  unfoldable pub answer_idle : Buffers S V → Buffers S V
  unfolding take_idle_waiters send_ok
  answer_idle b =
      let (ws, st) = take_idle_waiters b.state in
      record b {
        state = st;
        task = ending;
        replies = b.replies ++ send_ok 0 (record { upserts = []; patches = []; deletes = [] }) ws;
      }

  -- The end of a flush, from what `append_wal` returned.
  unfoldable pub finish_flush : Buffers S V → Batch S V → Result (ℕ × WalEntry) → Buffers S V
  unfolding send_ok send_err
  finish_flush b bt (ok (seq, entry)) = record b {
    last_committed_at = some b.now;
    task = ending;
    replies = b.replies ++ send_ok seq entry bt.waiters;
    commits = b.now ∷ b.commits;
  }
  finish_flush b bt (err e) = record b {
    task = ending;
    replies = b.replies ++ send_err e bt.waiters;
  }

  -- `after_flush_task` up to its wait for the lock of the state.
  unfoldable pub release : Buffers S V → Buffers S V
  release b = record b { flush_running = false; task = idle; looking = suc b.looking }

  -- Its critical section, and what it decides. The lock of the state is held while it waits for that of
  -- the time of the last commit.
  unfoldable pub look : WriteBufferConfig → Buffers S V → ℕ → Buffers S V
  unfolding pending cooldown
  look cfg b others =
      let b' = record b { looking = others } in
      if pending b.state
      then (if cooldown cfg b == 0
          then record b' { requesting = suc b.requesting }
          else record b' { arming = suc b.arming })
      else b'

  -- The first `try_lock` of `arm_cooldown_flush_timer`, which gets the lock or does not.
  unfoldable pub check_pending : Buffers S V → Bool → ℕ → Buffers S V
  unfolding pending
  check_pending b locked others =
      let b' = record b { arming = others } in
      if not locked
      then record b' { missed = true }
      else if pending b.state && not (is_some b.state.timer)
      then record b' { setting = suc b.setting }
      else b'

  -- The rest of it, with its two other `try_lock`s: of the time of the last commit, and of the state.
  unfoldable pub set_cooldown_timer :
      WriteBufferConfig → Buffers S V → Bool → Bool → ℕ → Buffers S V
  unfolding cooldown arm_timer
  set_cooldown_timer cfg b last_locked locked others =
      let b' = record b { setting = others } in
      if not (last_locked && locked)
      then record b' { missed = true }
      else if is_some b.state.timer
      then b'
      else arm_timer b' (max (cooldown cfg b) 1)

  unfoldable pub initial : ℕ → Buffers S V
  initial now = record {
    state = empty_state;
    last_committed_at = none;
    flush_running = false;
    task = idle;
    sleeping = [];
    next_timer = 0;
    now = now;
    replies = [];
    commits = [];
    asking = 0;
    requesting = 0;
    looking = 0;
    arming = 0;
    setting = 0;
    missed = false;
  }

  -- What can happen next: time passes, a write comes in or goes on, a timer task wakes, the flush task
  -- goes on, or a task that has cleared `flush_running` goes on, whether or not it gets a lock it tries.
  pub data Step (cfg : WriteBufferConfig) (sops : SchemaOps S) (b : Buffers S V)
      : Buffers S V → Type 0 where
    wait : (later : ℕ) → b.now ≤ later → Step cfg sops b (record b { now = later })
    arrive : (r : Request S V) (tx : ℕ) → Step cfg sops b (write cfg sops b r tx).1
    wake :
        (h due : ℕ)
        → sleeps b.sleeping h due ≡ true
        → due ≤ b.now
        → Step cfg sops b (request_flush (record b { sleeping = remove_timer b.sleeping h }))
    start : b.task ≡ waiting → cooldown cfg b ≡ 0 → Step cfg sops b (start_flush b)
    recheck : b.task ≡ rechecking → Step cfg sops b (answer_idle b)
    finish :
        (bt : Batch S V) (outcome : Result (ℕ × WalEntry))
        → b.task ≡ appending bt
        → Step cfg sops b (finish_flush b bt outcome)
    asks : (others : ℕ) → b.asking ≡ suc others → Step cfg sops b (ask b others)
    requests : (others : ℕ) → b.requesting ≡ suc others → Step cfg sops b (request b others)
    releases : b.task ≡ ending → Step cfg sops b (release b)
    looks : (others : ℕ) → b.looking ≡ suc others → Step cfg sops b (look cfg b others)
    checks :
        (locked : Bool) (others : ℕ)
        → b.arming ≡ suc others
        → Step cfg sops b (check_pending b locked others)
    sets :
        (last_locked locked : Bool) (others : ℕ)
        → b.setting ≡ suc others
        → Step cfg sops b (set_cooldown_timer cfg b last_locked locked others)

  pub data Reach (cfg : WriteBufferConfig) (sops : SchemaOps S) (b : Buffers S V)
      : Buffers S V → Type 0 where
    here : Reach cfg sops b b
    next : {c d : Buffers S V} → Reach cfg sops b c → Step cfg sops c d → Reach cfg sops b d
