-- ===== src/Buffer/Rate.antt =====
-- The commit rate of the write buffer (src/buffer.rs, `wait_commit_cooldown`).
use openpuffer.Base.{
  ℕ, ◌+◌, ◌≤◌, ◌≡◌, refl, Option, none, some, List, [], ◌∷◌, Bool, arith, inl, inr, ◌⊎◌,
}
use openpuffer.Base.Logic.{ok, err}
use openpuffer.Error.{Result}
use openpuffer.Wal.Entry.{WalEntry}
use openpuffer.Meta.Types.{SchemaOps}
use openpuffer.Buffer.State.{
  WriteBufferConfig, Request, Batch, remaining_commit_cooldown, drain-cases,
}
use openpuffer.Buffer.Steps.{
  Task, idle, waiting, rechecking, ending, appending, Buffers, request_flush, after_enqueue, write,
  cooldown, start_flush, answer_idle, finish_flush, ask, request, release, look, check_pending,
  set_cooldown_timer, remove_timer, Step, wait, arrive, wake, start, recheck, finish, asks,
  requests, releases, looks, checks, sets, Reach, here, next, initial,
}

-- Times, the newest first, of which each is `interval` after the one before.
abbrev pub Spaced : ℕ → List ℕ → Type 0
Spaced interval [] = Unit
Spaced interval (t ∷ []) = Unit
Spaced interval (t ∷ u ∷ ts) = (u + interval ≤ t) × Spaced interval (u ∷ ts)

abbrev pub newest : List ℕ → Option ℕ
newest [] = none
newest (t ∷ ts) = some t

-- A commit at this time would come late enough after the last one.
abbrev pub Cool : ℕ → Option ℕ → ℕ → Type 0
Cool interval none now = Unit
Cool interval (some t) now = t + interval ≤ now

abbrev pub Past : Option ℕ → ℕ → Type 0
Past none now = Unit
Past (some t) now = t ≤ now

elapsed-Cool :
    (cfg : WriteBufferConfig) (last : Option ℕ) (now : ℕ)
    → Past last now
    → remaining_commit_cooldown last cfg.min_commit_interval now ≡ 0
    → Cool cfg.min_commit_interval last now
unfolding remaining_commit_cooldown
elapsed-Cool cfg none now e h = tt
elapsed-Cool cfg (some t) now e h = omega arith

Past-later : (last : Option ℕ) (now later : ℕ) → now ≤ later → Past last now → Past last later
Past-later none now later h e = tt
Past-later (some t) now later h e = omega arith

Spaced-commit :
    (interval now : ℕ) (last : Option ℕ) (times : List ℕ)
    → last ≡ newest times
    → Cool interval last now
    → Spaced interval times
    → Spaced interval (now ∷ times)
Spaced-commit interval now last [] e c s = tt
Spaced-commit interval now last (t ∷ ts) e c s =
    let c' : Cool interval (some t) now = rw e at c in (c', s)

module _ {S V : Type 0} where
  -- A flush is in `append_wal` only if the cooldown is over.
  abbrev pub Ready : ℕ → Option ℕ → ℕ → Task S V → Type 0
  Ready interval last now (appending bt) = Cool interval last now
  Ready interval last now _ = Unit

  pub record Pace (interval : ℕ) (last : Option ℕ) (now : ℕ) (times : List ℕ) (task : Task S V)
      : Type 0 where
    pub anchored : last ≡ newest times
    pub elapsed : Past last now
    pub ready : Ready interval last now task
    pub spaced : Spaced interval times

  abbrev pub Paced : ℕ → Buffers S V → Type 0
  Paced interval b = Pace interval b.last_committed_at b.now b.commits b.task

  -- An operation that leaves the clock and the commits alone, and starts no append.
  record Quiet (b c : Buffers S V) : Type 0 where
    last : c.last_committed_at ≡ b.last_committed_at
    time : c.now ≡ b.now
    times : c.commits ≡ b.commits
    task : (c.task ≡ b.task) ⊎ (c.task ≡ waiting)

  Pace-calm :
      (interval : ℕ) (last : Option ℕ) (now : ℕ) (times : List ℕ) (t u : Task S V)
      → Pace interval last now times t
      → ((later : ℕ) → Ready interval last later u)
      → Pace interval last now times u
  Pace-calm interval last now times t u p r = record {
    anchored = p.anchored;
    elapsed = p.elapsed;
    ready = r now;
    spaced = p.spaced;
  }

  Quiet-Paced : (interval : ℕ) (b c : Buffers S V) → Quiet b c → Paced interval b → Paced interval c
  Quiet-Paced interval b c q p = elim q.task [
    | inl same ↦ rw (q.last, q.time, q.times, same) p
    | inr w ↦
        rw (q.last, q.time, q.times, w)
          (Pace-calm interval b.last_committed_at b.now b.commits b.task waiting p (λ later. tt))
  ]

  request_flush-Quiet : (b : Buffers S V) → Quiet b (request_flush b)
  unfolding request_flush
  request_flush-Quiet b = ground arith

  after_enqueue-Quiet : (cfg : WriteBufferConfig) (b : Buffers S V) → Quiet b (after_enqueue cfg b)
  unfolding after_enqueue
  after_enqueue-Quiet cfg b = ground arith

  write-Quiet :
      (cfg : WriteBufferConfig) (sops : SchemaOps S) (b : Buffers S V) (r : Request S V) (tx : ℕ)
      → Quiet b (write cfg sops b r tx).1
  unfolding write
  write-Quiet cfg sops b r tx = ground arith

  ask-Quiet : (b : Buffers S V) (others : ℕ) → Quiet b (ask b others)
  unfolding ask
  ask-Quiet b others = ground arith

  request-Quiet : (b : Buffers S V) (others : ℕ) → Quiet b (request b others)
  unfolding request
  request-Quiet b others = ground arith

  release-Quiet : (b : Buffers S V) → Quiet (record b { task = idle }) (release b)
  unfolding release
  release-Quiet b = ground arith

  look-Quiet :
      (cfg : WriteBufferConfig) (b : Buffers S V) (others : ℕ) → Quiet b (look cfg b others)
  unfolding look
  look-Quiet cfg b others = ground arith

  check_pending-Quiet :
      (b : Buffers S V) (locked : Bool) (others : ℕ) → Quiet b (check_pending b locked others)
  unfolding check_pending
  check_pending-Quiet b locked others = ground arith

  set_cooldown_timer-Quiet :
      (cfg : WriteBufferConfig) (b : Buffers S V) (last_locked locked : Bool) (others : ℕ)
      → Quiet b (set_cooldown_timer cfg b last_locked locked others)
  unfolding set_cooldown_timer
  set_cooldown_timer-Quiet cfg b last_locked locked others = ground arith

  answer_idle-Quiet : (b : Buffers S V) → Quiet (record b { task = ending }) (answer_idle b)
  unfolding answer_idle
  answer_idle-Quiet b = ground arith

  Ready-later :
      (interval : ℕ) (last : Option ℕ) (now later : ℕ) (t : Task S V)
      → now ≤ later
      → Ready interval last now t
      → Ready interval last later t
  Ready-later interval none now later (appending bt) h r = tt
  Ready-later interval (some l) now later (appending bt) h r = omega arith
  Ready-later interval last now later idle h r = tt
  Ready-later interval last now later waiting h r = tt
  Ready-later interval last now later rechecking h r = tt
  Ready-later interval last now later ending h r = tt

  start_flush-Paced :
      (cfg : WriteBufferConfig) (b : Buffers S V)
      → cooldown cfg b ≡ 0
      → Paced cfg.min_commit_interval b
      → Paced cfg.min_commit_interval (start_flush b)
  unfolding start_flush cooldown
  start_flush-Paced cfg b h p = elim (drain-cases b.state) [
    | inl (n, e) ↦
        rw (e, start_flush)
          (Pace-calm cfg.min_commit_interval b.last_committed_at b.now b.commits b.task rechecking p
            (λ later. tt))
    | inr (bt, n, e) ↦
        rw (e, start_flush)
          (record {
            anchored = p.anchored;
            elapsed = p.elapsed;
            ready = elapsed-Cool cfg b.last_committed_at b.now p.elapsed h;
            spaced = p.spaced;
          })
  ]

  finish_flush-Paced :
      (interval : ℕ) (b : Buffers S V) (bt : Batch S V) (outcome : Result (ℕ × WalEntry))
      → b.task ≡ appending bt
      → Paced interval b
      → Paced interval (finish_flush b bt outcome)
  unfolding finish_flush
  finish_flush-Paced interval b bt (ok (seq, entry)) e p =
      let cool : Ready interval b.last_committed_at b.now (appending bt) = rw e at p.ready in
      record {
        anchored = refl;
        elapsed = omega arith;
        ready = tt;
        spaced =
            Spaced-commit interval b.now b.last_committed_at b.commits p.anchored cool p.spaced;
      }
  finish_flush-Paced interval b bt (err e') e p =
      Pace-calm interval b.last_committed_at b.now b.commits b.task ending p (λ later. tt)

  Step-Paced :
      (cfg : WriteBufferConfig) (sops : SchemaOps S) {b c : Buffers S V}
      → Step cfg sops b c
      → Paced cfg.min_commit_interval b
      → Paced cfg.min_commit_interval c
  Step-Paced cfg sops {b = b} (wait later h) p = record {
    anchored = p.anchored;
    elapsed = Past-later b.last_committed_at b.now later h p.elapsed;
    ready = Ready-later cfg.min_commit_interval b.last_committed_at b.now later b.task h p.ready;
    spaced = p.spaced;
  }
  Step-Paced cfg sops {b = b} (arrive r tx) p =
      Quiet-Paced cfg.min_commit_interval b _ (write-Quiet cfg sops b r tx) p
  Step-Paced cfg sops {b = b} (wake h due s d) p =
      let b' : Buffers S V = record b { sleeping = remove_timer b.sleeping h } in
      Quiet-Paced cfg.min_commit_interval b' _ (request_flush-Quiet b') p
  Step-Paced cfg sops {b = b} (start e h) p = start_flush-Paced cfg b h p
  Step-Paced cfg sops {b = b} (recheck e) p =
      Quiet-Paced cfg.min_commit_interval (record b { task = ending }) _ (answer_idle-Quiet b)
        (Pace-calm cfg.min_commit_interval b.last_committed_at b.now b.commits b.task ending p
          (λ later. tt))
  Step-Paced cfg sops {b = b} (finish bt outcome e) p =
      finish_flush-Paced cfg.min_commit_interval b bt outcome e p
  Step-Paced cfg sops {b = b} (asks others e) p =
      Quiet-Paced cfg.min_commit_interval b _ (ask-Quiet b others) p
  Step-Paced cfg sops {b = b} (requests others e) p =
      Quiet-Paced cfg.min_commit_interval b _ (request-Quiet b others) p
  Step-Paced cfg sops {b = b} (releases e) p =
      Quiet-Paced cfg.min_commit_interval (record b { task = idle }) _ (release-Quiet b)
        (Pace-calm cfg.min_commit_interval b.last_committed_at b.now b.commits b.task idle p
          (λ later. tt))
  Step-Paced cfg sops {b = b} (looks others e) p =
      Quiet-Paced cfg.min_commit_interval b _ (look-Quiet cfg b others) p
  Step-Paced cfg sops {b = b} (checks l others e) p =
      Quiet-Paced cfg.min_commit_interval b _ (check_pending-Quiet b l others) p
  Step-Paced cfg sops {b = b} (sets l m others e) p =
      Quiet-Paced cfg.min_commit_interval b _ (set_cooldown_timer-Quiet cfg b l m others) p

  Reach-Paced :
      (cfg : WriteBufferConfig) (sops : SchemaOps S) {b c : Buffers S V}
      → Reach cfg sops b c
      → Paced cfg.min_commit_interval b
      → Paced cfg.min_commit_interval c
  Reach-Paced cfg sops here p = p
  Reach-Paced cfg sops (next r s) p = Step-Paced cfg sops s (Reach-Paced cfg sops r p)

  -- From an empty buffer, whatever writers, timers and appends do, each batch is committed at least the
  -- configured interval after the one before.
  pub commits-Spaced :
      (cfg : WriteBufferConfig) (sops : SchemaOps S) (now : ℕ) {b : Buffers S V}
      → Reach cfg sops (initial now) b
      → Spaced cfg.min_commit_interval b.commits
  unfolding initial
  commits-Spaced cfg sops now r =
      let p =
        Reach-Paced cfg sops r
          (record { anchored = refl; elapsed = tt; ready = tt; spaced = tt }) in
      p.spaced
