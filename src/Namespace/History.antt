-- ===== src/Namespace/History.antt =====
-- How `load_docs_at_wal_commit` of src/namespace.rs gets its documents: the state at the snapshot,
-- and then the segments after it.
use openpuffer.Base.{
  ℕ, zero, suc, ◌+◌, ◌-◌, ◌≤◌, ◌<◌, ◌≡◌, refl, sym, ap, ◌∙◌, none, some, [], arith, inl, inr,
}
use openpuffer.Base.Logic.{ok, err, ◌>>=◌, if◌then◌else◌, ◌==◌, ltb, Bool-cases, Option-cases}
use openpuffer.Error.{Result}
use openpuffer.Wal.Entry.{Docs}
use openpuffer.Wal.Codec.{Codec}
use openpuffer.Wal.Format.{WalCorruptPolicy}
use openpuffer.Meta.Types.{u64_max, NamespaceMeta, saturating_add}
use openpuffer.Scheduling.Compaction.{wal_replay_from}
use openpuffer.Namespace.Store.{Store, into_docs}
use openpuffer.Namespace.Load.{
  and_then, replay_one, replay_count, replay_wal_range, snapshot_baseline, load_docs_at_wal_commit,
}

-- The documents with the sequence number that they were brought up to.
abbrev pub loaded : {A : Type 0} → ℕ → Result (Unit {0}) × A → Result (A × ℕ)
loaded n (ok _, docs) = ok (docs, n)
loaded n (err e, docs) = err e

pub and_then-ok :
    {A : Type 0} (p : Result (Unit {0}) × A) (f : A → Result (Unit {0}) × A) (b : A)
    → and_then p f ≡ (ok tt, b)
    → (a : A) × (p ≡ (ok tt, a)) × (f a ≡ (ok tt, b))
and_then-ok (ok tt, a) f b h = (a, refl, h)
and_then-ok (err e, a) f b h = absurd (ground arith)

pub loaded-ok :
    {A : Type 0} (n : ℕ) (p : Result (Unit {0}) × A) (b : A) (m : ℕ)
    → loaded n p ≡ ok (b, m)
    → (p ≡ (ok tt, b)) × (m ≡ n)
loaded-ok n (ok tt, a) b m h = (ground arith, ground arith)
loaded-ok n (err e, a) b m h = absurd (ground arith)

and_then-cong :
    {A : Type 0} (p : Result (Unit {0}) × A) (f g : A → Result (Unit {0}) × A)
    → ((a : A) → f a ≡ g a)
    → and_then p f ≡ and_then p g
and_then-cong (ok _, a) f g h = h a
and_then-cong (err e, a) f g h = refl

and_then_assoc :
    {A : Type 0} (p : Result (Unit {0}) × A) (f g : A → Result (Unit {0}) × A)
    → and_then (and_then p f) g ≡ and_then p (λ a. and_then (f a) g)
and_then_assoc (ok _, a) f g = refl
and_then_assoc (err e, a) f g = refl

loaded-bind :
    {A : Type 0} (n : ℕ) (p : Result (Unit {0}) × A)
    → (let (r, d) = p in r >>= λ _. ok (d, n)) ≡ loaded n p
loaded-bind n (ok _, a) = refl
loaded-bind n (err e, a) = refl

pub from_count : (last n : ℕ) → suc n - suc last ≡ n - last
from_count last n = omega arith

module _ {S V : Type 0} (c : Codec V) where
  -- A replay can be cut at any segment.
  pub replay_count-add :
      (s : Store S V) (policy : WalCorruptPolicy) (n m seq : ℕ) (docs : Docs V)
      → replay_count c s policy (n + m) seq docs
        ≡ and_then (replay_count c s policy n seq docs) (λ d. replay_count c s policy m (seq + n) d)
  unfolding replay_count
  replay_count-add s policy zero m seq docs = ground arith
  replay_count-add s policy (suc n) m seq docs =
      let one = replay_one c s policy seq docs in
      let rest = λ (d : Docs V). replay_count c s policy n (suc seq) d in
      let more = λ (d : Docs V). replay_count c s policy m (seq + suc n) d in
      let a = and_then_assoc one rest more in
      let b : seq + suc n ≡ suc seq + n = omega arith in
      let e : suc n + m ≡ suc (n + m) = omega arith in
      rw (e, a)
        (and_then-cong one (λ d. replay_count c s policy (n + m) (suc seq) d)
          (λ d. and_then (rest d) more) (λ d. rw b (replay_count-add s policy n m (suc seq) d)))

  -- The documents at the snapshot point of the metadata.
  abbrev pub at_snapshot :
      Store S V → WalCorruptPolicy → NamespaceMeta S → Result (Unit {0}) × Docs V
  at_snapshot s policy meta =
      let replayed = replay_count c s policy meta.wal_snapshot_seq 1 [] in
      if ltb 0 meta.wal_snapshot_seq
      then (elim s.snapshot [
        | none ↦ replayed
        | some snap ↦
            if snap.seq == meta.wal_snapshot_seq then (ok tt, into_docs snap) else replayed
      ])
      else (ok tt, [])

  abbrev pub at_commit :
      Store S V → WalCorruptPolicy → NamespaceMeta S → ℕ → Result (Unit {0}) × Docs V
  at_commit s policy meta n =
      and_then (at_snapshot s policy meta)
        (λ d. replay_count c s policy (n - meta.wal_snapshot_seq) (suc meta.wal_snapshot_seq) d)

  from_baseline :
      (s : Store S V) (policy : WalCorruptPolicy) (docs : Docs V) (last n : ℕ)
      → last ≤ n
      → n < u64_max
      → (elim (wal_replay_from last n) [
        | none ↦ ok (docs, last)
        | some from ↦
            let (r, docs') = replay_wal_range c s policy docs from n in r >>= λ _. ok (docs', n)
      ])
        ≡ loaded n (replay_count c s policy (n - last) (suc last) docs)
  unfolding wal_replay_from replay_wal_range saturating_add replay_count
  from_baseline s policy docs last n l u = elim (Bool-cases (n == last)) [
    | inl e ↦ let z : n - last ≡ 0 = ground arith in rw z (ground arith)
    | inr e ↦
        let f : wal_replay_from last n ≡ some (suc last) = ground arith in
        let g : replay_wal_range c s policy docs (suc last) n
            ≡ replay_count c s policy (n - last) (suc last) docs =
          ground (arith, from_count last n) in
        rw (f, g) (loaded-bind n (replay_count c s policy (n - last) (suc last) docs))
  ]

  at_commit-replayed :
      (s : Store S V) (policy : WalCorruptPolicy) (snap n : ℕ)
      → snap ≤ n
      → replay_count c s policy (n - 0) 1 []
        ≡ and_then
            (replay_count c s policy snap 1 [])
            (λ d. replay_count c s policy (n - snap) (suc snap) d)
  at_commit-replayed s policy snap n l =
      let e : n - 0 ≡ snap + (n - snap) = omega arith in
      let f : suc snap ≡ 1 + snap = omega arith in
      rw f (
        ap (λ x. replay_count c s policy x 1 []) e ∙ replay_count-add s policy snap (n - snap) 1 [])

  -- The load, by the state that it starts from.
  load-baseline :
      (s : Store S V) (policy : WalCorruptPolicy) (meta : NamespaceMeta S) (docs : Docs V)
      (last : ℕ)
      → snapshot_baseline c s meta ≡ (docs, last)
      → last ≤ meta.wal_commit_seq
      → meta.wal_commit_seq < u64_max
      → load_docs_at_wal_commit c s policy meta
        ≡ loaded meta.wal_commit_seq
            (replay_count c s policy (meta.wal_commit_seq - last) (suc last) docs)
  unfolding load_docs_at_wal_commit
  load-baseline s policy meta docs last h l u =
      let n = meta.wal_commit_seq in
      let from_pair : Docs V × ℕ → Result (Docs V × ℕ) = λ b. elim (wal_replay_from b.1 n) [
        | none ↦ ok (b.0, b.1)
        | some from ↦
            let (r, docs') = replay_wal_range c s policy b.0 from n in r >>= λ _. ok (docs', n)
      ] in
      ap from_pair h ∙ from_baseline s policy docs last n l u

  -- What `load_docs_at_wal_commit` returns at any commit point: the state at the snapshot, and the
  -- segments after it, whether or not the snapshot is the one that the metadata names.
  pub load_docs_at_wal_commit-at_commit :
      (s : Store S V) (policy : WalCorruptPolicy) (meta : NamespaceMeta S)
      → meta.wal_snapshot_seq ≤ meta.wal_commit_seq
      → meta.wal_commit_seq < u64_max
      → load_docs_at_wal_commit c s policy meta
        ≡ loaded meta.wal_commit_seq (at_commit s policy meta meta.wal_commit_seq)
  unfolding snapshot_baseline replay_count
  load_docs_at_wal_commit-at_commit s policy meta l u =
      let n = meta.wal_commit_seq in
      let snap = meta.wal_snapshot_seq in
      let all = at_commit-replayed s policy snap n l in
      elim (Bool-cases (ltb 0 snap)) [
        | inr e ↦
            let z : snap ≡ 0 = ground arith in
            let a : at_commit s policy meta n ≡ replay_count c s policy (n - 0) 1 [] =
              ground arith in
            load-baseline s policy meta [] 0 (ground arith) (omega arith) u ∙ ap (loaded n) (sym a)
        | inl e ↦ elim (Option-cases s.snapshot) [
          | inl h ↦
              let a : at_snapshot s policy meta ≡ replay_count c s policy snap 1 [] =
                ground arith in
              load-baseline s policy meta [] 0 (ground arith) (omega arith) u
              ∙ ap (loaded n) (
                  all
                  ∙ ap (λ p. and_then p (λ d. replay_count c s policy (n - snap) (suc snap) d))
                      (sym a))
          | inr (x, h) ↦ elim (Bool-cases (x.seq == snap)) [
            | inl g ↦
                let a : at_snapshot s policy meta ≡ (ok tt, into_docs x) = ground arith in
                let q : x.seq ≡ snap = ground arith in
                load-baseline s policy meta (into_docs x) snap (ground arith) l u
                ∙ ap
                    (λ p.
                      loaded n (and_then p (λ d. replay_count c s policy (n - snap) (suc snap) d)))
                    (sym a)
            | inr g ↦
                let a : at_snapshot s policy meta ≡ replay_count c s policy snap 1 [] =
                  ground arith in
                load-baseline s policy meta [] 0 (ground arith) (omega arith) u
                ∙ ap (loaded n) (
                    all
                    ∙ ap (λ p. and_then p (λ d. replay_count c s policy (n - snap) (suc snap) d))
                        (sym a))
          ]
        ]
      ]
