-- ===== src/Namespace/Commit.antt =====
-- What a successful `append_wal` leaves behind (src/namespace.rs).
use openpuffer.Base.{
  ℕ, zero, suc, ◌≡◌, ◌<◌, ◌∙◌, refl, ap, false, Option, none, some, arith, inl, inr,
}
use openpuffer.Base.Logic.{ok, ◌==◌, Result-cases, Option-cases}
use openpuffer.Error.{Result}
use openpuffer.Wal.Entry.{Bytes}
use openpuffer.Wal.Codec.{Codec}
use openpuffer.Wal.Format.{encode}
use openpuffer.Meta.Types.{NamespaceMeta, SchemaOps, u64_max, saturating_add, next_wal_seq}
use openpuffer.Meta.Commit.{meta_after_wal_commit_options}
use openpuffer.Meta.Valid.{wal_commit_fields}
use openpuffer.Namespace.Store.{Store, fetch_meta, put_wal, delete_wal, put_meta, cas_meta}
use openpuffer.Namespace.Append.{
  Attempt, Append, read_attempt, begin_attempt, commit_attempt, finish_attempt, append_rounds,
  append_wal,
}

module _ {S V : Type 0} (c : Codec V) (ops : SchemaOps S) where
  abbrev pub next_meta : Append S → Attempt S → Result (NamespaceMeta S)
  next_meta a t = meta_after_wal_commit_options ops t.meta t.seq a.schema_patch a.distance_metric

  -- A conditional put that succeeds writes the metadata that it is given.
  cas_meta_ok :
      (s s' : Store S V) (e : Option ℕ) (m : NamespaceMeta S)
      → cas_meta s e m ≡ some s'
      → s' ≡ put_meta s m
  unfolding cas_meta
  cas_meta_ok s s' none m h = ground arith
  cas_meta_ok s s' (some e) m h = ground arith

  -- The metadata of the store says that `seq` is committed.
  abbrev pub Committed : Store S V → ℕ → Type 0
  Committed s seq = (n : NamespaceMeta S) × (s.meta ≡ some n) × (n.wal_commit_seq ≡ seq)

  finish_attempt-Committed :
      (s s' : Store S V) (a : Append S) (t : Attempt S) (seq : ℕ)
      (retry : Option (Store S V → Result ℕ × Store S V))
      → ((again : Store S V → Result ℕ × Store S V)
          → retry ≡ some again
          → (r : Store S V) → again r ≡ (ok seq, s')
          → Committed s' seq)
      → finish_attempt c ops s a t retry ≡ (ok seq, s')
      → Committed s' seq
  unfolding finish_attempt commit_attempt put_meta
  finish_attempt-Committed s s' a t seq retry ih h = elim (Result-cases (next_meta a t)) [
    | inr (e, n) ↦ absurd (ground arith)
    | inl (n, hn) ↦ elim (Option-cases (cas_meta s t.meta_etag n)) [
      | inr (s2, hc) ↦
          let r = cas_meta_ok s s2 t.meta_etag n hc in
          let (_, q, _, _, _, _) =
            wal_commit_fields ops t.meta n t.seq a.schema_patch a.distance_metric hn in
          (n, ground arith, ground arith)
      | inl hc ↦ elim (Option-cases retry) [
        | inl e ↦ absurd (ground arith)
        | inr (again, e) ↦ ih again e (delete_wal s t.seq) (ground arith)
      ]
    ]
  ]

  append_rounds-Committed :
      (n : ℕ) (others : ℕ → Store S V → Store S V) (s s' : Store S V) (a : Append S) (seq : ℕ)
      → append_rounds c ops n others s a ≡ (ok seq, s')
      → Committed s' seq
  unfolding append_rounds begin_attempt
  append_rounds-Committed zero others s s' a seq h = elim (Result-cases (encode c a.entry)) [
    | inr (e, g) ↦ absurd (ground arith)
    | inl (body, g) ↦
        let t = read_attempt c ops s in
        finish_attempt-Committed (others zero (put_wal s t.seq body)) s' a t seq none
          (λ again e. absurd (ground arith)) (ground arith)
  ]
  append_rounds-Committed (suc n) others s s' a seq h = elim (Result-cases (encode c a.entry)) [
    | inr (e, g) ↦ absurd (ground arith)
    | inl (body, g) ↦
        let t = read_attempt c ops s in
        let again = λ (r : Store S V). append_rounds c ops n others r a in
        finish_attempt-Committed (others (suc n) (put_wal s t.seq body)) s' a t seq (some again)
          (λ again' e r q. append_rounds-Committed n others r s' a seq (ground arith))
          (ground arith)
  ]

  -- Whatever other writers do between the steps of an append, and however many rounds it takes: if it
  -- reports a sequence number, then the metadata that it has written says that this is the commit
  -- point.
  pub append_wal-Committed :
      (others : ℕ → Store S V → Store S V) (s s' : Store S V) (a : Append S) (seq : ℕ)
      → append_wal c ops others s a ≡ (ok seq, s')
      → Committed s' seq
  unfolding append_wal
  append_wal-Committed others s s' a seq h = append_rounds-Committed 7 others s s' a seq h

  -- The first round of an append that nobody disturbs.
  pub append_wal_undisturbed :
      (s : Store S V) (a : Append S) (body : Bytes) (n : NamespaceMeta S)
      → encode c a.entry ≡ ok body
      → next_meta a (read_attempt c ops s) ≡ ok n
      → append_wal c ops (λ _ x. x) s a
        ≡ (ok (read_attempt c ops s).seq, put_meta (put_wal s (read_attempt c ops s).seq body) n)
  unfolding append_wal append_rounds begin_attempt finish_attempt commit_attempt cas_meta
      read_attempt put_wal fetch_meta
  append_wal_undisturbed s a body n he hn = elim (Option-cases s.meta) [
    | inl e ↦ ground arith
    | inr (m, e) ↦ ground arith
  ]

  -- The sequence number of the last committed segment; 0 before the first.
  abbrev pub commit_point : Store S V → ℕ
  commit_point s = elim s.meta [ none ↦ 0 | some m ↦ m.wal_commit_seq ]

  next_seq :
      (s : Store S V) → commit_point s < u64_max → (read_attempt c ops s).seq ≡ suc (commit_point s)
  unfolding read_attempt fetch_meta next_wal_seq saturating_add
  next_seq s small = elim (Option-cases s.meta) [ inl e ↦ ground arith | inr (m, e) ↦ ground arith ]

  -- An append that nobody disturbs succeeds in its first round, if its entry can be encoded, the metadata
  -- accepts its schema and its metric, and the commit point is below 2^64 - 1: it reports the number after
  -- the commit point, the encoded entry is the segment of this number, every other segment and the snapshot
  -- stay, and the new metadata makes this number the commit point and keeps the index cursor and the number
  -- of the snapshot.
  pub append_wal_alone :
      (s : Store S V) (a : Append S) (body : Bytes) (n : NamespaceMeta S)
      → encode c a.entry ≡ ok body
      → next_meta a (read_attempt c ops s) ≡ ok n
      → commit_point s < u64_max
      → (s' : Store S V) × (append_wal c ops (λ _ x. x) s a ≡ (ok (suc (commit_point s)), s'))
        × (s'.wal (suc (commit_point s)) ≡ some body)
        × ((k : ℕ) → suc (commit_point s) == k ≡ false → s'.wal k ≡ s.wal k)
        × (s'.snapshot ≡ s.snapshot)
        × (s'.meta ≡ some n)
        × (n.wal_commit_seq ≡ suc (commit_point s))
        × (n.index_cursor ≡ (read_attempt c ops s).meta.index_cursor)
        × (n.wal_snapshot_seq ≡ (read_attempt c ops s).meta.wal_snapshot_seq)
  unfolding put_meta put_wal
  append_wal_alone s a body n he hn small =
      let t = read_attempt c ops s in
      let seq = next_seq s small in
      let (_, commit, cursor, snap, _, _) =
        wal_commit_fields ops t.meta n t.seq a.schema_patch a.distance_metric hn in
      (
        put_meta (put_wal s t.seq body) n,
        append_wal_undisturbed s a body n he hn
            ∙ ap (λ k. (ok k, put_meta (put_wal s t.seq body) n)) seq,
        ground (arith, seq),
        λ k other. ground (arith, seq),
        refl,
        refl,
        commit ∙ seq,
        cursor,
        snap,
      )
