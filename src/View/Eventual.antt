-- ===== src/View/Eventual.antt =====
-- Queries with eventual consistency on a freshly loaded view (src/view.rs): `load`,
-- `build_doc_last_wal_seq` and `docs_for_query`.
use openpuffer.Base.{
  ℕ, zero, suc, ◌+◌, ◌-◌, ◌≤◌, ◌<◌, ◌≡◌, refl, sym, ap, ◌∙◌, String, none, some, Bool, true, List,
  [], ◌∷◌, arith, inl, inr, eq_iff,
}
use openpuffer.Base.Logic.{
  ok, ◌>>=◌, >>=-eq-ok, if◌then◌else◌, leb, ltb, Bool-cases, Option-cases, Result-cases,
}
use openpuffer.Base.Maps.{
  StrMap, is_some, get, insert, keys, contains, get-insert, filter_map_entries,
}
use openpuffer.Wal.Entry.{Document, Docs, WalEntry}
use openpuffer.Wal.Codec.{Codec}
use openpuffer.Wal.Format.{
  WalCorruptPolicy, with_policy, decode_segment, decode_segment_with_policy,
}
use openpuffer.Wal.Apply.{apply_entry}
use openpuffer.Meta.Types.{u64_max, NamespaceMeta, saturating_add}
use openpuffer.Meta.Valid.{IsValid}
use openpuffer.Namespace.Store.{Store, read_wal_segment}
use openpuffer.Namespace.Load.{read_wal_entry, replay_one, replay_count, load_docs_at_wal_commit}
use openpuffer.Namespace.History.{
  and_then-ok, loaded-ok, loaded, replay_count-add, at_snapshot, at_commit,
  load_docs_at_wal_commit-at_commit,
}
use openpuffer.View.State.{NamespaceView, seq_or_zero, update_doc_wal_seq_map, docs_for_query}
use openpuffer.View.Load.{seed_ids, track_count, build_doc_last_wal_seq, load_at}
use openpuffer.View.Tracked.{UpTo, step-UpTo, step-contains_key}

get-filter :
    {V : Type 0} (keep : String → Bool) (m : StrMap V) (k : String)
    → get (filter_map_entries (λ id _. keep id) m) k ≡ (if keep k then get m k else none)
unfolding get filter_map_entries
get-filter keep [] k = ground arith
get-filter keep ((j, v) ∷ m) k = ground (arith, get-filter keep m k, eq_iff j k)

get-seed_ids :
    (map : StrMap ℕ) (seq : ℕ) (ids : List String) (k : String)
    → get (seed_ids map seq ids) k ≡ (if contains ids k then some seq else get map k)
unfolding seed_ids contains
get-seed_ids map seq [] k = refl
get-seed_ids map seq (id ∷ ids) k =
    ground (arith, get-seed_ids (insert map id seq) seq ids k, get-insert map id seq k)

contains-keys : {V : Type 0} (m : StrMap V) (k : String) → contains (keys m) k ≡ is_some (get m k)
unfolding contains get
contains-keys [] k = refl
contains-keys ((j, v) ∷ m) k = ground (arith, contains-keys m k)

module _ {S V : Type 0} (c : Codec V) where
  track_count-add :
      (s : Store S V) (n m seq : ℕ) (map : StrMap ℕ)
      → track_count c s (n + m) seq map
        ≡ (track_count c s n seq map >>= λ map'. track_count c s m (seq + n) map')
  unfolding track_count
  track_count-add s zero m seq map = ground arith
  track_count-add s (suc n) m seq map =
      let b : seq + suc n ≡ suc seq + n = omega arith in
      let e : suc n + m ≡ suc (n + m) = omega arith in
      rw (e, b)
        (elim (Result-cases (read_wal_entry c s seq)) [
          | inl (entry, h) ↦
              rw h (track_count-add s n m (suc seq) (update_doc_wal_seq_map c map seq entry))
          | inr (x, h) ↦ rw h refl
        ])

  -- A segment that can be read is applied, whatever the policy is.
  replay_one-entry :
      (s : Store S V) (policy : WalCorruptPolicy) (seq : ℕ) (docs docs' : Docs V) (e : WalEntry)
      → read_wal_entry c s seq ≡ ok e
      → replay_one c s policy seq docs ≡ (ok tt, docs')
      → apply_entry c docs e ≡ (ok tt, docs')
  unfolding read_wal_entry replay_one decode_segment_with_policy with_policy
  replay_one-entry s policy seq docs docs' e h r =
      let (bytes, b, d) =
        >>=-eq-ok (read_wal_segment s seq) (λ bytes. decode_segment c bytes (some seq)) h in
      ground arith

  -- What each entry keeps, a replay together with the recording of its numbers keeps.
  replay_track :
      (P : Docs V → StrMap ℕ → Type 0) (low : ℕ) (s : Store S V) (policy : WalCorruptPolicy)
      → ((docs docs' : Docs V) (map : StrMap ℕ) (seq : ℕ) (e : WalEntry)
          → low ≤ seq
          → apply_entry c docs e ≡ (ok tt, docs')
          → P docs map
          → P docs' (update_doc_wal_seq_map c map seq e))
      → (n seq : ℕ) (docs docs' : Docs V) (map map' : StrMap ℕ) → low ≤ seq
      → replay_count c s policy n seq docs ≡ (ok tt, docs')
      → track_count c s n seq map ≡ ok map'
      → P docs map
      → P docs' map'
  unfolding replay_count track_count
  replay_track P low s policy step zero seq docs docs' map map' l r t p =
      let a : docs ≡ docs' = ground arith in
      let b : map ≡ map' = ground arith in rw (sym a, sym b) p
  replay_track P low s policy step (suc n) seq docs docs' map map' l r t p =
      let (docs1, r1, r2) =
        and_then-ok (replay_one c s policy seq docs) (λ d. replay_count c s policy n (suc seq) d)
          docs' r in
      let (e, t1, t2) =
        >>=-eq-ok (read_wal_entry c s seq)
          (λ e. track_count c s n (suc seq) (update_doc_wal_seq_map c map seq e)) t in
      replay_track P low s policy step n (suc seq) docs1 docs' (update_doc_wal_seq_map c map seq e)
        map' (omega arith) r2 t2
        (step docs docs1 map seq e l (replay_one-entry s policy seq docs docs1 e t1 r1) p)

  -- `build_doc_last_wal_seq` from the snapshot on.
  seeded : NamespaceMeta S → Docs V → StrMap ℕ
  seeded meta docs =
      if ltb 0 meta.wal_snapshot_seq then seed_ids [] meta.wal_snapshot_seq (keys docs) else []

  build-track_count :
      (s : Store S V) (meta : NamespaceMeta S) (docs : Docs V)
      → meta.wal_snapshot_seq < u64_max
      → build_doc_last_wal_seq c s meta (some docs)
        ≡ track_count c s
            (meta.wal_commit_seq - meta.wal_snapshot_seq)
            (suc meta.wal_snapshot_seq)
            (seeded meta docs)
  unfolding build_doc_last_wal_seq saturating_add seeded
  build-track_count s meta docs u =
      let from : ℕ =
        if ltb 0 meta.wal_snapshot_seq then saturating_add meta.wal_snapshot_seq 1 else 1 in
      let e : from ≡ suc meta.wal_snapshot_seq = ground arith in
      let f : suc meta.wal_commit_seq - suc meta.wal_snapshot_seq
          ≡ meta.wal_commit_seq - meta.wal_snapshot_seq =
        omega arith in
      ap (λ x. track_count c s (suc meta.wal_commit_seq - x) x (seeded meta docs)) e
      ∙ ap (λ x. track_count c s x (suc meta.wal_snapshot_seq) (seeded meta docs)) f

  -- A document that a query with eventual consistency finds is in the view, with a number that the
  -- index has reached, or there is nothing that the index has not reached.
  get-docs_for_query :
      (v : NamespaceView S V) (k : String) (d : Document V)
      → get (docs_for_query v true) k ≡ some d
      → (get v.docs k ≡ some d)
        × (v.meta.index_cursor < v.meta.wal_commit_seq
            → seq_or_zero (get v.doc_last_wal_seq k) ≤ v.meta.index_cursor)
  unfolding docs_for_query
  get-docs_for_query v k d h =
      let keep : String → Bool =
        λ id. leb (seq_or_zero (get v.doc_last_wal_seq id)) v.meta.index_cursor in
      let g = get-filter keep v.docs k in (ground (arith, g), λ l. ground (arith, g))

  -- A document that is there in the end is there from the start, or it has a number: the documents are
  -- seeded before the numbers are read.
  seeded-contains_key :
      (s : Store S V) (policy : WalCorruptPolicy) (meta : NamespaceMeta S) (docs start : Docs V)
      (k : String)
      → is_some (get docs k) ≡ true
      → at_snapshot c s policy meta ≡ (ok tt, start)
      → is_some (get start k) ≡ true
      → is_some (get (seeded meta docs) k) ≡ true
  unfolding seeded get
  seeded-contains_key s policy meta docs start k h a g =
      elim (Bool-cases (ltb 0 meta.wal_snapshot_seq)) [
        | inl e ↦
            ground
              (arith, get-seed_ids [] meta.wal_snapshot_seq (keys docs) k, contains-keys docs k)
        | inr e ↦ let z : start ≡ [] = ground arith in absurd (ground arith)
      ]

  cut_replay :
      (s : Store S V) (policy : WalCorruptPolicy) (from mid to : ℕ) (docs docs' : Docs V)
      → from ≤ mid
      → mid ≤ to
      → replay_count c s policy (to - from) (suc from) docs ≡ (ok tt, docs')
      → (base : Docs V) × (replay_count c s policy (mid - from) (suc from) docs ≡ (ok tt, base))
        × (replay_count c s policy (to - mid) (suc mid) base ≡ (ok tt, docs'))
  cut_replay s policy from mid to docs docs' l m h =
      let n : to - from ≡ (mid - from) + (to - mid) = omega arith in
      let q : suc mid ≡ suc from + (mid - from) = omega arith in
      rw q (
        and_then-ok (replay_count c s policy (mid - from) (suc from) docs)
          (λ d. replay_count c s policy (to - mid) (suc from + (mid - from)) d) docs'
          (sym (
              ap (λ x. replay_count c s policy x (suc from) docs) n
              ∙ replay_count-add c s policy (mid - from) (to - mid) (suc from) docs)
            ∙ h))

  cut_track :
      (s : Store S V) (from mid to : ℕ) (map map' : StrMap ℕ)
      → from ≤ mid
      → mid ≤ to
      → track_count c s (to - from) (suc from) map ≡ ok map'
      → (numbers : StrMap ℕ) × (track_count c s (mid - from) (suc from) map ≡ ok numbers)
        × (track_count c s (to - mid) (suc mid) numbers ≡ ok map')
  cut_track s from mid to map map' l m h =
      let n : to - from ≡ (mid - from) + (to - mid) = omega arith in
      let q : suc mid ≡ suc from + (mid - from) = omega arith in
      rw q (
        >>=-eq-ok (track_count c s (mid - from) (suc from) map)
          (λ x. track_count c s (to - mid) (suc from + (mid - from)) x)
          (sym (
              ap (λ x. track_count c s x (suc from) map) n
              ∙ track_count-add s (mid - from) (to - mid) (suc from) map)
            ∙ h))

  -- The state of a loaded view, and its numbers, with the index cursor in between.
  record Loaded (s : Store S V) (policy : WalCorruptPolicy) (meta : NamespaceMeta S)
      (v : NamespaceView S V) : Type 0 where
    start : Docs V
    base : Docs V
    numbers : StrMap ℕ
    from_snapshot : at_snapshot c s policy meta ≡ (ok tt, start)
    to_cursor :
        replay_count c s policy
          (meta.index_cursor - meta.wal_snapshot_seq)
          (suc meta.wal_snapshot_seq)
          start
        ≡ (ok tt, base)
    to_commit :
        replay_count c s policy
          (meta.wal_commit_seq - meta.index_cursor)
          (suc meta.index_cursor)
          base
        ≡ (ok tt, v.docs)
    numbers_to_commit :
        track_count c s (meta.wal_commit_seq - meta.index_cursor) (suc meta.index_cursor) numbers
        ≡ ok v.doc_last_wal_seq
    replayed :
        replay_count c s policy
          (meta.wal_commit_seq - meta.wal_snapshot_seq)
          (suc meta.wal_snapshot_seq)
          start
        ≡ (ok tt, v.docs)
    numbered :
        track_count c s
          (meta.wal_commit_seq - meta.wal_snapshot_seq)
          (suc meta.wal_snapshot_seq)
          (seeded meta v.docs)
        ≡ ok v.doc_last_wal_seq
    same_meta : v.meta ≡ meta

  load_at-Loaded :
      (s : Store S V) (policy : WalCorruptPolicy) (meta : NamespaceMeta S) (etag : ℕ)
      (v : NamespaceView S V)
      → IsValid meta
      → meta.wal_commit_seq < u64_max
      → load_at c s policy meta etag ≡ ok v
      → Loaded s policy meta v
  unfolding load_at
  load_at-Loaded s policy meta etag v valid u h =
      let snap = meta.wal_snapshot_seq in
      let cursor = meta.index_cursor in
      let i = valid.indexed in
      let j = valid.compacted in
      let (pair, h1, h2) =
        >>=-eq-ok (load_docs_at_wal_commit c s policy meta)
          (λ loaded. build_doc_last_wal_seq c s meta (some loaded.0) >>= λ seqs. ok (record {
            docs = loaded.0;
            meta = meta;
            meta_etag = some etag;
            last_applied_wal_seq = loaded.1;
            doc_last_wal_seq = seqs;
          }))
          h in
      let (seqs, h3, h4) =
        >>=-eq-ok (build_doc_last_wal_seq c s meta (some pair.0))
          (λ seqs. ok (record {
            docs = pair.0;
            meta = meta;
            meta_etag = some etag;
            last_applied_wal_seq = pair.1;
            doc_last_wal_seq = seqs;
          }))
          h2 in
      let e = load_docs_at_wal_commit-at_commit c s policy meta (omega arith) u in
      let (r, _) =
        loaded-ok meta.wal_commit_seq (at_commit c s policy meta meta.wal_commit_seq) pair.0 pair.1
          (sym e ∙ h1) in
      let (start, a, r1) =
        and_then-ok (at_snapshot c s policy meta)
          (λ d. replay_count c s policy (meta.wal_commit_seq - snap) (suc snap) d) pair.0 r in
      let t = sym (build-track_count s meta pair.0 (omega arith)) ∙ h3 in
      let (base, b1, b2) =
        cut_replay s policy snap cursor meta.wal_commit_seq start pair.0 j i r1 in
      let (numbers, t1, t2) =
        cut_track s snap cursor meta.wal_commit_seq (seeded meta pair.0) seqs j i t in
      record {
        start = start;
        base = base;
        numbers = numbers;
        from_snapshot = a;
        to_cursor = b1;
        to_commit = ground arith;
        numbers_to_commit = ground arith;
        replayed = ground arith;
        numbered = ground arith;
        same_meta = ground arith;
      }

  visible-base :
      (s : Store S V) (policy : WalCorruptPolicy) (meta : NamespaceMeta S) (v : NamespaceView S V)
      (w : Loaded s policy meta v) (k : String) (d : Document V)
      → get (docs_for_query v true) k ≡ some d
      → get w.base k ≡ some d
  unfolding replay_count
  visible-base s policy meta v w k d q =
      let (found, old) = get-docs_for_query v k d q in
      let same = w.same_meta in
      let has =
        replay_track (λ docs map. is_some (get docs k) ≡ true → is_some (get map k) ≡ true) 0 s
          policy (λ docs docs' map seq e _ h p. step-contains_key c docs docs' map seq e k h p)
          (meta.wal_commit_seq - meta.wal_snapshot_seq) (suc meta.wal_snapshot_seq) w.start v.docs
          (seeded meta v.docs) v.doc_last_wal_seq (omega arith) w.replayed w.numbered
          (seeded-contains_key s policy meta v.docs w.start k (ground arith) w.from_snapshot)
          (ground arith) in
      let up =
        replay_track (UpTo c meta.index_cursor w.base) (suc meta.index_cursor) s policy
          (λ docs docs' map seq e l h p.
            step-UpTo c docs docs' w.base map meta.index_cursor seq e h (omega arith) p)
          (meta.wal_commit_seq - meta.index_cursor) (suc meta.index_cursor) w.base v.docs w.numbers
          v.doc_last_wal_seq (omega arith) w.to_commit w.numbers_to_commit (λ k' j' _ _. refl) in
      elim (Bool-cases (ltb meta.index_cursor meta.wal_commit_seq)) [
        | inl l ↦ elim (Option-cases (get v.doc_last_wal_seq k)) [
          | inl n ↦ absurd (ground arith)
          | inr (j, n) ↦
              let b : v.meta.index_cursor < v.meta.wal_commit_seq = ground arith in
              let o : j ≤ meta.index_cursor = ground arith in sym (up k j n o) ∙ found
        ]
        | inr l ↦
            let z : meta.wal_commit_seq - meta.index_cursor ≡ 0 = ground arith in
            let t = w.to_commit in ground arith
      ]

  -- A document with which a view that `load` builds answers a query with eventual consistency is as the
  -- index has it: it is the document that a load of the log up to the index cursor finds.
  pub docs_for_query-eventual :
      (s : Store S V) (policy : WalCorruptPolicy) (meta : NamespaceMeta S) (etag : ℕ)
      (v : NamespaceView S V) (k : String) (d : Document V)
      → IsValid meta
      → meta.wal_commit_seq < u64_max
      → load_at c s policy meta etag ≡ ok v
      → get (docs_for_query v true) k ≡ some d
      → (base : Docs V) × (load_docs_at_wal_commit c s policy
            (record meta { wal_commit_seq = meta.index_cursor })
          ≡ ok (base, meta.index_cursor))
        × (get base k ≡ some d)
  docs_for_query-eventual s policy meta etag v k d valid u h q =
      let w = load_at-Loaded s policy meta etag v valid u h in
      let i = valid.indexed in
      let j = valid.compacted in
      let at_cursor = record meta { wal_commit_seq = meta.index_cursor } in
      let e = load_docs_at_wal_commit-at_commit c s policy at_cursor j (omega arith) in
      let g : at_commit c s policy at_cursor meta.index_cursor ≡ (ok tt, w.base) =
        rw (w.from_snapshot) (w.to_cursor) in
      (w.base, e ∙ ap (loaded meta.index_cursor) g, visible-base s policy meta v w k d q)
