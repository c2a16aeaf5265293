-- ===== src/Meta/Chain.antt =====
-- The chains of segment ids in the metadata (src/meta.rs, `push_segment_id`; src/indexer.rs).
use openpuffer.Base.{ℕ, ◌≤◌, ◌<◌, ◌≡◌, ◌∙◌, some, List, [], ◌∷◌, ◌++◌, arith, inl, inr}
use openpuffer.Base.Logic.{ok, Option-cases}
use openpuffer.Base.Lists.{last}
use openpuffer.Meta.Types.{NamespaceMeta, VectorFieldConfig, push_segment_id}
use openpuffer.Meta.Commit.{meta_after_index_commit}
use openpuffer.Meta.Valid.{index_commit_fields}

-- Each id is above the one before it, and the last is at most `top`.
abbrev pub Increasing : ℕ → List ℕ → ℕ → Type 0
Increasing low [] top = low ≤ top
Increasing low (x ∷ xs) top = (low < x) × Increasing x xs top

Increasing-snoc :
    (low : ℕ) (xs : List ℕ) (top x : ℕ)
    → Increasing low xs top
    → top < x
    → Increasing low (xs ++ x ∷ []) x
Increasing-snoc low [] top x h lt = omega arith
Increasing-snoc low (y ∷ ys) top x (a, b) lt = (a, Increasing-snoc y ys top x b lt)

last-le : (low : ℕ) (xs : List ℕ) (top l : ℕ) → Increasing low xs top → last xs ≡ some l → l ≤ top
last-le low [] top l h e = cc
last-le low (x ∷ []) top l (a, b) e = ground arith
last-le low (x ∷ y ∷ xs) top l (a, b) e = last-le x (y ∷ xs) top l b e

push_above :
    (ids : List ℕ) (top id : ℕ)
    → Increasing 0 ids top
    → top < id
    → push_segment_id ids id ≡ ids ++ id ∷ []
unfolding push_segment_id
push_above ids top id h lt = elim (Option-cases (last ids)) [
  | inl e ↦ ground arith
  | inr (l, e) ↦ ground (arith, last-le 0 ids top l h e)
]

module _ {S : Type 0} where
  -- The segment chains hold increasing sequence numbers, up to the index cursor.
  pub record ChainsIncrease (m : NamespaceMeta S) : Type 0 where
    pub fts : Increasing 0 m.fts_segment_ids m.index_cursor
    pub filter : Increasing 0 m.filter_segment_ids m.index_cursor

  -- An indexer pass names its segments after the log entry that it reaches; its commit extends both
  -- chains by that number, and keeps them increasing.
  pub index_commit-ChainsIncrease :
      (m n : NamespaceMeta S) (to version : ℕ) (fields : List VectorFieldConfig)
      → meta_after_index_commit m to to to fields version ≡ ok n
      → ChainsIncrease m
      → ChainsIncrease n
        × (n.fts_segment_ids ≡ m.fts_segment_ids ++ to ∷ [])
        × (n.filter_segment_ids ≡ m.filter_segment_ids ++ to ∷ [])
  index_commit-ChainsIncrease m n to version fields h c =
      let (a, b, core) = index_commit_fields m n to to to version fields h in
      let f = push_above m.fts_segment_ids m.index_cursor to c.fts b in
      let g = push_above m.filter_segment_ids m.index_cursor to c.filter b in
      let f' : n.fts_segment_ids ≡ m.fts_segment_ids ++ to ∷ [] = core.fts_segment_ids ∙ f in
      let g' : n.filter_segment_ids ≡ m.filter_segment_ids ++ to ∷ [] =
        core.filter_segment_ids ∙ g in
      (
        record {
          fts =
              rw (f', core.index_cursor)
                (Increasing-snoc 0 m.fts_segment_ids m.index_cursor to c.fts b);
          filter =
              rw (g', core.index_cursor)
                (Increasing-snoc 0 m.filter_segment_ids m.index_cursor to c.filter b);
        },
        f',
        g',
      )
