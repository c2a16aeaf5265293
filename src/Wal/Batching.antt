-- ===== src/Wal/Batching.antt =====
-- Group commit (src/buffer.rs): the rows of several requests become one log entry, which deletes
-- first, then upserts, then patches (src/wal.rs, `apply_entry`).
use openpuffer.Base.{
  String, ◌≡◌, ◌≢◌, refl, Option, none, some, List, [], ◌∷◌, ◌++◌, Bool, true, false, ◌||◌, ◌&&◌,
  arith, inl, inr, text_eq,
}
use openpuffer.Base.Logic.{Bool-cases}
use openpuffer.Base.Maps.{or_else, contains, contains-append, get}
use openpuffer.Wal.Entry.{Document, Docs}
use openpuffer.Wal.Apply.{apply_rows}
use openpuffer.Wal.Effect.{latest, patched, row_effect, get-apply_rows, patched-none, patched-some}

-- The rows of one write request.
pub record Write (V : Type 0) : Type 0 where
  pub upserts : List (Document V)
  pub patches : List (Document V)
  pub deletes : List String

module _ {V : Type 0} where
  pub latest-append :
      (xs ys : List (Document V)) (k : String)
      → latest (xs ++ ys) k ≡ or_else (latest ys k) (latest xs k)
  unfolding latest
  latest-append [] ys k = ground arith
  latest-append (x ∷ xs) ys k = ground (arith, latest-append xs ys k)

  patched-append :
      (xs ys : List (Document V)) (k : String) (o : Option (Document V))
      → patched (xs ++ ys) k o ≡ patched ys k (patched xs k o)
  unfolding patched
  patched-append [] ys k o = refl
  patched-append (x ∷ xs) ys k o = patched-append xs ys k _

  -- No row of the list has the id.
  abbrev pub has_row : List (Document V) → String → Bool
  has_row [] k = false
  has_row (d ∷ ds) k = text_eq d.id k || has_row ds k

  pub latest_absent :
      (us : List (Document V)) (k : String) → has_row us k ≡ false → latest us k ≡ none
  unfolding latest
  latest_absent [] k h = refl
  latest_absent (d ∷ us) k h = ground (arith, latest_absent us k)

  pub latest_present :
      (us : List (Document V)) (k : String)
      → has_row us k ≡ true
      → (d : Document V) × (latest us k ≡ some d)
  unfolding latest
  latest_present [] k h = cc
  latest_present (d ∷ us) k h = elim (Bool-cases (has_row us k)) [
    | inl e ↦ let (d', h') = latest_present us k e in (d', rw h')
    | inr e ↦ (d, ground (arith, latest_absent us k e))
  ]

  pub patched_absent :
      (ps : List (Document V)) (k : String) (o : Option (Document V))
      → has_row ps k ≡ false
      → patched ps k o ≡ o
  unfolding patched
  patched_absent [] k o h = refl
  patched_absent (p ∷ ps) k o h = elim (Bool-cases (text_eq p.id k)) [
    | inl e ↦ absurd (ground arith)
    | inr e ↦ rw e (patched_absent ps k o (ground arith))
  ]

  abbrev pub apply_write : Docs V → Write V → Docs V
  apply_write docs w = apply_rows docs w.deletes w.upserts w.patches

  -- What the buffer holds after a second request.
  abbrev pub merge_writes : Write V → Write V → Write V
  merge_writes a b = record {
    upserts = a.upserts ++ b.upserts;
    patches = a.patches ++ b.patches;
    deletes = a.deletes ++ b.deletes;
  }

  -- The id is deleted by the later request and upserted by the earlier one, or upserted by the later
  -- one and patched by the earlier one.
  abbrev pub conflicts : Write V → Write V → String → Bool
  conflicts a b k =
      contains b.deletes k && has_row a.upserts k || has_row b.upserts k && has_row a.patches k

  merged_effect :
      (a b : Write V) (k : String) (o : Option (Document V))
      → conflicts a b k ≡ false
      → row_effect (a.deletes ++ b.deletes) (a.upserts ++ b.upserts) (a.patches ++ b.patches) k o
        ≡ row_effect b.deletes b.upserts b.patches k (row_effect a.deletes a.upserts a.patches k o)
  merged_effect a b k o h =
      rw
        (
          latest-append a.upserts b.upserts k,
          patched-append a.patches b.patches k,
          contains-append a.deletes b.deletes k,
        )
        (elim (Bool-cases (has_row b.upserts k)) [
          | inl up ↦
              let (d, e) = latest_present b.upserts k up in
              ground (arith, e, patched_absent a.patches k (some d))
          | inr keep ↦
              rw (latest_absent b.upserts k keep) (elim (Bool-cases (contains b.deletes k)) [
                | inl gone ↦ ground (arith, latest_absent a.upserts k, patched-none a.patches k)
                | inr stays ↦ ground arith
              ])
        ])

  -- Two requests committed as one entry leave a document as the two in order would, unless the second
  -- deletes an id that the first upserts, or upserts one that the first patches.
  pub group_commit :
      (docs : Docs V) (a b : Write V) (k : String)
      → conflicts a b k ≡ false
      → get (apply_write docs (merge_writes a b)) k ≡ get (apply_write (apply_write docs a) b) k
  group_commit docs a b k h =
      rw
        (
          get-apply_rows docs (a.deletes ++ b.deletes) (a.upserts ++ b.upserts)
              (a.patches ++ b.patches) k,
          get-apply_rows (apply_write docs a) b.deletes b.upserts b.patches k,
          get-apply_rows docs a.deletes a.upserts a.patches k,
        )
        (merged_effect a b k (get docs k) h)

  -- An id that the second request deletes and the first upserts is gone when the requests are
  -- committed in order, and is still there when they are committed as one entry.
  pub group_commit_loses_delete :
      (docs : Docs V) (a b : Write V) (k : String)
      → contains b.deletes k ≡ true
      → has_row a.upserts k ≡ true
      → has_row b.upserts k ≡ false
      → (get (apply_write (apply_write docs a) b) k ≡ none)
        × (get (apply_write docs (merge_writes a b)) k ≢ none)
  group_commit_loses_delete docs a b k gone up keep =
      let (d, e) = latest_present a.upserts k up in
      let n = latest_absent b.upserts k keep in
      let (d', h, _, _) = patched-some (a.patches ++ b.patches) k d in
      (
        rw (get-apply_rows (apply_write docs a) b.deletes b.upserts b.patches k, n, gone)
            (patched-none b.patches k),
        rw
            (
              get-apply_rows docs (a.deletes ++ b.deletes) (a.upserts ++ b.upserts)
                  (a.patches ++ b.patches) k,
              latest-append a.upserts b.upserts k,
              n,
              e,
              h,
            )
            (λ x. cc),
      )
