-- ===== src/Wal/Replay.antt =====
-- An entry may be applied twice (src/wal.rs, `apply_entry`): a replay that overlaps with what was
-- applied already changes nothing.
use openpuffer.Base.{String, ◌≡◌, refl, Option, none, some, List, arith, inl, inr}
use openpuffer.Base.Logic.{ok, Bool-cases, Option-cases, Result-cases}
use openpuffer.Base.Maps.{contains, get}
use openpuffer.Wal.Entry.{Document, Docs, WalEntry}
use openpuffer.Wal.Codec.{Codec}
use openpuffer.Wal.Apply.{apply_rows, into_documents, patch_documents, apply_entry}
use openpuffer.Wal.Effect.{
  latest, patched, row_effect, get-apply_rows, patched-none, patched-some, SameDocument, SameDocs,
}

module _ {V : Type 0} where
  SameDocument-refl : (o : Option (Document V)) → SameDocument o o
  SameDocument-refl none = tt
  SameDocument-refl (some d) = (refl, λ a. refl)

  -- Merging the same patches again sets the same attributes.
  patched_twice :
      (ps : List (Document V)) (k : String) (o : Option (Document V))
      → SameDocument (patched ps k (patched ps k o)) (patched ps k o)
  patched_twice ps k none = rw (patched-none ps k, patched-none ps k) tt
  patched_twice ps k (some d) =
      let (d1, h1, i1, f1) = patched-some ps k d in
      let (d2, h2, i2, f2) = patched-some ps k d1 in
      rw (h1, h2) (i2, λ a. ground (arith, f1 a, f2 a))

  row_effect_twice :
      (ds : List String) (us ps : List (Document V)) (k : String) (o : Option (Document V))
      → SameDocument (row_effect ds us ps k (row_effect ds us ps k o)) (row_effect ds us ps k o)
  row_effect_twice ds us ps k o = elim (Option-cases (latest us k)) [
    | inr (d, e) ↦ rw e (SameDocument-refl _)
    | inl e ↦ rw e (elim (Bool-cases (contains ds k)) [
      | inl gone ↦ rw gone (SameDocument-refl _)
      | inr kept ↦ rw kept (patched_twice ps k o)
    ])
  ]

  apply_rows_twice :
      (docs : Docs V) (ds : List String) (us ps : List (Document V))
      → SameDocs (apply_rows (apply_rows docs ds us ps) ds us ps) (apply_rows docs ds us ps)
  apply_rows_twice docs ds us ps k =
      rw (get-apply_rows (apply_rows docs ds us ps) ds us ps k, get-apply_rows docs ds us ps k)
        (row_effect_twice ds us ps k (get docs k))

module _ {V : Type 0} (c : Codec V) where
  -- The rows of an entry that was applied without an error.
  pub apply_entry_ok :
      (docs : Docs V) (e : WalEntry) (docs' : Docs V)
      → apply_entry c docs e ≡ (ok tt, docs')
      → (us : List (Document V)) × (ps : List (Document V)) × (into_documents c e ≡ ok us)
        × (patch_documents c e ≡ ok ps)
        × (docs' ≡ apply_rows docs e.deletes us ps)
  unfolding apply_entry apply_rows
  apply_entry_ok docs e docs' h = elim (Result-cases (into_documents c e)) [
    | inr (x, hu) ↦ absurd (ground arith)
    | inl (us, hu) ↦ elim (Result-cases (patch_documents c e)) [
      | inr (x, hp) ↦ absurd (ground arith)
      | inl (ps, hp) ↦ (us, ps, hu, hp, ground arith)
    ]
  ]

  -- An entry whose parts decode is applied without an error, to any documents.
  pub apply_entry-apply_rows :
      (docs : Docs V) (e : WalEntry) (us ps : List (Document V))
      → into_documents c e ≡ ok us
      → patch_documents c e ≡ ok ps
      → apply_entry c docs e ≡ (ok tt, apply_rows docs e.deletes us ps)
  unfolding apply_entry apply_rows
  apply_entry-apply_rows docs e us ps hu hp = ground arith

  -- An entry that was applied can be applied again, and every document stays as it is.
  pub apply_entry_twice :
      (docs : Docs V) (e : WalEntry) (docs' : Docs V)
      → apply_entry c docs e ≡ (ok tt, docs')
      → (docs'' : Docs V) × (apply_entry c docs' e ≡ (ok tt, docs'')) × SameDocs docs'' docs'
  apply_entry_twice docs e docs' h =
      let (us, ps, hu, hp, r) = apply_entry_ok docs e docs' h in
      (
        apply_rows docs' e.deletes us ps,
        apply_entry-apply_rows docs' e us ps hu hp,
        rw r (apply_rows_twice docs e.deletes us ps),
      )
