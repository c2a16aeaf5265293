-- ===== src/Wal/Rows.antt =====
-- The rows that an entry carries are those that were written (src/wal.rs).
use openpuffer.Base.{String, ◌≡◌, List, [], ◌∷◌, arith, inl, inr}
use openpuffer.Base.Logic
use openpuffer.Base.Logic.{ok, err, ◌>>=◌, ok_or, Option-cases, >>=-eq-ok}
use openpuffer.Base.Lists.{try_map}
use openpuffer.Wal.Entry.{Document, Docs, WalUpsert, WalPatch, WalEntry}
use openpuffer.Wal.Codec.{Codec, CodecLaws}
use openpuffer.Wal.Apply.{
  document_to_upsert, document_to_patch, wal_upsert_to_document, wal_patch_to_document, from_write,
  into_documents, patch_documents, apply_entry, apply_rows,
}

-- A loop undoes another one where each step undoes the other's.
try_map_inverse {ℓ κ μ} :
    {E : Type μ} {A : Type ℓ} {B : Type κ} (f : A → Logic.Result E B) (g : B → Logic.Result E A)
    → ((a : A) (b : B) → f a ≡ ok b → g b ≡ ok a)
    → (xs : List A) (ys : List B) → try_map f xs ≡ ok ys
    → try_map g ys ≡ ok xs
try_map_inverse f g inv [] ys h = ground arith
try_map_inverse f g inv (x ∷ xs) ys h =
    let (y, hy, h') = >>=-eq-ok (f x) (λ y. try_map f xs >>= λ ys. ok (y ∷ ys)) h in
    let (ys', hys, h'') = >>=-eq-ok (try_map f xs) (λ ys. ok (y ∷ ys)) h' in
    ground (arith, inv x y hy, try_map_inverse f g inv xs ys' hys)

module _ {V : Type 0} (c : Codec V) (laws : CodecLaws c) where
  upsert_inverse :
      (d : Document V) (u : WalUpsert)
      → document_to_upsert c d ≡ ok u
      → wal_upsert_to_document c u ≡ ok d
  unfolding document_to_upsert wal_upsert_to_document
  upsert_inverse d u h = elim (Option-cases (c.to_vec d.attributes)) [
    | inl e ↦ ground arith
    | inr (b, e) ↦ ground (arith, laws.json_roundtrip d.attributes b e)
  ]

  patch_inverse :
      (d : Document V) (p : WalPatch)
      → document_to_patch c d ≡ ok p
      → wal_patch_to_document c p ≡ ok d
  unfolding document_to_patch wal_patch_to_document
  patch_inverse d p h = elim (Option-cases (c.to_vec d.attributes)) [
    | inl e ↦ ground arith
    | inr (b, e) ↦ ground (arith, laws.json_roundtrip d.attributes b e)
  ]

  -- The parts of an entry that `from_write` built.
  pub from_write_parts :
      (us ps : List (Document V)) (ds : List String) (e : WalEntry)
      → from_write c us ps ds ≡ ok e
      → (into_documents c e ≡ ok us) × (patch_documents c e ≡ ok ps) × (e.deletes ≡ ds)
  unfolding from_write into_documents patch_documents
  from_write_parts us ps ds e h =
      let rest = λ (us' : List WalUpsert). try_map (document_to_patch c) ps >>= λ ps'.
      ok (record { upserts = us'; patches = ps'; deletes = ds }) in
      let (us', hu, h') = >>=-eq-ok (try_map (document_to_upsert c) us) rest h in
      let last =
        λ (ps' : List WalPatch). ok (record { upserts = us'; patches = ps'; deletes = ds }) in
      let (ps', hp, h'') = >>=-eq-ok (try_map (document_to_patch c) ps) last h' in
      let iu =
        try_map_inverse (document_to_upsert c) (wal_upsert_to_document c) upsert_inverse us us'
          hu in
      let ip =
        try_map_inverse (document_to_patch c) (wal_patch_to_document c) patch_inverse ps ps' hp in
      (ground (arith, iu, h''), ground (arith, ip, h''), ground (arith, h''))

  -- Applying an entry built from rows is applying the rows, and does not fail.
  pub apply_entry-from_write :
      (docs : Docs V) (us ps : List (Document V)) (ds : List String) (e : WalEntry)
      → from_write c us ps ds ≡ ok e
      → apply_entry c docs e ≡ (ok tt, apply_rows docs ds us ps)
  unfolding apply_entry apply_rows
  apply_entry-from_write docs us ps ds e h = ground (arith, from_write_parts us ps ds e h)
