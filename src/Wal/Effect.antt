-- ===== src/Wal/Effect.antt =====
-- What an entry does to each document (src/wal.rs, `apply_entry`), id by id.
use mathlib.Core.Option
use openpuffer.Base.{
  String, ◌≡◌, refl, Option, none, some, List, [], ◌∷◌, ◌++◌, arith, inl, inr, text_eq, eq_iff,
}
use openpuffer.Base.Logic.{if◌then◌else◌, Bool-cases, Option-cases}
use openpuffer.Base.Maps.{
  StrMap, SameMap, or_else, contains, get, get-append, insert, remove, get-insert, get-remove,
  get-extend,
}
use openpuffer.Wal.Entry.{Document, Docs}
use openpuffer.Wal.Apply.{
  merge_document_attributes, delete_all, upsert_all, patch_one, patch_all, apply_rows,
}

module _ {V : Type 0} where
  -- The last of the rows with an id.
  unfoldable pub latest : List (Document V) → String → Option (Document V)
  latest [] k = none
  latest (d ∷ ds) k = or_else (latest ds k) (if text_eq d.id k then some d else none)

  -- A document, if there is one, with the patches of its id merged in, in order.
  unfoldable pub patched : List (Document V) → String → Option (Document V) → Option (Document V)
  patched [] k o = o
  patched (p ∷ ps) k o =
      patched ps k (if text_eq p.id k then Option.map (λ d. merge_document_attributes d p) o else o)

  -- The document with an id after the deletes, upserts and patches of an entry, from the one before.
  abbrev pub row_effect :
      List String
      → List (Document V)
      → List (Document V)
      → String
      → Option (Document V)
      → Option (Document V)
  row_effect deletes upserts patches k o =
      patched patches k (or_else (latest upserts k) (if contains deletes k then none else o))

  pub get-delete_all :
      (docs : Docs V) (ids : List String) (k : String)
      → get (delete_all docs ids) k ≡ (if contains ids k then none else get docs k)
  unfolding delete_all contains
  get-delete_all docs [] k = refl
  get-delete_all docs (id ∷ ids) k =
      ground (arith, get-delete_all (remove docs id) ids k, get-remove docs id k)

  pub get-upsert_all :
      (docs : Docs V) (ds : List (Document V)) (k : String)
      → get (upsert_all docs ds) k ≡ or_else (latest ds k) (get docs k)
  unfolding upsert_all latest
  get-upsert_all docs [] k = refl
  get-upsert_all docs (d ∷ ds) k =
      ground (arith, get-upsert_all (insert docs d.id d) ds k, get-insert docs d.id d k)

  get-patch_one :
      (docs : Docs V) (p : Document V) (k : String)
      → get (patch_one docs p) k ≡ (
          if text_eq p.id k
          then Option.map (λ d. merge_document_attributes d p) (get docs k)
          else get docs k)
  unfolding patch_one
  get-patch_one docs p k = elim (Option-cases (get docs p.id)) [
    | inl e ↦ ground (arith, eq_iff p.id k)
    | inr (d, e) ↦
        ground (arith, eq_iff p.id k, get-insert docs p.id (merge_document_attributes d p) k)
  ]

  pub get-patch_all :
      (docs : Docs V) (ps : List (Document V)) (k : String)
      → get (patch_all docs ps) k ≡ patched ps k (get docs k)
  unfolding patch_all patched
  get-patch_all docs [] k = refl
  get-patch_all docs (p ∷ ps) k = rw (get-patch_all (patch_one docs p) ps k, get-patch_one docs p k)

  -- After an entry each id holds what `row_effect` says of the document that it held before.
  pub get-apply_rows :
      (docs : Docs V) (ds : List String) (us ps : List (Document V)) (k : String)
      → get (apply_rows docs ds us ps) k ≡ row_effect ds us ps k (get docs k)
  unfolding apply_rows
  get-apply_rows docs ds us ps k = rw (
    get-patch_all (upsert_all (delete_all docs ds) us) ps k,
    get-upsert_all (delete_all docs ds) us k,
    get-delete_all docs ds k,
  )

  -- The attributes that the patches of an id set, the last patch first.
  unfoldable pub overlay : List (Document V) → String → StrMap V
  overlay [] k = []
  overlay (p ∷ ps) k = overlay ps k ++ (if text_eq p.id k then p.attributes else [])

  pub patched-none : (ps : List (Document V)) (k : String) → patched ps k none ≡ none
  unfolding patched
  patched-none [] k = refl
  patched-none (p ∷ ps) k = ground (arith, patched-none ps k)

  -- Patches keep the id of a document, and set exactly the attributes of the overlay.
  pub patched-some :
      (ps : List (Document V)) (k : String) (d : Document V)
      → (d' : Document V) × (patched ps k (some d) ≡ some d')
        × (d'.id ≡ d.id)
        × ((a : String) → get d'.attributes a ≡ or_else (get (overlay ps k) a) (get d.attributes a))
  unfolding patched overlay merge_document_attributes get
  patched-some [] k d = (d, refl, refl, λ a. refl)
  patched-some (p ∷ ps) k d = elim (Bool-cases (text_eq p.id k)) [
    | inl same ↦
        let (d', h, i, f) = patched-some ps k (merge_document_attributes d p) in
        (
          d',
          ground arith,
          ground arith,
          λ a. ground (
            arith,
            f a,
            get-append (overlay ps k) p.attributes a,
            get-extend d.attributes p.attributes a,
          ),
        )
    | inr other ↦
        let (d', h, i, f) = patched-some ps k d in
        (d', ground arith, i, λ a. ground (arith, f a, get-append (overlay ps k) [] a))
  ]

  -- The same document, up to the order of its attributes.
  abbrev pub SameDocument : Option (Document V) → Option (Document V) → Type 0
  SameDocument none none = Unit
  SameDocument (some d) (some e) = (d.id ≡ e.id) × SameMap d.attributes e.attributes
  SameDocument _ _ = ⊥

  abbrev pub SameDocs : Docs V → Docs V → Type 0
  SameDocs m n = (k : String) → SameDocument (get m k) (get n k)
