-- ===== src/Wal/Apply.antt =====
-- `apply_entry` and the conversions between documents and rows of the log (src/wal.rs).
use openpuffer.Base.{String, none, some, List, [], ◌∷◌}
use openpuffer.Base.Logic.{ok, err, ◌>>=◌, ok_or}
use openpuffer.Base.Lists.{try_map}
use openpuffer.Base.Maps.{get, insert, remove, extend}
use openpuffer.Error.{Result, message}
use openpuffer.Wal.Entry.{Document, Docs, WalUpsert, WalPatch, WalEntry}
use openpuffer.Wal.Codec.{Codec}

module _ {V : Type 0} where
  unfoldable pub merge_document_attributes : Document V → Document V → Document V
  unfolding extend
  merge_document_attributes doc patch = record doc {
    attributes = extend doc.attributes patch.attributes;
  }

  -- `for id in &entry.deletes { docs.remove(id); }`
  unfoldable pub delete_all : Docs V → List String → Docs V
  delete_all docs [] = docs
  delete_all docs (id ∷ ids) = delete_all (remove docs id) ids

  -- `for doc in .. { docs.insert(doc.id.clone(), doc); }`
  unfoldable pub upsert_all : Docs V → List (Document V) → Docs V
  upsert_all docs [] = docs
  upsert_all docs (d ∷ ds) = upsert_all (insert docs d.id d) ds

  -- `if let Some(existing) = docs.get_mut(&patch.id) { merge_document_attributes(existing, &patch); }`
  unfoldable pub patch_one : Docs V → Document V → Docs V
  patch_one docs p = elim (get docs p.id) [
    | none ↦ docs
    | some existing ↦ insert docs p.id (merge_document_attributes existing p)
  ]

  unfoldable pub patch_all : Docs V → List (Document V) → Docs V
  patch_all docs [] = docs
  patch_all docs (p ∷ ps) = patch_all (patch_one docs p) ps

  -- Deletes, then full upserts, then attribute patches.
  unfoldable pub apply_rows : Docs V → List String → List (Document V) → List (Document V) → Docs V
  apply_rows docs deletes upserts patches =
      patch_all (upsert_all (delete_all docs deletes) upserts) patches

module _ {V : Type 0} (c : Codec V) where
  unfoldable pub document_to_upsert : Document V → Result WalUpsert
  document_to_upsert doc = do
    attributes ← ok_or (c.to_vec doc.attributes) (message "encode attributes")
    ok (record { id = doc.id; attributes = attributes })

  unfoldable pub document_to_patch : Document V → Result WalPatch
  document_to_patch doc = do
    attributes ← ok_or (c.to_vec doc.attributes) (message "encode patch attributes")
    ok (record { id = doc.id; attributes = attributes })

  unfoldable pub wal_upsert_to_document : WalUpsert → Result (Document V)
  wal_upsert_to_document u = do
    attributes ← ok_or (c.from_slice u.attributes) (message "decode attributes")
    ok (record { id = u.id; attributes = attributes })

  -- The closure of `patch_documents`.
  unfoldable pub wal_patch_to_document : WalPatch → Result (Document V)
  wal_patch_to_document p = do
    attributes ← ok_or (c.from_slice p.attributes) (message "decode patch attributes")
    ok (record { id = p.id; attributes = attributes })

  unfoldable pub from_write : List (Document V) → List (Document V) → List String → Result WalEntry
  unfolding document_to_upsert document_to_patch
  from_write upserts patches deletes = do
    us ← try_map document_to_upsert upserts
    ps ← try_map document_to_patch patches
    ok (record { upserts = us; patches = ps; deletes = deletes })

  unfoldable pub into_documents : WalEntry → Result (List (Document V))
  unfolding wal_upsert_to_document
  into_documents entry = try_map wal_upsert_to_document entry.upserts

  unfoldable pub patch_documents : WalEntry → Result (List (Document V))
  unfolding wal_patch_to_document
  patch_documents entry = try_map wal_patch_to_document entry.patches

  -- The map is changed in place: what was applied before an error stays applied.
  unfoldable pub apply_entry : Docs V → WalEntry → Result (Unit {0}) × Docs V
  apply_entry docs entry =
      let docs1 = delete_all docs entry.deletes in
      elim (into_documents entry) [
        | err e ↦ (err e, docs1)
        | ok us ↦
            let docs2 = upsert_all docs1 us in
            elim (patch_documents entry) [
              | err e ↦ (err e, docs2)
              | ok ps ↦ (ok tt, patch_all docs2 ps)
            ]
      ]
