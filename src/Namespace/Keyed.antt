-- ===== src/Namespace/Keyed.antt =====
-- A document map keeps each document under its own id (src/wal.rs, src/namespace.rs), so that a
-- snapshot, which keeps the documents only, holds the whole map.
use openpuffer.Base.{
  ℕ, zero, suc, ◌≡◌, refl, sym, String, some, List, [], ◌∷◌, arith, inl, inr, text_eq, eq_iff,
}
use openpuffer.Base.Logic.{ok, ◌>>=◌, Bool-cases, Option-cases, Result-cases}
use openpuffer.Base.Maps.{get, insert, remove}
use openpuffer.Wal.Entry.{Document, Docs, WalEntry}
use openpuffer.Wal.Codec.{Codec}
use openpuffer.Wal.Format.{WalCorruptPolicy, decode_segment_with_policy}
use openpuffer.Wal.Apply.{
  merge_document_attributes, delete_all, upsert_all, patch_one, patch_all, into_documents,
  patch_documents, apply_entry,
}
use openpuffer.Wal.Effect.{latest, get-upsert_all}
use openpuffer.Wal.Batching.{latest-append}
use openpuffer.Namespace.Store.{Store, values, from_docs, into_docs, read_wal_segment}
use openpuffer.Namespace.Load.{replay_one, replay_count}
use openpuffer.Namespace.History.{and_then-ok}

module _ {V : Type 0} where
  abbrev pub Keyed : Docs V → Type 0
  Keyed [] = Unit
  Keyed ((k, d) ∷ m) = (d.id ≡ k) × Keyed m

  pub Keyed-get : (m : Docs V) (k : String) (d : Document V) → Keyed m → get m k ≡ some d → d.id ≡ k
  unfolding get
  Keyed-get [] k d h g = absurd (ground arith)
  Keyed-get ((j, e) ∷ m) k d (h, hs) g = elim (Bool-cases (text_eq j k)) [
    | inl s ↦ ground (arith, eq_iff j k)
    | inr n ↦ Keyed-get m k d hs (ground arith)
  ]

  Keyed-remove : (m : Docs V) (k : String) → Keyed m → Keyed (remove m k)
  unfolding remove
  Keyed-remove [] k h = tt
  Keyed-remove ((j, e) ∷ m) k (h, hs) = elim (Bool-cases (text_eq j k)) [
    | inl s ↦ rw s (Keyed-remove m k hs)
    | inr n ↦ rw n (h, Keyed-remove m k hs)
  ]

  Keyed-delete_all : (m : Docs V) (ids : List String) → Keyed m → Keyed (delete_all m ids)
  unfolding delete_all
  Keyed-delete_all m [] h = h
  Keyed-delete_all m (id ∷ ids) h = Keyed-delete_all (remove m id) ids (Keyed-remove m id h)

  pub Keyed-upsert_all : (m : Docs V) (ds : List (Document V)) → Keyed m → Keyed (upsert_all m ds)
  unfolding upsert_all insert
  Keyed-upsert_all m [] h = h
  Keyed-upsert_all m (d ∷ ds) h =
      Keyed-upsert_all (insert m d.id d) ds (refl, Keyed-remove m d.id h)

  Keyed-patch_all : (m : Docs V) (ps : List (Document V)) → Keyed m → Keyed (patch_all m ps)
  unfolding patch_all patch_one insert merge_document_attributes
  Keyed-patch_all m [] h = h
  Keyed-patch_all m (p ∷ ps) h =
      Keyed-patch_all (patch_one m p) ps (elim (Option-cases (get m p.id)) [
        | inl e ↦ let r : patch_one m p ≡ m = ground arith in rw r h
        | inr (d, e) ↦
            let r : patch_one m p ≡ insert m p.id (merge_document_attributes d p) = ground arith in
            rw r (Keyed-get m p.id d h e, Keyed-remove m p.id h)
      ])

  latest-values : (m : Docs V) (k : String) → Keyed m → latest (values m) k ≡ get m k
  unfolding latest values get
  latest-values [] k h = refl
  latest-values ((j, d) ∷ m) k (h, hs) =
      ground (arith, latest-append (values m) (d ∷ []) k, latest-values m k hs)

  -- What is read back from a snapshot of a map is the map.
  pub into_docs-from_docs :
      (seq : ℕ) (m : Docs V) (k : String) → Keyed m → get (into_docs (from_docs seq m)) k ≡ get m k
  unfolding into_docs from_docs get
  into_docs-from_docs seq m k h =
      ground (arith, get-upsert_all [] (values m) k, latest-values m k h)

module _ {V : Type 0} (c : Codec V) where
  Keyed-apply_entry :
      (m m' : Docs V) (e : WalEntry) → Keyed m → apply_entry c m e ≡ (ok tt, m') → Keyed m'
  unfolding apply_entry
  Keyed-apply_entry m m' e h a =
      let d1 = delete_all m e.deletes in
      let k1 = Keyed-delete_all m e.deletes h in
      elim (Result-cases (into_documents c e)) [
        | inr (x, hu) ↦ absurd (ground arith)
        | inl (us, hu) ↦ elim (Result-cases (patch_documents c e)) [
          | inr (x, hp) ↦ absurd (ground arith)
          | inl (ps, hp) ↦
              let r : patch_all (upsert_all d1 us) ps ≡ m' = ground arith in
              rw (sym r) (Keyed-patch_all (upsert_all d1 us) ps (Keyed-upsert_all d1 us k1))
        ]
      ]

module _ {S V : Type 0} (c : Codec V) where
  Keyed-replay_one :
      (s : Store S V) (policy : WalCorruptPolicy) (seq : ℕ) (m m' : Docs V)
      → Keyed m
      → replay_one c s policy seq m ≡ (ok tt, m')
      → Keyed m'
  unfolding replay_one
  Keyed-replay_one s policy seq m m' h r =
      elim (Result-cases
        (read_wal_segment s seq >>= λ bytes. decode_segment_with_policy c bytes seq policy)) [
          | inr (x, e) ↦ absurd (ground arith)
          | inl (o, e) ↦ elim (Option-cases o) [
            | inl n ↦ let q : m ≡ m' = ground arith in rw (sym q) h
            | inr (entry, n) ↦ Keyed-apply_entry c m m' entry h (ground arith)
          ]
        ]

  pub Keyed-replay_count :
      (s : Store S V) (policy : WalCorruptPolicy) (n seq : ℕ) (m m' : Docs V)
      → Keyed m
      → replay_count c s policy n seq m ≡ (ok tt, m')
      → Keyed m'
  unfolding replay_count
  Keyed-replay_count s policy zero seq m m' h r = let e : m ≡ m' = ground arith in rw (sym e) h
  Keyed-replay_count s policy (suc n) seq m m' h r =
      let (m1, r1, r2) =
        and_then-ok (replay_one c s policy seq m) (λ d. replay_count c s policy n (suc seq) d) m'
          r in
      Keyed-replay_count s policy n (suc seq) m1 m' (Keyed-replay_one s policy seq m m1 h r1) r2
