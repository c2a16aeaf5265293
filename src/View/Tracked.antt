-- ===== src/View/Tracked.antt =====
-- What the recorded sequence numbers of a view say of its documents (src/view.rs), entry by entry.
use openpuffer.Base.{
  ℕ, ◌≤◌, ◌<◌, ◌≡◌, refl, String, Option, none, some, true, List, [], ◌∷◌, arith, inl, inr, eq_iff,
}
use openpuffer.Base.Logic.{ok, if◌then◌else◌, Bool-cases, Option-cases}
use openpuffer.Base.Maps.{
  StrMap, is_some, get, insert, remove, contains_key, contains, get-insert, get-remove,
}
use openpuffer.Wal.Entry.{Document, Docs, WalEntry}
use openpuffer.Wal.Codec.{Codec}
use openpuffer.Wal.Apply.{apply_entry, into_documents, patch_documents}
use openpuffer.Wal.Effect.{row_effect, get-apply_rows, patched-none, patched-some}
use openpuffer.Wal.Replay.{apply_entry_ok}
use openpuffer.Wal.Batching.{has_row, latest_absent, latest_present, patched_absent}
use openpuffer.Wal.Delta.{patch_ids}
use openpuffer.Wal.Delta.Exact.{contains-patch_ids}
use openpuffer.View.State.{remove_ids, touch_patched, set_upserted, update_doc_wal_seq_map}

get-remove_ids :
    (map : StrMap ℕ) (ids : List String) (k : String)
    → get (remove_ids map ids) k ≡ (if contains ids k then none else get map k)
unfolding remove_ids contains
get-remove_ids map [] k = refl
get-remove_ids map (id ∷ ids) k =
    ground (arith, get-remove_ids (remove map id) ids k, get-remove map id k)

get-touch_patched :
    (map : StrMap ℕ) (seq : ℕ) (ids : List String) (k : String)
    → get (touch_patched map seq ids) k ≡ (
        if contains ids k
        then (elim (get map k) [ none ↦ none | some _ ↦ some seq ])
        else get map k)
unfolding touch_patched contains contains_key
get-touch_patched map seq [] k = refl
get-touch_patched map seq (id ∷ ids) k = ground (
  arith,
  get-touch_patched (if contains_key map id then insert map id seq else map) seq ids k,
  get-insert map id seq k,
  eq_iff id k,
)

module _ {V : Type 0} where
  get-set_upserted :
      (map : StrMap ℕ) (seq : ℕ) (us : List (Document V)) (k : String)
      → get (set_upserted map seq us) k ≡ (if has_row us k then some seq else get map k)
  unfolding set_upserted
  get-set_upserted map seq [] k = refl
  get-set_upserted map seq (d ∷ ds) k =
      ground (arith, get-set_upserted (insert map d.id seq) seq ds k, get-insert map d.id seq k)

  -- The sequence number of an id after an entry, from the one before.
  abbrev pub seq_effect :
      List String → List (Document V) → List (Document V) → ℕ → String → Option ℕ → Option ℕ
  seq_effect ds us ps seq k o =
      let o1 = if has_row us k then some seq else if contains ds k then none else o in
      if has_row ps k then (elim o1 [ none ↦ none | some _ ↦ some seq ]) else o1

  row_effect-is_some :
      (ds : List String) (us ps : List (Document V)) (seq : ℕ) (k : String)
      (o : Option (Document V)) (q : Option ℕ)
      → is_some q ≡ is_some o
      → is_some (seq_effect ds us ps seq k q) ≡ is_some (row_effect ds us ps k o)
  row_effect-is_some ds us ps seq k o q h = elim (Bool-cases (has_row us k)) [
    | inl up ↦
        let (d, e) = latest_present us k up in
        let (d', h', _, _) = patched-some ps k d in ground arith
    | inr keep ↦
        let e = latest_absent us k keep in
        elim (Bool-cases (contains ds k)) [
          | inl gone ↦ ground (arith, patched-none ps k)
          | inr stays ↦ elim (Option-cases o) [
            | inl n ↦ ground (arith, patched-none ps k)
            | inr (d, s) ↦ let (d', h', _, _) = patched-some ps k d in ground arith
          ]
        ]
  ]

  -- An id that keeps a number below that of the entry is not touched by the entry.
  row_effect-old :
      (ds : List String) (us ps : List (Document V)) (seq j : ℕ) (k : String)
      (o : Option (Document V)) (q : Option ℕ)
      → seq_effect ds us ps seq k q ≡ some j
      → j < seq
      → (q ≡ some j) × (row_effect ds us ps k o ≡ o)
  row_effect-old ds us ps seq j k o q h l = elim (Bool-cases (has_row us k)) [
    | inl up ↦ absurd (ground arith)
    | inr keep ↦ elim (Bool-cases (contains ds k)) [
      | inl gone ↦ absurd (ground arith)
      | inr stays ↦ elim (Bool-cases (has_row ps k)) [
        | inl p ↦ absurd (ground arith)
        | inr p ↦ (ground arith, ground (arith, latest_absent us k keep, patched_absent ps k o p))
      ]
    ]
  ]

module _ {V : Type 0} (c : Codec V) where
  -- The numbers after an entry whose rows decode.
  pub get-update_doc_wal_seq_map :
      (map : StrMap ℕ) (seq : ℕ) (e : WalEntry) (us ps : List (Document V)) (k : String)
      → into_documents c e ≡ ok us
      → patch_documents c e ≡ ok ps
      → get (update_doc_wal_seq_map c map seq e) k ≡ seq_effect e.deletes us ps seq k (get map k)
  unfolding update_doc_wal_seq_map patch_documents
  get-update_doc_wal_seq_map map seq e us ps k hu hp = ground (
    arith,
    get-touch_patched (set_upserted (remove_ids map e.deletes) seq us) seq (patch_ids e.patches) k,
    get-set_upserted (remove_ids map e.deletes) seq us k,
    get-remove_ids map e.deletes k,
    contains-patch_ids c e.patches ps k hp,
  )

  -- Exactly the documents have a sequence number.
  abbrev pub Tracked : Docs V → StrMap ℕ → Type 0
  Tracked docs map = (k : String) → contains_key map k ≡ contains_key docs k

  -- A document whose number is at most `cursor` is as it is in `base`.
  abbrev pub UpTo : ℕ → Docs V → Docs V → StrMap ℕ → Type 0
  UpTo cursor base docs map =
      (k : String) (j : ℕ) → get map k ≡ some j → j ≤ cursor → get docs k ≡ get base k

  -- An entry keeps the recorded sequence numbers and the documents of a view in step: exactly the
  -- documents have a number.
  pub step-Tracked :
      (docs docs' : Docs V) (map : StrMap ℕ) (seq : ℕ) (e : WalEntry)
      → apply_entry c docs e ≡ (ok tt, docs')
      → Tracked docs map
      → Tracked docs' (update_doc_wal_seq_map c map seq e)
  unfolding contains_key
  step-Tracked docs docs' map seq e h t k =
      let (us, ps, hu, hp, r) = apply_entry_ok c docs e docs' h in
      rw
        (
          get-update_doc_wal_seq_map map seq e us ps k hu hp,
          r,
          get-apply_rows docs e.deletes us ps k,
        )
        (row_effect-is_some e.deletes us ps seq k (get docs k) (get map k) (t k))

  pub step-UpTo :
      (docs docs' base : Docs V) (map : StrMap ℕ) (cursor seq : ℕ) (e : WalEntry)
      → apply_entry c docs e ≡ (ok tt, docs')
      → cursor < seq
      → UpTo cursor base docs map
      → UpTo cursor base docs' (update_doc_wal_seq_map c map seq e)
  step-UpTo docs docs' base map cursor seq e h l u k j hj lj =
      let (us, ps, hu, hp, r) = apply_entry_ok c docs e docs' h in
      let g = get-update_doc_wal_seq_map map seq e us ps k hu hp in
      let (q, same) =
        row_effect-old e.deletes us ps seq j k (get docs k) (get map k) (ground arith)
          (omega arith) in
      rw (r, get-apply_rows docs e.deletes us ps k, same) (u k j q lj)

  row_effect-kept :
      (ds : List String) (us ps : List (Document V)) (seq : ℕ) (k : String)
      (o : Option (Document V)) (q : Option ℕ)
      → (is_some o ≡ true → is_some q ≡ true)
      → is_some (row_effect ds us ps k o) ≡ true
      → is_some (seq_effect ds us ps seq k q) ≡ true
  row_effect-kept ds us ps seq k o q h g = elim (Bool-cases (has_row us k)) [
    | inl up ↦ ground arith
    | inr keep ↦
        let e = latest_absent us k keep in
        elim (Bool-cases (contains ds k)) [
          | inl gone ↦ absurd (ground (arith, patched-none ps k))
          | inr stays ↦ elim (Option-cases o) [
            | inl n ↦ absurd (ground (arith, patched-none ps k))
            | inr (d, s) ↦ ground arith
          ]
        ]
  ]

  -- A document that is there has a number: this is kept by each entry.
  pub step-contains_key :
      (docs docs' : Docs V) (map : StrMap ℕ) (seq : ℕ) (e : WalEntry) (k : String)
      → apply_entry c docs e ≡ (ok tt, docs')
      → (is_some (get docs k) ≡ true → is_some (get map k) ≡ true)
      → is_some (get docs' k) ≡ true
      → is_some (get (update_doc_wal_seq_map c map seq e) k) ≡ true
  step-contains_key docs docs' map seq e k h p g =
      let (us, ps, hu, hp, r) = apply_entry_ok c docs e docs' h in
      rw (get-update_doc_wal_seq_map map seq e us ps k hu hp) (
        row_effect-kept e.deletes us ps seq k (get docs k) (get map k) p
          (ground (arith, r, get-apply_rows docs e.deletes us ps k)))
