-- ===== src/Wal/Delta/Exact.antt =====
-- What the collected delta says of each id (src/wal.rs, `collect_index_delta`), against the documents
-- after the entries. The index takes a delta over by its deletes first and its rows after them.
use openpuffer.Base.{
  String, ◌≡◌, ◌≢◌, refl, sym, ◌∙◌, Option, none, some, List, [], ◌∷◌, ◌++◌, true, false, ◌||◌,
  arith, inl, inr, ◌⊎◌, text_eq, eq_iff,
}
use openpuffer.Base.Logic.{
  ok, err, >>=-eq-ok, if◌then◌else◌, Bool-cases, Option-cases, Result-cases,
}
use openpuffer.Base.Lists.{try_map}
use openpuffer.Base.Maps.{or_else, contains, contains-append, get, get-insert}
use openpuffer.Error.{Result}
use openpuffer.Wal.Entry.{Document, Docs, WalUpsert, WalPatch, WalEntry}
use openpuffer.Wal.Codec.{Codec}
use openpuffer.Wal.Apply.{
  apply_entry, apply_rows, into_documents, patch_documents, wal_upsert_to_document,
  wal_patch_to_document,
}
use openpuffer.Wal.Effect.{latest, row_effect, get-apply_rows, patched-none, patched-some}
use openpuffer.Wal.Replay.{apply_entry_ok}
use openpuffer.Wal.Batching.{has_row, latest_absent, latest_present, patched_absent}
use openpuffer.Wal.Delta.{
  Collected, note_entry, collect_after, upsert_ids, patch_ids, note_id, note_ids, collect_entry,
  collect_from, collect_index_delta,
}

module _ {V : Type 0} where
  get-note_id :
      (docs um : Docs V) (id k : String)
      → get (note_id docs um id) k
        ≡ (if text_eq id k then or_else (get docs k) (get um k) else get um k)
  unfolding note_id
  get-note_id docs um id k = elim (Option-cases (get docs id)) [
    | inl e ↦ ground (arith, eq_iff id k)
    | inr (d, e) ↦ ground (arith, eq_iff id k, get-insert um id d k)
  ]

  get-note_ids :
      (docs um : Docs V) (ids : List String) (k : String)
      → get (note_ids docs um ids) k
        ≡ (if contains ids k then or_else (get docs k) (get um k) else get um k)
  unfolding note_ids contains
  get-note_ids docs um [] k = refl
  get-note_ids docs um (id ∷ ids) k =
      ground (arith, get-note_ids docs (note_id docs um id) ids k, get-note_id docs um id k)

  -- The documents that the index holds once it has taken the delta over.
  abbrev pub delta_effect : Docs V → Collected V → String → Option (Document V)
  delta_effect before s k =
      or_else (get s.upsert_map k) (if contains s.deletes k then none else get before k)

  -- The index holds the id's document; or the id is deleted and the delta still has a row of it.
  abbrev pub Follows : Docs V → Collected V → String → Type 0
  Follows before s k =
      (delta_effect before s k ≡ get s.baseline k)
      ⊎ ((get s.baseline k ≡ none) × (get s.upsert_map k ≢ none))

  pub row_effect_untouched :
      (ds : List String) (us ps : List (Document V)) (k : String) (o : Option (Document V))
      → has_row us k ≡ false
      → has_row ps k ≡ false
      → row_effect ds us ps k o ≡ (if contains ds k then none else o)
  row_effect_untouched ds us ps k o hu hp =
      ground
        (arith, latest_absent us k hu, patched_absent ps k (if contains ds k then none else o) hp)

  -- A document that no row of the entry touches, or that was there and is not deleted, is there after.
  row_effect-none :
      (ds : List String) (us ps : List (Document V)) (k : String) (o : Option (Document V))
      → row_effect ds us ps k o ≡ none
      → contains ds k ≡ false
      → o ≡ none
  row_effect-none ds us ps k none h g = refl
  row_effect-none ds us ps k (some d) h g = elim (Option-cases (latest us k)) [
    | inl e ↦ let (d', h', _, _) = patched-some ps k d in absurd (ground arith)
    | inr (u, e) ↦ let (d', h', _, _) = patched-some ps k u in absurd (ground arith)
  ]

  -- One entry, from its rows.
  step_rows :
      (before : Docs V) (s : Collected V) (ds ids : List String) (us ps : List (Document V))
      (k : String)
      → contains ids k ≡ (has_row us k || has_row ps k)
      → Follows before s k
      → Follows before
          (record {
            baseline = apply_rows s.baseline ds us ps;
            upsert_map = note_ids (apply_rows s.baseline ds us ps) s.upsert_map ids;
            deletes = s.deletes ++ ds;
          })
          k
  step_rows before s ds ids us ps k hi f =
      let docs = apply_rows s.baseline ds us ps in
      let after = get-apply_rows s.baseline ds us ps k in
      let noted = get-note_ids docs s.upsert_map ids k in
      let both = contains-append s.deletes ds k in
      elim (Option-cases (get docs k)) [
        | inr (d, e) ↦ elim (Bool-cases (contains ids k)) [
          | inl t ↦ inl (ground arith)
          | inr n ↦ inl (ground (arith, row_effect_untouched ds us ps k (get s.baseline k)))
        ]
        | inl e ↦ elim (Option-cases (get s.upsert_map k)) [
          | inr (d, g) ↦ inr (e, ground arith)
          | inl g ↦ inl (ground (arith, row_effect-none ds us ps k (get s.baseline k)))
        ]
      ]

module _ {V : Type 0} (c : Codec V) where
  pub contains-upsert_ids :
      (ws : List WalUpsert) (us : List (Document V)) (k : String)
      → try_map (wal_upsert_to_document c) ws ≡ ok us
      → contains (upsert_ids ws) k ≡ has_row us k
  unfolding wal_upsert_to_document contains
  contains-upsert_ids [] us k h = ground arith
  contains-upsert_ids (w ∷ ws) us k h = elim (Option-cases (c.from_slice w.attributes)) [
    | inl e ↦ absurd (ground arith)
    | inr (a, e) ↦ elim (Result-cases (try_map (wal_upsert_to_document c) ws)) [
      | inr (x, g) ↦ absurd (ground arith)
      | inl (rest, g) ↦ ground (arith, contains-upsert_ids ws rest k g)
    ]
  ]

  pub contains-patch_ids :
      (ws : List WalPatch) (us : List (Document V)) (k : String)
      → try_map (wal_patch_to_document c) ws ≡ ok us
      → contains (patch_ids ws) k ≡ has_row us k
  unfolding wal_patch_to_document contains
  contains-patch_ids [] us k h = ground arith
  contains-patch_ids (w ∷ ws) us k h = elim (Option-cases (c.from_slice w.attributes)) [
    | inl e ↦ absurd (ground arith)
    | inr (a, e) ↦ elim (Result-cases (try_map (wal_patch_to_document c) ws)) [
      | inr (x, g) ↦ absurd (ground arith)
      | inl (rest, g) ↦ ground (arith, contains-patch_ids ws rest k g)
    ]
  ]

  collect_after_ok :
      (s s' : Collected V) (e : WalEntry) (p : Result (Unit {0}) × Docs V)
      → collect_after s e p ≡ ok s'
      → (p ≡ (ok tt, p.1)) × (s' ≡ note_entry s e p.1)
  unfolding collect_after
  collect_after_ok s s' e (err x, docs) h = cc
  collect_after_ok s s' e (ok x, docs) h = (ground arith, ground arith)

  collect_entry-Follows :
      (before : Docs V) (s s' : Collected V) (e : WalEntry) (k : String)
      → collect_entry c s e ≡ ok s'
      → Follows before s k
      → Follows before s' k
  unfolding collect_entry into_documents patch_documents
  collect_entry-Follows before s s' e k h f =
      let docs = (apply_entry c s.baseline e).1 in
      let (applied, r) = collect_after_ok s s' e (apply_entry c s.baseline e) h in
      let (us, ps, hu, hp, rows) = apply_entry_ok c s.baseline e docs applied in
      let ids = upsert_ids e.upserts ++ patch_ids e.patches in
      let hi : contains ids k ≡ (has_row us k || has_row ps k) = ground (
        arith,
        contains-append (upsert_ids e.upserts) (patch_ids e.patches) k,
        contains-upsert_ids e.upserts us k hu,
        contains-patch_ids e.patches ps k hp,
      ) in
      rw (r, rows) (step_rows before s e.deletes ids us ps k hi f)

  collect_from-Follows :
      (before : Docs V) (es : List WalEntry) (s s' : Collected V) (k : String)
      → collect_from c s es ≡ ok s'
      → Follows before s k
      → Follows before s' k
  unfolding collect_from
  collect_from-Follows before [] s s' k h f = let e : s' ≡ s = ground arith in rw e f
  collect_from-Follows before (e ∷ es) s s' k h f =
      let (s1, h1, h2) = >>=-eq-ok (collect_entry c s e) (λ s1. collect_from c s1 es) h in
      collect_from-Follows before es s1 s' k h2 (collect_entry-Follows before s s1 e k h1 f)

  -- Deletes first and rows after them, the delta turns the documents before the entries into those
  -- after them at each id that is present at the end or that no row was collected of.
  pub collect_index_delta_exact :
      (before : Docs V) (es : List WalEntry) (s : Collected V) (k : String)
      → collect_index_delta c before es ≡ ok s
      → (get s.baseline k ≢ none) ⊎ (get s.upsert_map k ≡ none)
      → delta_effect before s k ≡ get s.baseline k
  unfolding collect_index_delta get contains
  collect_index_delta_exact before es s k h side =
      let f =
        collect_from-Follows before es (record { baseline = before; upsert_map = []; deletes = [] })
          s k h (inl refl) in
      elim f [
        | inl e ↦ e
        | inr (gone, row) ↦ elim side [ inl p ↦ absurd (p gone) | inr n ↦ absurd (row n) ]
      ]

  -- What one round leaves at an id.
  collect_entry_at :
      (s s' : Collected V) (e : WalEntry) (k : String)
      → collect_entry c s e ≡ ok s'
      → (us : List (Document V)) × (ps : List (Document V)) × (get s'.baseline k
          ≡ row_effect e.deletes us ps k (get s.baseline k))
        × (contains (upsert_ids e.upserts) k ≡ has_row us k)
        × (get s'.upsert_map k ≡ (
            if contains (upsert_ids e.upserts ++ patch_ids e.patches) k
            then or_else (get s'.baseline k) (get s.upsert_map k)
            else get s.upsert_map k))
  unfolding collect_entry into_documents patch_documents
  collect_entry_at s s' e k h =
      let docs = (apply_entry c s.baseline e).1 in
      let (applied, r) = collect_after_ok s s' e (apply_entry c s.baseline e) h in
      let (us, ps, hu, hp, rows) = apply_entry_ok c s.baseline e docs applied in
      let ids = upsert_ids e.upserts ++ patch_ids e.patches in
      (
        us,
        ps,
        rw r (rw rows (get-apply_rows s.baseline e.deletes us ps k)),
        contains-upsert_ids e.upserts us k hu,
        rw r (get-note_ids docs s.upsert_map ids k),
      )

  -- An id that one entry upserts and the next deletes keeps its row in the delta: the index holds
  -- the document again once it has taken the delta over, though it is deleted.
  pub collect_index_delta_resurrects :
      (before : Docs V) (e1 e2 : WalEntry) (s : Collected V) (k : String)
      → collect_index_delta c before (e1 ∷ e2 ∷ []) ≡ ok s
      → contains (upsert_ids e1.upserts) k ≡ true
      → contains e2.deletes k ≡ true
      → contains (upsert_ids e2.upserts) k ≡ false
      → (get s.baseline k ≡ none) × (delta_effect before s k ≢ none)
  unfolding collect_index_delta collect_from get
  collect_index_delta_resurrects before e1 e2 s k h up gone keep =
      let s0 : Collected V = record { baseline = before; upsert_map = []; deletes = [] } in
      let (s1, h1, h') = >>=-eq-ok (collect_entry c s0 e1) (λ s1. collect_from c s1 (e2 ∷ [])) h in
      let (s2, h2, h'') = >>=-eq-ok (collect_entry c s1 e2) (λ s2. collect_from c s2 []) h' in
      let (us1, ps1, b1, i1, m1) = collect_entry_at s0 s1 e1 k h1 in
      let (us2, ps2, b2, i2, m2) = collect_entry_at s1 s2 e2 k h2 in
      let (d, hd) = latest_present us1 k (sym i1 ∙ up) in
      let (d1, hd1, _, _) = patched-some ps1 k d in
      let c1 = contains-append (upsert_ids e1.upserts) (patch_ids e1.patches) k in
      let n2 = latest_absent us2 k (sym i2 ∙ keep) in
      let row1 : get s1.upsert_map k ≡ some d1 = ground arith in
      let none2 : get s2.baseline k ≡ none = ground (arith, patched-none ps2 k) in
      let row2 : get s2.upsert_map k ≡ some d1 = ground arith in (ground arith, λ e. ground arith)
