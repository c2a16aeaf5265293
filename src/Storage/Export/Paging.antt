-- ===== src/Storage/Export/Paging.antt =====
-- An export page by page (src/export.rs): a client that passes each `next_last_id` on gets every document
-- once, in order, and comes to an end.
use openpuffer.Base.{
  ℕ, zero, suc, ◌-◌, ◌≤◌, ◌<◌, ◌≡◌, refl, sym, ap, ◌∙◌, String, Option, none, some, List, [], ◌∷◌,
  ◌++◌, true, false, min, max, arith, inl, inr, text_eq, eq_iff,
}
use openpuffer.Base.Logic.{ltb, Bool-cases, Option-cases, text_eq_refl}
use openpuffer.Base.Lists.{length, take, drop, last, All}
use openpuffer.Base.Maps.{StrMap, contains, get, keys, is_some}
use openpuffer.Wal.Entry.{Docs}
use openpuffer.Namespace.Keyed.{Keyed, Keyed-get}
use openpuffer.Index.Indexed.{contains-keys}
use openpuffer.Storage.Writes.{keep_rows}
use openpuffer.Storage.Export.{
  text_lt, sort, ExportRow, clamp_limit, max_export_limit, after_last, rows_of, last_row_id,
  export_page, document_to_export_row,
}
use openpuffer.Storage.Export.Order.{
  text_lt_irrefl, text_lt_trans, Sorted, Distinct, contains-sort, length-sort, sort-Sorted,
}

abbrev above : String → List String → List String
above l = keep_rows (λ id. text_lt l id)

keep_all : (ys : List String) → keep_rows (after_last none) ys ≡ ys
unfolding keep_rows
keep_all [] = refl
keep_all (y ∷ ys) = ap (◌∷◌ y) (keep_all ys)

-- All of a list is above what is below all of it.
above-All : (l : String) (ys : List String) → All (λ y. text_lt l y ≡ true) ys → above l ys ≡ ys
unfolding keep_rows
above-All l [] a = refl
above-All l (y ∷ ys) (h, a) = rw h (ap (◌∷◌ y) (above-All l ys a))

-- What is above a later id is above an earlier one.
above-above :
    (l m : String) (ys : List String) → text_lt l m ≡ true → above m (above l ys) ≡ above m ys
unfolding keep_rows
above-above l m [] h = refl
above-above l m (y ∷ ys) h = elim (Bool-cases (text_lt l y)) [
  | inl e ↦ rw e (ground (arith, above-above l m ys h))
  | inr e ↦
      let not_above : text_lt m y ≡ false = elim (Bool-cases (text_lt m y)) [
        | inl t ↦ absurd (ground (arith, text_lt_trans l m y h t))
        | inr f ↦ f
      ] in
      rw (e, not_above) (above-above l m ys h)
]

All-contains :
    (y m : String) (zs : List String)
    → All (λ z. text_lt y z ≡ true) zs
    → contains zs m ≡ true
    → text_lt y m ≡ true
unfolding contains
All-contains y m [] a h = cc
All-contains y m (z ∷ zs) (b, a) h = elim (Bool-cases (text_eq z m)) [
  | inl e ↦ ground (arith, eq_iff z m)
  | inr e ↦ All-contains y m zs a (ground arith)
]

-- What stands above an id is after it.
contains-above :
    (l m : String) (ys : List String) → contains (above l ys) m ≡ true → text_lt l m ≡ true
unfolding keep_rows contains
contains-above l m [] h = absurd (ground arith)
contains-above l m (y ∷ ys) h = elim (Bool-cases (text_lt l y)) [
  | inl e ↦ elim (Bool-cases (text_eq y m)) [
    | inl f ↦ ground (arith, eq_iff y m)
    | inr f ↦ contains-above l m ys (ground arith)
  ]
  | inr e ↦ contains-above l m ys (ground arith)
]

text_lt_asym : (y m : String) → text_lt y m ≡ true → text_lt m y ≡ false
text_lt_asym y m h = elim (Bool-cases (text_lt m y)) [
  | inl t ↦ absurd (ground (arith, text_lt_trans y m y h t, text_lt_irrefl y))
  | inr f ↦ f
]

-- The last of the ids that are taken, and what is above it.
above_taken :
    (n : ℕ) (ys : List String)
    → Sorted ys
    → suc n ≤ length ys
    → (m : String) × (last (take (suc n) ys) ≡ some m)
      × (above m ys ≡ drop (suc n) ys)
      × (contains ys m ≡ true)
unfolding keep_rows contains
above_taken n [] s h = absurd (omega arith)
above_taken zero (y ∷ ys) (a, s) h =
    (y, refl, rw (text_lt_irrefl y) (above-All y ys a), ground (arith, text_eq_refl y))
above_taken (suc n) (y ∷ []) s h = absurd (omega arith)
above_taken (suc n) (y ∷ z ∷ ys) (a, s) h =
    let (m, l, r, e) = above_taken n (z ∷ ys) s (omega arith) in
    let below = text_lt_asym y m (All-contains y m (z ∷ ys) a e) in (m, l, rw below r, ground arith)

Sorted-drop : (n : ℕ) (ys : List String) → Sorted ys → Sorted (drop n ys)
Sorted-drop zero ys s = s
Sorted-drop (suc n) [] s = tt
Sorted-drop (suc n) (y ∷ ys) (a, s) = Sorted-drop n ys s

length-drop : {A : Type 0} (n : ℕ) (ys : List A) → length (drop n ys) ≡ length ys - n
length-drop zero ys = omega arith
length-drop (suc n) [] = omega arith
length-drop (suc n) (y ∷ ys) = omega (arith, length-drop n ys)

take_short : {A : Type 0} (n : ℕ) (ys : List A) → length ys < n → take n ys ≡ ys
take_short zero ys h = absurd (omega arith)
take_short (suc n) [] h = refl
take_short (suc n) (y ∷ ys) h = ap (◌∷◌ y) (take_short n ys (omega arith))

length_taken : {A : Type 0} (n : ℕ) (ys : List A) → n ≤ length ys → length (take n ys) ≡ n
length_taken zero ys h = refl
length_taken (suc n) [] h = absurd (omega arith)
length_taken (suc n) (y ∷ ys) h = ap suc (length_taken n ys (omega arith))

length-keys : {V : Type 0} (m : StrMap V) → length (keys m) ≡ length m
length-keys [] = refl
length-keys (e ∷ m) = ap suc (length-keys m)

module _ {V : Type 0} (docs : Docs V) where
  -- Every id has a document.
  abbrev pub Present : List String → Type 0
  Present = All (λ id. is_some (get docs id) ≡ true)

  Present-take : (n : ℕ) (ys : List String) → Present ys → Present (take n ys) × Present (drop n ys)
  Present-take zero ys p = (tt, p)
  Present-take (suc n) [] p = (tt, tt)
  Present-take (suc n) (y ∷ ys) (h, p) = let (a, b) = Present-take n ys p in ((h, a), b)

  length-rows_of : (ys : List String) → Present ys → length (rows_of docs ys) ≡ length ys
  unfolding rows_of
  length-rows_of [] p = refl
  length-rows_of (y ∷ ys) (h, p) = elim (Option-cases (get docs y)) [
    | inl e ↦ absurd (ground arith)
    | inr (d, e) ↦ rw (e, rows_of) (ap suc (length-rows_of ys p))
  ]

  rows_of-take :
      (n : ℕ) (ys : List String)
      → rows_of docs (take n ys) ++ rows_of docs (drop n ys) ≡ rows_of docs ys
  unfolding rows_of
  rows_of-take zero ys = refl
  rows_of-take (suc n) [] = refl
  rows_of-take (suc n) (y ∷ ys) = elim (Option-cases (get docs y)) [
    | inl e ↦ rw (e, rows_of) (rows_of-take n ys)
    | inr (d, e) ↦ rw (e, rows_of) (ap (◌∷◌ (document_to_export_row d)) (rows_of-take n ys))
  ]

  last-rows_of :
      (ys : List String) → Keyed docs → Present ys → last_row_id (rows_of docs ys) ≡ last ys
  unfolding rows_of document_to_export_row
  last-rows_of [] k p = refl
  last-rows_of (y ∷ []) k (h, p) = elim (Option-cases (get docs y)) [
    | inl e ↦ absurd (ground arith)
    | inr (d, e) ↦ rw (e, rows_of, document_to_export_row) (ap some (Keyed-get docs y d k e))
  ]
  last-rows_of (y ∷ z ∷ ys) k (h, (g, p)) =
      let more = last-rows_of (z ∷ ys) k (g, p) in
      elim (Option-cases (get docs y)) [
        | inl e ↦ absurd (ground arith)
        | inr (d, e) ↦ elim (Option-cases (get docs z)) [
          | inl f ↦ absurd (ground arith)
          | inr (d', f) ↦ ground arith
        ]
      ]

  module _ (wal_commit_seq limit : ℕ) where
    -- A client that asks for pages until none is left, as long as there is fuel.
    unfoldable pub export_from : ℕ → Option String → Option (List (ExportRow V))
    unfolding export_page
    export_from zero last_id = none
    export_from (suc fuel) last_id =
        let p = export_page docs wal_commit_seq last_id limit in
        elim p.next_last_id [
          | none ↦ some p.rows
          | some l ↦ elim (export_from fuel (some l)) [
            | none ↦ none
            | some rest ↦ some (p.rows ++ rest)
          ]
        ]

    clamp_limit-positive : (n : ℕ) × (clamp_limit limit ≡ suc n)
    unfolding clamp_limit
    clamp_limit-positive = (min (max limit 1) max_export_limit - 1, omega arith)

    -- The ids that a client which has read up to `last_id` does not have yet.
    abbrev pub left : Option String → List String
    left last_id = keep_rows (after_last last_id) (sort (keys docs))

    page_short :
        (last_id : Option String) (ys : List String)
        → left last_id ≡ ys
        → Present ys
        → length ys < clamp_limit limit
        → ((export_page docs wal_commit_seq last_id limit).rows ≡ rows_of docs ys)
          × ((export_page docs wal_commit_seq last_id limit).next_last_id ≡ none)
    unfolding export_page
    page_short last_id ys e p h =
        rw (e, take_short (clamp_limit limit) ys h, length-rows_of ys p) (refl, ground arith)

    left_after :
        (last_id : Option String) (ys : List String) (m : String) (zs : List String)
        → left last_id ≡ ys
        → contains ys m ≡ true
        → above m ys ≡ zs
        → left (some m) ≡ zs
    left_after none ys m zs e t a = ap (above m) (sym (keep_all (sort (keys docs))) ∙ e) ∙ a
    left_after (some l) ys m zs e t a =
        let lt : text_lt l m ≡ true =
          contains-above l m (sort (keys docs)) (ap (λ x. contains x m) e ∙ t) in
        sym (above-above l m (sort (keys docs)) lt) ∙ ap (above m) e ∙ a

    page_full :
        (last_id : Option String) (ys : List String) (m : String)
        → Keyed docs
        → left last_id ≡ ys
        → Present ys
        → clamp_limit limit ≤ length ys
        → last (take (clamp_limit limit) ys) ≡ some m
        → ((export_page docs wal_commit_seq last_id limit).rows
            ≡ rows_of docs (take (clamp_limit limit) ys))
          × ((export_page docs wal_commit_seq last_id limit).next_last_id ≡ some m)
    unfolding export_page
    page_full last_id ys m k e p h l =
        let n = clamp_limit limit in
        let taken = (Present-take n ys p).0 in
        rw
          (
            e,
            length-rows_of (take n ys) taken,
            length_taken n ys h,
            last-rows_of (take n ys) k taken,
            l,
          )
          (refl, ground arith)

    -- What the pages from one point hold.
    export_from-rows :
        (fuel : ℕ) (last_id : Option String) (ys : List String)
        → Keyed docs
        → left last_id ≡ ys
        → Sorted ys
        → Present ys
        → length ys < fuel
        → export_from fuel last_id ≡ some (rows_of docs ys)
    unfolding export_from
    export_from-rows zero last_id ys k e s p h = absurd (omega arith)
    export_from-rows (suc fuel) last_id ys k e s p h =
        elim (Bool-cases (ltb (length ys) (clamp_limit limit))) [
          | inl short ↦
              let (r, n) = page_short last_id ys e p (ground arith) in rw (export_from, n, r) refl
          | inr full ↦
              let (n', c) = clamp_limit-positive in
              let enough : suc n' ≤ length ys = ground arith in
              let (m, l, above_m, there) = above_taken n' ys s enough in
              let (r, next) = page_full last_id ys m k e p (ground arith) (rw c l) in
              let rest =
                export_from-rows fuel (some m) (drop (suc n') ys) k
                  (left_after last_id ys m (drop (suc n') ys) e there above_m)
                  (Sorted-drop (suc n') ys s) (Present-take (suc n') ys p).1
                  (omega (arith, length-drop (suc n') ys)) in
              rw (export_from, next, rest, r, c, rows_of-take (suc n') ys) refl
        ]

    sorted_ids-Present :
        (ids : List String)
        → ((k : String) → contains ids k ≡ true → is_some (get docs k) ≡ true)
        → Present ids
    unfolding contains
    sorted_ids-Present [] h = tt
    sorted_ids-Present (x ∷ xs) h =
        (h x (ground (arith, text_eq_refl x)), sorted_ids-Present xs (λ k e. h k (ground arith)))

    -- A client that passes each `next_last_id` on, whatever the page size that it asks for, comes to an end
    -- after at most one page more than there are documents, and has the rows of every document then, each
    -- once and in increasing order of ids, where the documents stand under their own ids, no two under one.
    pub export_from_complete :
        Keyed docs
        → Distinct (keys docs)
        → (ids : List String) × (export_from (suc (length docs)) none ≡ some (rows_of docs ids))
          × Sorted ids
          × (length (rows_of docs ids) ≡ length docs)
          × ((k : String) → contains ids k ≡ is_some (get docs k))
    export_from_complete k d =
        let ids = sort (keys docs) in
        let has : (x : String) → contains ids x ≡ is_some (get docs x) =
          λ x. contains-sort (keys docs) x ∙ contains-keys docs x in
        let there = sorted_ids-Present ids (λ x e. sym (has x) ∙ e) in
        let size : length ids ≡ length docs = length-sort (keys docs) ∙ length-keys docs in
        let sorted = sort-Sorted (keys docs) d in
        (
          ids,
          export_from-rows (suc (length docs)) none ids k (keep_all ids) sorted there (omega arith),
          sorted,
          length-rows_of ids there ∙ size,
          has,
        )
