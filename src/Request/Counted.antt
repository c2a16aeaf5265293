-- ===== src/Request/Counted.antt =====
-- The rows that are counted against the limit are those that are written (src/limits.rs, src/api.rs).
use openpuffer.Base.{
  ℕ, suc, ◌+◌, ◌≤◌, ◌≡◌, refl, sym, ap, ◌∙◌, Option, none, some, List, [], ◌∷◌, ◌++◌, arith, inl,
  inr,
}
use openpuffer.Base.Logic.{ok, err, ◌>>=◌, >>=-eq-ok, ltb, Bool-cases, Result-cases, Option-cases}
use openpuffer.Base.Lists.{length, try_map, length-append}
use openpuffer.Error.{Result}
use openpuffer.Json
use openpuffer.Json.{Value, Fields, member}
use openpuffer.Wal.Entry.{Document}
use openpuffer.Storage.Writes.{Rows}
use openpuffer.Request.{
  validate_doc_id, as_str, id_column, check_columns, column_rows, apply_column_batch, WriteBody,
  counted_columns, count_explicit_write_rows, checked_row, checked_id, with_columns, write_rows,
}

length-try_map :
    {A B : Type 0} (f : A → Result B) (xs : List A) (ys : List B)
    → try_map f xs ≡ ok ys
    → length ys ≡ length xs
length-try_map f [] ys h = ground arith
length-try_map f (x ∷ xs) ys h =
    let (y, e, h') = >>=-eq-ok (f x) (λ y. try_map f xs >>= λ ys. ok (y ∷ ys)) h in
    let (zs, e', h'') = >>=-eq-ok (try_map f xs) (λ ys. ok (y ∷ ys)) h' in
    let ih = length-try_map f xs zs e' in ground arith

value_or : {A : Type 0} → A → Result A → A
value_or x (ok y) = y
value_or x (err e) = x

ok_value : {A : Type 0} (x y : A) (r : Result A) → r ≡ ok x → r ≡ ok y → x ≡ y
unfolding value_or
ok_value x y r h k = ap (value_or x) (sym h ∙ k)

module _ {N : Type 0} where
  length-column_rows :
      (m : Fields N) (i : ℕ) (ids : List (Value N)) (rows : List (Document (Value N)))
      → column_rows m i ids ≡ ok rows
      → length rows ≡ length ids
  unfolding column_rows
  length-column_rows m i [] rows h = ground arith
  length-column_rows m i (v ∷ vs) rows h = elim (Option-cases (as_str v)) [
    | inl e ↦ absurd (ground arith)
    | inr (id, e) ↦ elim (Result-cases (column_rows m (suc i) vs)) [
      | inl (more, r) ↦
          let ih = length-column_rows m (suc i) vs more r in
          elim (Result-cases (validate_doc_id id)) [
            | inl (u, k) ↦ ground arith
            | inr (x, k) ↦ absurd (ground arith)
          ]
      | inr (x, r) ↦ elim (Result-cases (validate_doc_id id)) [
        | inl (u, k) ↦ absurd (ground arith)
        | inr (y, k) ↦ absurd (ground arith)
      ]
    ]
  ]

  length-apply_column_batch :
      (rows : List (Document (Value N))) (cols : Value N) (rows' : List (Document (Value N)))
      → apply_column_batch rows cols ≡ ok rows'
      → length rows' ≡ length rows + counted_columns (some cols)
  unfolding apply_column_batch
  length-apply_column_batch rows Json.null rows' h = absurd (ground arith)
  length-apply_column_batch rows (Json.bool b) rows' h = absurd (ground arith)
  length-apply_column_batch rows (Json.number n) rows' h = absurd (ground arith)
  length-apply_column_batch rows (Json.string s) rows' h = absurd (ground arith)
  length-apply_column_batch rows (Json.array vs) rows' h = absurd (ground arith)
  length-apply_column_batch rows (Json.object m) rows' h =
      elim (Option-cases (id_column (Json.object m))) [
        | inl e ↦ absurd (ground arith)
        | inr (ids, e) ↦
            let h' : (check_columns (length ids) m >>= λ _.
            column_rows m 0 ids >>= λ new. ok (rows ++ new))
                ≡ ok rows' =
              rw (e, apply_column_batch) at h in
            let (u, c, k) =
              >>=-eq-ok (check_columns (length ids) m)
                (λ _. column_rows m 0 ids >>= λ new. ok (rows ++ new)) h' in
            let (new, r, k') = >>=-eq-ok (column_rows m 0 ids) (λ new. ok (rows ++ new)) k in
            let size = length-column_rows m 0 ids new r in
            let both = length-append rows new in
            let same : rows ++ new ≡ rows' =
              ok_value (rows ++ new) rows' (ok (rows ++ new)) refl k' in
            let counted : counted_columns (some (Json.object m)) ≡ length ids =
              rw (e, counted_columns) refl in
            let total : length (rows ++ new) ≡ length rows' =
              ap (length {A = Document (Value N)}) same in
            omega (arith, total, both, size, counted)
      ]

  length-with_columns :
      (rows : List (Document (Value N))) (cols : Option (Value N))
      (rows' : List (Document (Value N)))
      → with_columns rows cols ≡ ok rows'
      → length rows' ≡ length rows + counted_columns cols
  length-with_columns rows none rows' h = ground arith
  length-with_columns rows (some cols) rows' h = length-apply_column_batch rows cols rows' h

  -- What follows the check of the deleted ids.
  abbrev after_deletes : WriteBody N → List (Document (Value N)) → Result (Rows (Value N))
  after_deletes body upserts = with_columns upserts body.upsert_columns >>= λ upserts'.
      try_map checked_row body.patch_rows >>= λ patches.
      with_columns patches body.patch_columns >>= λ patches'.
      ok (record { upserts = upserts'; patches = patches'; deletes = body.deletes })

  after_deletes_counted :
      (body : WriteBody N) (upserts : List (Document (Value N))) (rows : Rows (Value N))
      → try_map checked_row body.upsert_rows ≡ ok upserts
      → after_deletes body upserts ≡ ok rows
      → length rows.upserts + length rows.patches + length rows.deletes
        ≡ count_explicit_write_rows body
  unfolding count_explicit_write_rows
  after_deletes_counted body upserts rows u h =
      let (upserts', e, h1) =
        >>=-eq-ok (with_columns upserts body.upsert_columns)
          (λ upserts'. try_map checked_row body.patch_rows >>= λ patches.
            with_columns patches body.patch_columns >>= λ patches'.
            ok (record { upserts = upserts'; patches = patches'; deletes = body.deletes }))
          h in
      let (patches, f, h2) =
        >>=-eq-ok (try_map checked_row body.patch_rows)
          (λ patches. with_columns patches body.patch_columns >>= λ patches'.
            ok (record { upserts = upserts'; patches = patches'; deletes = body.deletes }))
          h1 in
      let (patches', g, h3) =
        >>=-eq-ok (with_columns patches body.patch_columns)
          (λ patches'.
            ok (record { upserts = upserts'; patches = patches'; deletes = body.deletes }))
          h2 in
      let got : Rows (Value N) = record {
        upserts = upserts';
        patches = patches';
        deletes = body.deletes;
      } in
      let same = ok_value got rows (ok got) refl h3 in
      let a = length-try_map checked_row body.upsert_rows upserts u in
      let b = length-with_columns upserts body.upsert_columns upserts' e in
      let c = length-try_map checked_row body.patch_rows patches f in
      let d = length-with_columns patches body.patch_columns patches' g in
      rw (sym same) (omega (arith, a, b, c, d))

  -- A write request whose rows are accepted has as many rows, written out and in columns together, as are
  -- counted against the limit, and not more than the limit.
  pub write_rows_counted :
      (max_upsert_rows : ℕ) (body : WriteBody N) (rows : Rows (Value N))
      → write_rows max_upsert_rows body ≡ ok rows
      → (length rows.upserts + length rows.patches + length rows.deletes
          ≡ count_explicit_write_rows body)
        × (count_explicit_write_rows body ≤ max_upsert_rows)
  unfolding write_rows
  write_rows_counted max_upsert_rows body rows h =
      elim (Bool-cases (ltb max_upsert_rows (count_explicit_write_rows body))) [
        | inl many ↦ absurd (ground arith)
        | inr few ↦
            let (upserts, u, h1) =
              >>=-eq-ok (try_map checked_row body.upsert_rows)
                (λ upserts.
                  try_map checked_id body.deletes >>= λ deletes. after_deletes body upserts)
                (rw (few, write_rows) at h) in
            let (deletes, d, h2) =
              >>=-eq-ok (try_map checked_id body.deletes) (λ deletes. after_deletes body upserts)
                h1 in
            (after_deletes_counted body upserts rows u h2, ground arith)
      ]
