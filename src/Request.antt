-- ===== src/Request.antt =====
-- The rows of a write request, from the body to documents (src/api.rs, src/models.rs and src/limits.rs).
pub mod Counted
use Prim.Native.Char.{code}
use Prim.Native.String
use openpuffer.Base.{
  ℕ, zero, suc, ◌+◌, String, Option, none, some, List, [], ◌∷◌, ◌++◌, Bool, true, false, ◌||◌,
  text_eq,
}
use openpuffer.Base.Logic.{ok, err, ◌>>=◌, if◌then◌else◌, ltb, ◌==◌}
use openpuffer.Base.Lists.{length, try_map}
use openpuffer.Base.Maps.{StrMap, insert}
use openpuffer.Error.{Result, message}
use openpuffer.Json
use openpuffer.Json.{Value, Fields, elements, member}
use openpuffer.Wal.Entry.{Document}
use openpuffer.Limits.{byte_len, has_char}
use openpuffer.Storage.Writes.{Rows}

abbrev pub codes : String → List ℕ
codes String.[] = []
codes (String.◌∷◌ c s) = code c ∷ codes s

abbrev pub max_doc_id_bytes : ℕ
max_doc_id_bytes = 255

unfoldable pub validate_doc_id : String → Result (Unit {0})
validate_doc_id id =
    if text_eq id ""
    then err (message "document id must not be empty")
    else if ltb max_doc_id_bytes (byte_len (codes id))
    then err (message "document id exceeds maximum length")
    else if has_char 47 (codes id) || has_char 92 (codes id) || has_char 0 (codes id)
    then err (message "document id must not contain path separators or null bytes")
    else ok tt

unfoldable pub checked_id : String → Result String
unfolding validate_doc_id
checked_id id = validate_doc_id id >>= λ _. ok id

abbrev pub nth : {A : Type 0} → List A → ℕ → Option A
nth [] i = none
nth (x ∷ xs) zero = some x
nth (x ∷ xs) (suc i) = nth xs i

module _ {N : Type 0} where
  abbrev pub as_array : Value N → Option (List (Value N))
  as_array (Json.array vs) = some (elements vs)
  as_array v = none

  abbrev pub as_str : Value N → Option String
  as_str (Json.string s) = some s
  as_str v = none

  -- `cols.get("id").and_then(|v| v.as_array())`
  unfoldable pub id_column : Value N → Option (List (Value N))
  unfolding member
  id_column (Json.object m) = elim (member m "id") [ none ↦ none | some v ↦ as_array v ]
  id_column v = none

  -- Each column other than `id` is an array of `n` values.
  unfoldable pub check_columns : ℕ → Fields N → Result (Unit {0})
  check_columns n Json.end = ok tt
  check_columns n (Json.field key values m) =
      let rest = check_columns n m in
      if text_eq key "id" then rest else (elim (as_array values) [
        | none ↦ err (message "column must be an array")
        | some arr ↦ if length arr == n then rest else err (message "column length mismatch")
      ])

  -- The attributes of the row `i`.
  unfoldable pub row_attributes : ℕ → Fields N → StrMap (Value N)
  unfolding insert
  row_attributes i Json.end = []
  row_attributes i (Json.field key values m) =
      let attrs = row_attributes i m in
      if text_eq key "id" then attrs else (elim (as_array values) [
        | none ↦ attrs
        | some arr ↦ elim (nth arr i) [ none ↦ attrs | some v ↦ insert attrs key v ]
      ])

  -- The loop over the ids, from the row `i` on.
  unfoldable pub column_rows : Fields N → ℕ → List (Value N) → Result (List (Document (Value N)))
  unfolding validate_doc_id row_attributes
  column_rows m i [] = ok []
  column_rows m i (id_val ∷ ids) =
      let rest = column_rows m (suc i) ids in
      elim (as_str id_val) [
        | none ↦ err (message "id values must be strings")
        | some id ↦ validate_doc_id id >>= λ _.
            rest >>= λ rows. ok (record { id = id; attributes = row_attributes i m } ∷ rows)
      ]

  unfoldable pub apply_column_batch :
      List (Document (Value N)) → Value N → Result (List (Document (Value N)))
  unfolding id_column check_columns column_rows
  apply_column_batch rows (Json.object m) = elim (id_column (Json.object m)) [
    | none ↦ err (message "columns require id column")
    | some ids ↦
        check_columns (length ids) m >>= λ _. column_rows m 0 ids >>= λ new. ok (rows ++ new)
  ]
  apply_column_batch rows cols = err (message "columns must be an object")

-- The rows of the body of a write request.
pub record WriteBody (N : Type 0) : Type 0 where
  pub upsert_rows : List (Document (Value N))
  pub upsert_columns : Option (Value N)
  pub patch_rows : List (Document (Value N))
  pub patch_columns : Option (Value N)
  pub deletes : List String

module _ {N : Type 0} where
  abbrev pub counted_columns : Option (Value N) → ℕ
  counted_columns none = 0
  counted_columns (some cols) = elim (id_column cols) [ none ↦ 0 | some ids ↦ length ids ]

  unfoldable pub count_explicit_write_rows : WriteBody N → ℕ
  unfolding id_column
  count_explicit_write_rows body =
      length body.upsert_rows
      + length body.patch_rows
      + length body.deletes
      + counted_columns body.upsert_columns
      + counted_columns body.patch_columns

  unfoldable pub checked_row : Document (Value N) → Result (Document (Value N))
  unfolding validate_doc_id
  checked_row row =
      validate_doc_id row.id >>= λ _. ok (record { id = row.id; attributes = row.attributes })

  abbrev pub with_columns :
      List (Document (Value N)) → Option (Value N) → Result (List (Document (Value N)))
  with_columns rows none = ok rows
  with_columns rows (some cols) = apply_column_batch rows cols

  -- The part of the handler that reads the rows, after the limit on their number.
  unfoldable pub write_rows : ℕ → WriteBody N → Result (Rows (Value N))
  unfolding count_explicit_write_rows checked_row checked_id apply_column_batch
  write_rows max_upsert_rows body =
      if ltb max_upsert_rows (count_explicit_write_rows body)
      then err (message "too many rows")
      else (try_map checked_row body.upsert_rows >>= λ upserts.
          try_map checked_id body.deletes >>= λ deletes.
          with_columns upserts body.upsert_columns >>= λ upserts'.
          try_map checked_row body.patch_rows >>= λ patches.
          with_columns patches body.patch_columns >>= λ patches'.
          ok (record { upserts = upserts'; patches = patches'; deletes = body.deletes }))
