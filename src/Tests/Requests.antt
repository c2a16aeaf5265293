-- ===== src/Tests/Requests.antt =====
-- The theorem on the rows of a write request at a concrete input.
use openpuffer.Base.{ℕ, ◌+◌, ◌≤◌, ◌≡◌, refl, none, some, [], ◌∷◌}
use openpuffer.Base.Logic.{ok}
use openpuffer.Base.Lists.{length}
use openpuffer.Json
use openpuffer.Json.{Value, Fields}
use openpuffer.Storage.Writes.{Rows}
use openpuffer.Request.{WriteBody, count_explicit_write_rows, write_rows}
use openpuffer.Request.Counted

abbrev two_values : Value ℕ → Value ℕ → Value ℕ
two_values a b = Json.array (Json.cons a (Json.cons b Json.nil))

abbrev two_columns : Value ℕ
two_columns = Json.object (
    Json.field "id" (two_values (Json.string "a") (Json.string "b"))
      (Json.field "n" (two_values (Json.number 1) (Json.number 2)) Json.end))

abbrev body : WriteBody ℕ
body = record {
  upsert_rows = record { id = "c"; attributes = [] } ∷ [];
  upsert_columns = some two_columns;
  patch_rows = [];
  patch_columns = none;
  deletes = "d" ∷ [];
}

abbrev four_rows : Rows (Value ℕ)
four_rows = record {
  upserts =
      record { id = "c"; attributes = [] }
      ∷ record { id = "a"; attributes = ("n", Json.number 1) ∷ [] }
      ∷ record { id = "b"; attributes = ("n", Json.number 2) ∷ [] }
      ∷ [];
  patches = [];
  deletes = "d" ∷ [];
}

accepted : write_rows 10 body ≡ ok four_rows
unfolding write_rows
accepted = refl

write_rows_counted_example :
    (length four_rows.upserts + length four_rows.patches + length four_rows.deletes
      ≡ count_explicit_write_rows body)
    × (count_explicit_write_rows body ≤ 10)
write_rows_counted_example = Counted.write_rows_counted 10 body four_rows accepted
