-- ===== src/Storage/Export.antt =====
-- Pages of documents (src/export.rs). Ids are compared by their code points, which is the order of their
-- bytes in UTF-8.
pub mod Order
pub mod Paging
use Prim.Native.Char.{Char, code}
use Prim.Native.String
use openpuffer.Base.{
  ℕ, zero, suc, String, Option, none, some, List, [], ◌∷◌, ◌++◌, Bool, true, false, ◌||◌, ◌&&◌, min,
  max,
}
use openpuffer.Base.Logic.{if◌then◌else◌, ltb, ◌==◌}
use openpuffer.Base.Lists.{length, take, last}
use openpuffer.Base.Maps.{StrMap, get, keys}
use openpuffer.Wal.Entry.{Document, Docs}
use openpuffer.Storage.Writes.{keep_rows}

-- `str::lt`
unfoldable pub text_lt : String → String → Bool
text_lt s String.[] = false
text_lt String.[] (String.◌∷◌ d t) = true
text_lt (String.◌∷◌ c s) (String.◌∷◌ d t) = ltb (code c) (code d) || code c == code d && text_lt s t

-- `sort_unstable`; equal ids cannot be told apart.
unfoldable pub insert_sorted : String → List String → List String
insert_sorted x [] = x ∷ []
insert_sorted x (y ∷ ys) =
    let rest = insert_sorted x ys in if text_lt y x then y ∷ rest else x ∷ y ∷ ys

unfoldable pub sort : List String → List String
unfolding insert_sorted
sort [] = []
sort (x ∷ xs) = insert_sorted x (sort xs)

pub record ExportRow (V : Type 0) : Type 0 where
  pub id : String
  pub attributes : StrMap V

pub record ExportPage (V : Type 0) : Type 0 where
  pub wal_commit_seq : ℕ
  pub rows : List (ExportRow V)
  pub next_last_id : Option String

abbrev pub max_export_limit : ℕ
max_export_limit = 10000

-- `limit.clamp(1, MAX_EXPORT_LIMIT)`
unfoldable pub clamp_limit : ℕ → ℕ
clamp_limit limit = min (max limit 1) max_export_limit

abbrev pub after_last : Option String → String → Bool
after_last none id = true
after_last (some l) id = text_lt l id

module _ {V : Type 0} where
  unfoldable pub document_to_export_row : Document V → ExportRow V
  document_to_export_row doc = record { id = doc.id; attributes = doc.attributes }

  -- `filter_map(|id| docs.get(id).map(document_to_export_row))`
  unfoldable pub rows_of : Docs V → List String → List (ExportRow V)
  unfolding get document_to_export_row
  rows_of docs [] = []
  rows_of docs (id ∷ ids) =
      let rest = rows_of docs ids in
      elim (get docs id) [ none ↦ rest | some doc ↦ document_to_export_row doc ∷ rest ]

  abbrev pub last_row_id : List (ExportRow V) → Option String
  last_row_id rows = elim (last rows) [ none ↦ none | some r ↦ some r.id ]

  unfoldable pub export_page : Docs V → ℕ → Option String → ℕ → ExportPage V
  unfolding sort clamp_limit rows_of keep_rows text_lt
  export_page docs wal_commit_seq last_id limit =
      let n = clamp_limit limit in
      let rows = rows_of docs (take n (keep_rows (after_last last_id) (sort (keys docs)))) in
      record {
        wal_commit_seq = wal_commit_seq;
        rows = rows;
        next_last_id = if length rows == n then last_row_id rows else none;
      }
