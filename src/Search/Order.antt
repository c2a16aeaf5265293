-- ===== src/Search/Order.antt =====
-- The order of the results of a query (src/search.rs): by score, by an attribute, and by id.
pub mod Laws
pub mod Sorting
pub mod Results
use openpuffer.Base.{
  ℕ, ◌≤◌, String, Option, none, some, List, [], ◌∷◌, Bool, true, false, ◌||◌, text_eq,
}
use openpuffer.Base.Logic.{ok, err, ◌>>=◌, if◌then◌else◌, ltb, ◌==◌}
use openpuffer.Base.Lists.{length, take}
use openpuffer.Base.Maps.{get}
use openpuffer.Error.{Error, Result, message}
use openpuffer.Wal.Entry.{Document, Docs}
use openpuffer.Json
use openpuffer.Json.{Value}
use openpuffer.Schema.Text.{to_ascii_lowercase}
use openpuffer.Filter.Syntax.{Numbers, Order, less, equal, greater}
use openpuffer.Search.Candidates.{QueryConsistency, strong, eventual}

abbrev pub reverse : Order → Order
reverse less = greater
reverse equal = equal
reverse greater = less

abbrev pub then_with : Order → Order → Order
then_with equal o = o
then_with less o = less
then_with greater o = greater

abbrev pub or_equal : Option Order → Order
or_equal none = equal
or_equal (some o) = o

pub data AttrSortKey (F : Type 0) : Type 0 where
  null_key : AttrSortKey F
  number_key : F → AttrSortKey F
  string_key : String → AttrSortKey F

pub record OrderBy : Type 0 where
  pub field : String
  pub descending : Bool

abbrev pub default_top_k : ℕ
default_top_k = 10

abbrev pub max_top_k : ℕ
max_top_k = 1200

unfoldable pub parse_top_k : Option ℕ → Result ℕ
parse_top_k none = ok default_top_k
parse_top_k (some n) =
    if n == 0
    then err (message "top_k must be at least 1")
    else if ltb max_top_k n
    then err (message "top_k exceeds maximum")
    else ok n

-- `QueryConsistency::parse`
unfoldable pub parse_consistency : Option String → Result QueryConsistency
unfolding to_ascii_lowercase
parse_consistency none = ok strong
parse_consistency (some s) =
    let mode = to_ascii_lowercase s in
    if text_eq mode "strong"
    then ok strong
    else if text_eq mode "eventual"
    then ok eventual
    else err (message "unknown consistency mode")

unfoldable pub parse_direction : String → Result Bool
unfolding to_ascii_lowercase
parse_direction dir =
    let d = to_ascii_lowercase dir in
    if text_eq d "asc" || text_eq d "ascending"
    then ok false
    else if text_eq d "desc" || text_eq d "descending"
    then ok true
    else err (message "unknown order_by direction")

module _ {N : Type 0} where
  unfoldable pub parse_order_by : Value N → Result OrderBy
  unfolding parse_direction
  parse_order_by (Json.array (Json.cons (Json.string field) (Json.cons (Json.string dir) vs))) =
      parse_direction dir >>= λ descending. ok (record { field = field; descending = descending })
  parse_order_by (Json.array (Json.cons (Json.string field) (Json.cons v vs))) =
      err (message "order_by[1] must be asc or desc")
  parse_order_by (Json.array (Json.cons v (Json.cons w vs))) =
      err (message "order_by[0] must be a string field name")
  parse_order_by (Json.array vs) = err (message "order_by needs [field, asc|desc]")
  parse_order_by v = err (message "order_by must be a JSON array")

module _ {N F : Type 0} (num : Numbers N F) where
  abbrev pub value_sort_key : Value N → AttrSortKey F
  value_sort_key (Json.string s) = string_key s
  value_sort_key (Json.number n) = elim (num.as_f64 n) [ none ↦ null_key | some x ↦ number_key x ]
  value_sort_key (Json.bool b) = number_key (if b then num.one_float else num.zero_float)
  value_sort_key v = null_key

  unfoldable pub attr_sort_key : Option (Document (Value N)) → String → AttrSortKey F
  unfolding get
  attr_sort_key none field = null_key
  attr_sort_key (some doc) field = elim (get doc.attributes field) [
    | none ↦ null_key
    | some v ↦ value_sort_key v
  ]

  abbrev pub key_cmp : AttrSortKey F → AttrSortKey F → Order
  key_cmp null_key null_key = equal
  key_cmp null_key (number_key y) = less
  key_cmp null_key (string_key t) = less
  key_cmp (number_key x) null_key = greater
  key_cmp (string_key s) null_key = greater
  key_cmp (number_key x) (number_key y) = or_equal (num.partial_cmp x y)
  key_cmp (string_key s) (string_key t) = num.text_cmp s t
  key_cmp (number_key x) (string_key t) = less
  key_cmp (string_key s) (number_key y) = greater

  unfoldable pub compare_attr_keys : AttrSortKey F → AttrSortKey F → Bool → Order
  compare_attr_keys a b descending =
      let ord = key_cmp a b in if descending then reverse ord else ord

  unfoldable pub compare_docs_by_attribute : Docs (Value N) → String → String → OrderBy → Order
  unfolding compare_attr_keys attr_sort_key get
  compare_docs_by_attribute docs id_a id_b ob =
      compare_attr_keys (attr_sort_key (get docs id_a) ob.field)
        (attr_sort_key (get docs id_b) ob.field) ob.descending

  abbrev pub by_attribute : Docs (Value N) → Option OrderBy → String → String → Order
  by_attribute docs none id_a id_b = equal
  by_attribute docs (some ob) id_a id_b = compare_docs_by_attribute docs id_a id_b ob

  -- The comparison that `execute_query` sorts by.
  unfoldable pub compare_scored : Docs (Value N) → Option OrderBy → String × F → String × F → Order
  unfolding compare_docs_by_attribute
  compare_scored docs order_by a b =
      then_with
        (then_with (or_equal (num.partial_cmp b.1 a.1)) (by_attribute docs order_by a.0 b.0))
        (num.text_cmp a.0 b.0)

abbrev pub is_greater : Order → Bool
is_greater greater = true
is_greater o = false

-- `sort_by`, which is stable.
unfoldable pub insert_by : {A : Type 0} → (A → A → Order) → A → List A → List A
insert_by cmp x [] = x ∷ []
insert_by cmp x (y ∷ ys) =
    let rest = insert_by cmp x ys in if is_greater (cmp x y) then y ∷ rest else x ∷ y ∷ ys

unfoldable pub sort_by : {A : Type 0} → (A → A → Order) → List A → List A
unfolding insert_by
sort_by cmp [] = []
sort_by cmp (x ∷ xs) = insert_by cmp x (sort_by cmp xs)

module _ {N F : Type 0} (num : Numbers N F) where
  -- `ranked.sort_by(..); ranked.truncate(top_k);`
  unfoldable pub ranked :
      Docs (Value N) → Option OrderBy → ℕ → List (String × F) → List (String × F)
  unfolding sort_by compare_scored
  ranked docs order_by top_k scored = take top_k (sort_by (compare_scored num docs order_by) scored)
