-- ===== src/Search/Order/Results.antt =====
-- The results of a query (src/search.rs) do not depend on the order in which a hash map gives the
-- candidates.

use mathlib.Core.List.{Permᴰ}
use openpuffer.Base.{
  ℕ, ◌≡◌, ap, Option, none, some, inl, inr, arith, String, false, List, [], ◌∷◌, text_eq, eq_iff,
}
use openpuffer.Base.Logic.{Bool-cases}
use openpuffer.Base.Lists.{All, take}
use openpuffer.Base.Maps.{get}
use openpuffer.Json.{Value}
use openpuffer.Wal.Entry.{Docs}
use openpuffer.Filter.Syntax.{Numbers, Order}
use openpuffer.Search.Order.{
  then_with, or_equal, attr_sort_key, compare_attr_keys, OrderBy, compare_docs_by_attribute,
  by_attribute, compare_scored, ranked,
}
use openpuffer.Search.Order.Laws.{
  Orders, then_equal, then_with-Orders, flipped-Orders, equal-Orders, on-Orders, Compared, FineKey,
  compare_attr_keys-Orders,
}
use openpuffer.Search.Order.Sorting.{is_equal, is_equal-eq, Apart, sort_by-perm}

module _ {N F : Type 0} (num : Numbers N F) (not_nan : F → Type 0) (laws : Compared num not_nan)
    (docs : Docs (Value N)) where
  abbrev pub FineAttribute : Option OrderBy → String → Type 0
  FineAttribute none id = Unit
  FineAttribute (some ob) id = FineKey num not_nan laws (attr_sort_key num (get docs id) ob.field)

  -- Neither the score nor the number that the document is ordered by is NaN.
  abbrev pub Fine : Option OrderBy → String × F → Type 0
  Fine order_by a = not_nan a.1 × FineAttribute order_by a.0

  by_attribute-Orders :
      (order_by : Option OrderBy) → Orders (FineAttribute order_by) (by_attribute num docs order_by)
  unfolding compare_docs_by_attribute
  by_attribute-Orders none = equal-Orders (λ id. Unit)
  by_attribute-Orders (some ob) =
      on-Orders (FineAttribute (some ob)) (FineKey num not_nan laws)
        (λ a b. compare_attr_keys num a b ob.descending)
        (λ id. attr_sort_key num (get docs id) ob.field) (λ id f. f)
        (compare_attr_keys-Orders num not_nan laws ob.descending)

  compare_scored-Orders :
      (order_by : Option OrderBy) → Orders (Fine order_by) (compare_scored num docs order_by)
  unfolding compare_scored
  compare_scored-Orders order_by =
      let P = Fine order_by in
      let score : String × F → String × F → Order = λ a b. or_equal (num.partial_cmp b.1 a.1) in
      let attr : String × F → String × F → Order = λ a b. by_attribute num docs order_by a.0 b.0 in
      let id : String × F → String × F → Order = λ a b. num.text_cmp a.0 b.0 in
      then_with-Orders P (λ a b. then_with (score a b) (attr a b)) id
        (then_with-Orders P score attr
          (flipped-Orders P (λ a b. or_equal (num.partial_cmp a.1 b.1))
            (on-Orders P not_nan (λ x y. or_equal (num.partial_cmp x y)) (λ a. a.1) (λ a f. f.0)
              laws.numbers))
          (on-Orders P (FineAttribute order_by) (by_attribute num docs order_by) (λ a. a.0)
            (λ a f. f.1) (by_attribute-Orders order_by)))
        (on-Orders P (λ s. Unit) num.text_cmp (λ a. a.0) (λ a f. tt) laws.texts)

  -- No two results have the same id.
  abbrev pub DistinctIds : List (String × F) → Type 0
  DistinctIds [] = Unit
  DistinctIds (a ∷ l) = All (λ b. text_eq a.0 b.0 ≡ false) l × DistinctIds l

  not_equal :
      (order_by : Option OrderBy) (a b : String × F)
      → text_eq a.0 b.0 ≡ false
      → is_equal (compare_scored num docs order_by a b) ≡ false
  unfolding compare_scored
  not_equal order_by a b n = elim (Bool-cases (is_equal (compare_scored num docs order_by a b))) [
    | inr e ↦ e
    | inl e ↦
        let first =
          then_with (or_equal (num.partial_cmp b.1 a.1)) (by_attribute num docs order_by a.0 b.0) in
        let both =
          then_equal first (num.text_cmp a.0 b.0)
            (is_equal-eq (compare_scored num docs order_by a b) e) in
        absurd (ground (arith, laws.text_equal a.0 b.0 both.1, eq_iff a.0 b.0))
  ]

  others :
      (order_by : Option OrderBy) (a : String × F) (l : List (String × F))
      → All (λ b. text_eq a.0 b.0 ≡ false) l
      → All (λ b. is_equal (compare_scored num docs order_by a b) ≡ false) l
  others order_by a [] n = tt
  others order_by a (b ∷ l) (n, ns) = (not_equal order_by a b n, others order_by a l ns)

  DistinctIds-Apart :
      (order_by : Option OrderBy) (l : List (String × F))
      → DistinctIds l
      → Apart (Fine order_by) (compare_scored num docs order_by) (compare_scored-Orders order_by) l
  DistinctIds-Apart order_by [] d = tt
  DistinctIds-Apart order_by (a ∷ l) (n, d) =
      (others order_by a l n, DistinctIds-Apart order_by l d)

  -- The rows of a query, in their order and cut to `top_k`, are the same in whatever order the candidates
  -- come with their scores, where no two candidates have the same id, and no score and no number that is
  -- ordered by is NaN.
  pub ranked-perm :
      (order_by : Option OrderBy) (top_k : ℕ) {l m : List (String × F)}
      → Permᴰ l m
      → All (Fine order_by) l
      → DistinctIds l
      → ranked num docs order_by top_k l ≡ ranked num docs order_by top_k m
  unfolding ranked
  ranked-perm order_by top_k {l} p f d = ap (take top_k) (
      sort_by-perm (Fine order_by) (compare_scored num docs order_by)
        (compare_scored-Orders order_by) p f (DistinctIds-Apart order_by l d))
