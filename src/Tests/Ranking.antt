-- ===== src/Tests/Ranking.antt =====
-- The theorem on the order of results at a concrete input.
use mathlib.Core.List.{Permᴰ}
use openpuffer.Base.{
  ℕ, ◌≡◌, refl, some, [], ◌∷◌, true, false, String, inl, inr, arith, text_eq, eq_iff,
}
use openpuffer.Base.Logic.{if◌then◌else◌, ltb, Bool-cases}
use openpuffer.Json
use openpuffer.Json.{Value}
use openpuffer.Wal.Entry.{Docs}
use openpuffer.Filter.Syntax.{Numbers, Order, less, equal, greater}
use openpuffer.Storage.Export.{text_lt}
use openpuffer.Storage.Export.Order.{text_lt_irrefl, text_lt_trans, text_lt_total}
use openpuffer.Search.Order.{OrderBy, attr_sort_key, ranked}
use openpuffer.Search.Order.Laws.{Orders, Compared}
use openpuffer.Search.Order.Results

abbrev compare_numbers : ℕ → ℕ → Order
compare_numbers a b = if ltb a b then less else if ltb b a then greater else equal

abbrev compare_texts : String → String → Order
compare_texts s t = if text_eq s t then equal else if text_lt s t then less else greater

abbrev natural_numbers : Numbers ℕ ℕ
natural_numbers = record {
  as_f64 = λ n. some n;
  float_eq = λ a b. false;
  partial_cmp = λ a b. some (compare_numbers a b);
  zero_float = 0;
  one_float = 1;
  text_cmp = compare_texts;
}

text_lt_asym : (s t : String) → text_lt s t ≡ true → text_lt t s ≡ false
text_lt_asym s t h = elim (Bool-cases (text_lt t s)) [
  | inl k ↦ absurd (ground (arith, text_lt_trans s t s h k, text_lt_irrefl s))
  | inr k ↦ k
]

texts-Orders : Orders (λ s. Unit {0}) compare_texts
texts-Orders = record {
  flip = λ s t p q. ground (arith, eq_iff s t, eq_iff t s, text_lt_asym s t, text_lt_total s t);
  less_trans = λ s t u p q r h k.
      ground (arith, text_lt_trans s t u, text_lt_irrefl s, eq_iff s u, text_lt_asym s t);
  equal_left = λ s t u p q r h. ground (arith, eq_iff s t);
}

natural-Compared : Compared natural_numbers (λ n. Unit {0})
natural-Compared = record {
  numbers = record {
    flip = λ a b p q. ground arith;
    less_trans = λ a b c p q r h k. ground arith;
    equal_left = λ a b c p q r h. ground arith;
  };
  texts = texts-Orders;
  text_equal = λ s t h. ground (arith, eq_iff s t);
}

abbrev rated : Docs (Value ℕ)
rated =
    ("a", record { id = "a"; attributes = ("n", Json.number 1) ∷ [] })
    ∷ ("b", record { id = "b"; attributes = ("n", Json.number 2) ∷ [] })
    ∷ []

abbrev by_n : OrderBy
by_n = record { field = "n"; descending = true }

ranked-perm_example :
    ranked natural_numbers rated (some by_n) 1 (("a", 5) ∷ ("b", 5) ∷ [])
    ≡ ranked natural_numbers rated (some by_n) 1 (("b", 5) ∷ ("a", 5) ∷ [])
unfolding attr_sort_key
ranked-perm_example =
    Results.ranked-perm natural_numbers (λ n. Unit {0}) natural-Compared rated (some by_n) 1
      (Permᴰ.swap refl refl) ((tt, tt), ((tt, tt), tt)) ((refl, tt), (tt, tt))

b_is_first : ranked natural_numbers rated (some by_n) 1 (("a", 5) ∷ ("b", 5) ∷ []) ≡ ("b", 5) ∷ []
unfolding ranked
b_is_first = refl
