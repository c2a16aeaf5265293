-- ===== src/Storage/Export/Order.antt =====
-- The order of ids is a strict total order, and sorting by it (src/export.rs).
use Prim.Native.Char.{Char, code}
use package.text.Mathlib.TextEquality.{Char-path}
use openpuffer.Base.{
  suc, ◌≡◌, refl, sym, ap, ◌∙◌, String, List, [], ◌∷◌, true, false, ◌||◌, arith, inl, inr, text_eq,
}
use openpuffer.Base.Logic.{◌==◌, Bool-cases}
use openpuffer.Base.Lists.{length, All}
use openpuffer.Base.Maps.{contains}
use openpuffer.Index.Values.{cons_same}
use openpuffer.Storage.Export.{text_lt, insert_sorted, sort}

pub text_lt_irrefl : (s : String) → text_lt s s ≡ false
unfolding text_lt
text_lt_irrefl String.[] = refl
text_lt_irrefl (String.◌∷◌ c s) = ground (arith, text_lt_irrefl s)

pub text_lt_trans : (s t u : String) → text_lt s t ≡ true → text_lt t u ≡ true → text_lt s u ≡ true
unfolding text_lt
text_lt_trans s t String.[] h k = absurd (ground arith)
text_lt_trans s String.[] (String.◌∷◌ e u) h k = absurd (ground arith)
text_lt_trans String.[] (String.◌∷◌ d t) (String.◌∷◌ e u) h k = refl
text_lt_trans (String.◌∷◌ c s) (String.◌∷◌ d t) (String.◌∷◌ e u) h k =
    ground (arith, text_lt_trans s t u)

tails_differ :
    (c d : Char) (s t : String)
    → code c == code d ≡ true
    → text_eq (String.◌∷◌ c s) (String.◌∷◌ d t) ≡ false
    → text_eq s t ≡ false
tails_differ c d s t e k =
    let same : c ≡ d = Char-path c d (ground arith) in
    sym (cons_same d s t) ∙ ap (λ x. text_eq (String.◌∷◌ x s) (String.◌∷◌ d t)) (sym same) ∙ k

pub text_lt_total : (s t : String) → text_lt s t ≡ false → text_eq s t ≡ false → text_lt t s ≡ true
unfolding text_lt
text_lt_total String.[] String.[] h k = cc
text_lt_total String.[] (String.◌∷◌ d t) h k = cc
text_lt_total (String.◌∷◌ c s) String.[] h k = refl
text_lt_total (String.◌∷◌ c s) (String.◌∷◌ d t) h k = elim (Bool-cases (code c == code d)) [
  | inl e ↦ ground (arith, text_lt_total s t (ground arith) (tails_differ c d s t e k))
  | inr e ↦ ground arith
]

-- In strictly increasing order.
abbrev pub Sorted : List String → Type 0
Sorted [] = Unit
Sorted (x ∷ xs) = All (λ y. text_lt x y ≡ true) xs × Sorted xs

-- No id stands twice.
abbrev pub Distinct : List String → Type 0
Distinct [] = Unit
Distinct (x ∷ xs) = (contains xs x ≡ false) × Distinct xs

pub contains-insert_sorted :
    (x : String) (ys : List String) (k : String)
    → contains (insert_sorted x ys) k ≡ (text_eq x k || contains ys k)
unfolding insert_sorted contains
contains-insert_sorted x [] k = refl
contains-insert_sorted x (y ∷ ys) k = ground (arith, contains-insert_sorted x ys k)

pub contains-sort : (xs : List String) (k : String) → contains (sort xs) k ≡ contains xs k
unfolding sort contains
contains-sort [] k = refl
contains-sort (x ∷ xs) k = ground (arith, contains-insert_sorted x (sort xs) k, contains-sort xs k)

pub length-insert_sorted :
    (x : String) (ys : List String) → length (insert_sorted x ys) ≡ suc (length ys)
unfolding insert_sorted
length-insert_sorted x [] = refl
length-insert_sorted x (y ∷ ys) = ground (arith, length-insert_sorted x ys)

pub length-sort : (xs : List String) → length (sort xs) ≡ length xs
unfolding sort
length-sort [] = refl
length-sort (x ∷ xs) = length-insert_sorted x (sort xs) ∙ ap suc (length-sort xs)

All-lt_trans :
    (x y : String) (ys : List String)
    → text_lt x y ≡ true
    → All (λ z. text_lt y z ≡ true) ys
    → All (λ z. text_lt x z ≡ true) ys
All-lt_trans x y [] h a = tt
All-lt_trans x y (z ∷ ys) h (a, as') = (text_lt_trans x y z h a, All-lt_trans x y ys h as')

All-insert_sorted :
    (w x : String) (ys : List String)
    → text_lt w x ≡ true
    → All (λ z. text_lt w z ≡ true) ys
    → All (λ z. text_lt w z ≡ true) (insert_sorted x ys)
unfolding insert_sorted
All-insert_sorted w x [] h a = (h, tt)
All-insert_sorted w x (y ∷ ys) h (a, as') = elim (Bool-cases (text_lt y x)) [
  | inl l ↦ rw l (a, All-insert_sorted w x ys h as')
  | inr g ↦ rw g (h, (a, as'))
]

insert_sorted-Sorted :
    (x : String) (ys : List String)
    → Sorted ys
    → contains ys x ≡ false
    → Sorted (insert_sorted x ys)
unfolding insert_sorted contains
insert_sorted-Sorted x [] s n = (tt, tt)
insert_sorted-Sorted x (y ∷ ys) (a, s) n = elim (Bool-cases (text_lt y x)) [
  | inl l ↦ rw l (All-insert_sorted y x ys l a, insert_sorted-Sorted x ys s (ground arith))
  | inr g ↦
      let lt = text_lt_total y x g (ground arith) in rw g ((lt, All-lt_trans x y ys lt a), (a, s))
]

pub sort-Sorted : (xs : List String) → Distinct xs → Sorted (sort xs)
unfolding sort
sort-Sorted [] d = tt
sort-Sorted (x ∷ xs) (n, d) =
    insert_sorted-Sorted x (sort xs) (sort-Sorted xs d) (contains-sort xs x ∙ n)
