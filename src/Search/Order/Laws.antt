-- ===== src/Search/Order/Laws.antt =====
-- Comparisons that order what they compare, and those that src/search.rs builds of others.
use openpuffer.Base.{◌≡◌, refl, sym, ap, ◌∙◌, ◌⊎◌, inl, inr, arith, String, Bool, true, false}
use openpuffer.Filter.Syntax.{Numbers, Order, less, equal, greater}
use openpuffer.Search.Order.{
  reverse, then_with, or_equal, AttrSortKey, null_key, number_key, string_key, key_cmp,
  compare_attr_keys,
}

-- A comparison orders the things of a kind, some of which may be equal to it.
pub record Orders {A : Type 0} (P : A → Type 0) (c : A → A → Order) : Type 0 where
  pub flip : (x y : A) → P x → P y → c y x ≡ reverse (c x y)
  pub less_trans : (x y z : A) → P x → P y → P z → c x y ≡ less → c y z ≡ less → c x z ≡ less
  pub equal_left : (x y z : A) → P x → P y → P z → c x y ≡ equal → c x z ≡ c y z

pub Order-cases : (o : Order) → (o ≡ less) ⊎ ((o ≡ equal) ⊎ (o ≡ greater))
Order-cases less = inl refl
Order-cases equal = inr (inl refl)
Order-cases greater = inr (inr refl)

then_less : (o p : Order) → then_with o p ≡ less → (o ≡ less) ⊎ ((o ≡ equal) × (p ≡ less))
then_less less p h = inl refl
then_less equal p h = inr (refl, h)
then_less greater p h = absurd (ground arith)

pub then_equal : (o p : Order) → then_with o p ≡ equal → (o ≡ equal) × (p ≡ equal)
then_equal less p h = absurd (ground arith)
then_equal equal p h = (refl, h)
then_equal greater p h = absurd (ground arith)

reverse-then_with : (o p : Order) → then_with (reverse o) (reverse p) ≡ reverse (then_with o p)
reverse-then_with less p = refl
reverse-then_with equal p = refl
reverse-then_with greater p = refl

module _ {A : Type 0} (P : A → Type 0) where
  Orders-equal_right :
      (c : A → A → Order)
      → Orders P c
      → (x y z : A) → P x
      → P y
      → P z
      → c y z ≡ equal
      → c x y ≡ c x z
  Orders-equal_right c o x y z p q r e =
      o.flip y x q p ∙ ap reverse (o.equal_left y z x q r p e) ∙ sym (o.flip z x r p)

  pub then_with-Orders :
      (c d : A → A → Order) → Orders P c → Orders P d → Orders P (λ x y. then_with (c x y) (d x y))
  then_with-Orders c d o o' = record {
    flip = λ x y p q.
        ap (λ a. then_with a (d y x)) (o.flip x y p q)
        ∙ ap (then_with (reverse (c x y))) (o'.flip x y p q)
        ∙ reverse-then_with (c x y) (d x y);
    less_trans = λ x y z p q r h k. elim (then_less (c x y) (d x y) h) [
      | inl a ↦ elim (then_less (c y z) (d y z) k) [
        | inl b ↦ rw (o.less_trans x y z p q r a b) refl
        | inr (b, b') ↦ rw (sym (Orders-equal_right c o x y z p q r b), a) refl
      ]
      | inr (a, a') ↦ elim (then_less (c y z) (d y z) k) [
        | inl b ↦ rw (o.equal_left x y z p q r a, b) refl
        | inr (b, b') ↦ rw (o.equal_left x y z p q r a, b) (o'.less_trans x y z p q r a' b')
      ]
    ];
    equal_left = λ x y z p q r h.
        let (a, b) = then_equal (c x y) (d x y) h in
        rw (o.equal_left x y z p q r a, o'.equal_left x y z p q r b) refl;
  }

  reverse_less : (a : Order) → reverse a ≡ less → a ≡ greater
  reverse_less less h = absurd (ground arith)
  reverse_less equal h = absurd (ground arith)
  reverse_less greater h = refl

  reverse_equal : (a : Order) → reverse a ≡ equal → a ≡ equal
  reverse_equal less h = absurd (ground arith)
  reverse_equal equal h = refl
  reverse_equal greater h = absurd (ground arith)

  -- The other way round.
  pub flipped-Orders : (c : A → A → Order) → Orders P c → Orders P (λ x y. c y x)
  flipped-Orders c o = record {
    flip = λ x y p q. o.flip y x q p;
    less_trans = λ x y z p q r h k. o.less_trans z y x r q p k h;
    equal_left =
        λ x y z p q r h. Orders-equal_right c o z x y r p q (o.flip y x q p ∙ ap reverse h);
  }

  pub equal-Orders : Orders P (λ x y. equal)
  equal-Orders = record {
    flip = λ x y p q. refl;
    less_trans = λ x y z p q r h k. h;
    equal_left = λ x y z p q r h. refl;
  }

  -- The order of what two things have.
  pub on-Orders :
      {B : Type 0} (Q : B → Type 0) (c : B → B → Order) (f : A → B)
      → ((x : A) → P x → Q (f x))
      → Orders Q c
      → Orders P (λ x y. c (f x) (f y))
  on-Orders Q c f m o = record {
    flip = λ x y p q. o.flip (f x) (f y) (m x p) (m y q);
    less_trans = λ x y z p q r. o.less_trans (f x) (f y) (f z) (m x p) (m y q) (m z r);
    equal_left = λ x y z p q r. o.equal_left (f x) (f y) (f z) (m x p) (m y q) (m z r);
  }

  reversed-Orders : (c : A → A → Order) → Orders P c → Orders P (λ x y. reverse (c x y))
  reversed-Orders c o = record {
    flip = λ x y p q. ap reverse (o.flip x y p q);
    less_trans = λ x y z p q r h k.
        let yx : c y x ≡ less = o.flip x y p q ∙ ap reverse (reverse_less (c x y) h) in
        let zy : c z y ≡ less = o.flip y z q r ∙ ap reverse (reverse_less (c y z) k) in
        ap reverse (o.flip z x r p ∙ ap reverse (o.less_trans z y x r q p zy yx));
    equal_left = λ x y z p q r h. ap reverse (o.equal_left x y z p q r (reverse_equal (c x y) h));
  }

-- What the numbers and the strings of the language are to their comparisons, where a number is not NaN.
pub record Compared {N F : Type 0} (num : Numbers N F) (not_nan : F → Type 0) : Type 0 where
  pub numbers : Orders not_nan (λ x y. or_equal (num.partial_cmp x y))
  pub texts : Orders (λ s. Unit {0}) num.text_cmp
  pub text_equal : (s t : String) → num.text_cmp s t ≡ equal → s ≡ t

module _ {N F : Type 0} (num : Numbers N F) (not_nan : F → Type 0)
    (laws : Compared num not_nan) where
  abbrev pub FineKey : AttrSortKey F → Type 0
  FineKey null_key = Unit
  FineKey (number_key x) = not_nan x
  FineKey (string_key s) = Unit

  key_flip :
      (x y : AttrSortKey F) → FineKey x → FineKey y → key_cmp num y x ≡ reverse (key_cmp num x y)
  key_flip null_key null_key p q = refl
  key_flip null_key (number_key y) p q = refl
  key_flip null_key (string_key t) p q = refl
  key_flip (number_key x) null_key p q = refl
  key_flip (number_key x) (number_key y) p q = laws.numbers.flip x y p q
  key_flip (number_key x) (string_key t) p q = refl
  key_flip (string_key s) null_key p q = refl
  key_flip (string_key s) (number_key y) p q = refl
  key_flip (string_key s) (string_key t) p q = laws.texts.flip s t tt tt

  key_less_trans :
      (x y z : AttrSortKey F)
      → FineKey x
      → FineKey y
      → FineKey z
      → key_cmp num x y ≡ less
      → key_cmp num y z ≡ less
      → key_cmp num x z ≡ less
  key_less_trans null_key null_key z p q r h k = absurd (ground arith)
  key_less_trans null_key (number_key y) null_key p q r h k = absurd (ground arith)
  key_less_trans null_key (string_key t) null_key p q r h k = absurd (ground arith)
  key_less_trans null_key y (number_key z) p q r h k = refl
  key_less_trans null_key y (string_key u) p q r h k = refl
  key_less_trans (number_key x) null_key z p q r h k = absurd (ground arith)
  key_less_trans (number_key x) (number_key y) null_key p q r h k = absurd (ground arith)
  key_less_trans (number_key x) (number_key y) (number_key z) p q r h k =
      laws.numbers.less_trans x y z p q r h k
  key_less_trans (number_key x) (string_key t) null_key p q r h k = absurd (ground arith)
  key_less_trans (number_key x) (string_key t) (number_key z) p q r h k = absurd (ground arith)
  key_less_trans (number_key x) y (string_key u) p q r h k = refl
  key_less_trans (string_key s) null_key z p q r h k = absurd (ground arith)
  key_less_trans (string_key s) (number_key y) z p q r h k = absurd (ground arith)
  key_less_trans (string_key s) (string_key t) null_key p q r h k = absurd (ground arith)
  key_less_trans (string_key s) (string_key t) (number_key z) p q r h k = absurd (ground arith)
  key_less_trans (string_key s) (string_key t) (string_key u) p q r h k =
      laws.texts.less_trans s t u tt tt tt h k

  key_equal_left :
      (x y z : AttrSortKey F)
      → FineKey x
      → FineKey y
      → FineKey z
      → key_cmp num x y ≡ equal
      → key_cmp num x z ≡ key_cmp num y z
  key_equal_left null_key null_key z p q r h = refl
  key_equal_left null_key (number_key y) z p q r h = absurd (ground arith)
  key_equal_left null_key (string_key t) z p q r h = absurd (ground arith)
  key_equal_left (number_key x) null_key z p q r h = absurd (ground arith)
  key_equal_left (number_key x) (string_key t) z p q r h = absurd (ground arith)
  key_equal_left (number_key x) (number_key y) null_key p q r h = refl
  key_equal_left (number_key x) (number_key y) (string_key u) p q r h = refl
  key_equal_left (number_key x) (number_key y) (number_key z) p q r h =
      laws.numbers.equal_left x y z p q r h
  key_equal_left (string_key s) null_key z p q r h = absurd (ground arith)
  key_equal_left (string_key s) (number_key y) z p q r h = absurd (ground arith)
  key_equal_left (string_key s) (string_key t) null_key p q r h = refl
  key_equal_left (string_key s) (string_key t) (number_key z) p q r h = refl
  key_equal_left (string_key s) (string_key t) (string_key u) p q r h =
      laws.texts.equal_left s t u tt tt tt h

  key-Orders : Orders FineKey (key_cmp num)
  key-Orders = record { flip = key_flip; less_trans = key_less_trans; equal_left = key_equal_left }

  pub compare_attr_keys-Orders :
      (descending : Bool) → Orders FineKey (λ a b. compare_attr_keys num a b descending)
  unfolding compare_attr_keys
  compare_attr_keys-Orders true = reversed-Orders FineKey (key_cmp num) key-Orders
  compare_attr_keys-Orders false = key-Orders
