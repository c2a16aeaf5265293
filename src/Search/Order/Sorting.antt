-- ===== src/Search/Order/Sorting.antt =====
-- Two lists of the same different things are sorted to one list, which is what `sort_by` in
-- src/search.rs relies on.
use mathlib.Core.List.{Permᴰ}
use openpuffer.Base.{◌≡◌, refl, ap, ◌∙◌, ◌⊎◌, inl, inr, arith, Bool, true, false, List, [], ◌∷◌}
use openpuffer.Base.Logic.{Bool-cases}
use openpuffer.Base.Lists.{All}
use openpuffer.Filter.Syntax.{Order, less, equal, greater}
use openpuffer.Search.Order.{is_greater, insert_by, sort_by}
use openpuffer.Search.Order.Laws.{Orders, Order-cases}

abbrev pub is_equal : Order → Bool
is_equal equal = true
is_equal o = false

pub is_equal-eq : (o : Order) → is_equal o ≡ true → o ≡ equal
is_equal-eq less h = absurd (ground arith)
is_equal-eq equal h = refl
is_equal-eq greater h = absurd (ground arith)

module _ {A : Type 0} (P : A → Type 0) (c : A → A → Order) (o : Orders P c) where
  -- What is not after something is before all that is after it.
  above :
      (x y z : A)
      → P x
      → P y
      → P z
      → is_greater (c x z) ≡ false
      → is_greater (c y z) ≡ true
      → (is_greater (c y x) ≡ true) × (is_greater (c x y) ≡ false)
  above x y z p q r h k =
      let zy : c z y ≡ less = o.flip y z q r ∙ ground arith in
      let xy : c x y ≡ less = elim (Order-cases (c x z)) [
        | inl e ↦ o.less_trans x z y p r q e zy
        | inr (inl e) ↦ o.equal_left x z y p r q e ∙ zy
        | inr (inr e) ↦ absurd (ground arith)
      ] in
      ((ground (arith, o.flip x y p q)), ground arith)

  -- Of two different things one is after the other.
  one_greater :
      (x y : A)
      → P x
      → P y
      → is_equal (c x y) ≡ false
      → ((is_greater (c x y) ≡ true) × (is_greater (c y x) ≡ false))
        ⊎ ((is_greater (c x y) ≡ false) × (is_greater (c y x) ≡ true))
  one_greater x y p q e = elim (Order-cases (c x y)) [
    | inl l ↦ inr (ground arith, ground (arith, o.flip x y p q))
    | inr (inl l) ↦ absurd (ground arith)
    | inr (inr l) ↦ inl (ground arith, ground (arith, o.flip x y p q))
  ]

  insert_by_comm :
      (x y : A) (l : List A)
      → P x
      → P y
      → All P l
      → is_equal (c x y) ≡ false
      → insert_by c x (insert_by c y l) ≡ insert_by c y (insert_by c x l)
  unfolding insert_by
  insert_by_comm x y [] p q a e = elim (one_greater x y p q e) [
    | inl (g, g') ↦ rw (g, g') refl
    | inr (g, g') ↦ rw (g, g') refl
  ]
  insert_by_comm x y (z ∷ zs) p q (r, a) e =
      let rest = insert_by_comm x y zs p q a e in
      elim (Bool-cases (is_greater (c x z))) [
        | inl xz ↦ elim (Bool-cases (is_greater (c y z))) [
          | inl yz ↦ rw (xz, yz, insert_by, xz) (ap (◌∷◌ z) rest)
          | inr yz ↦ let (g, g') = above y x z q p r yz xz in ground arith
        ]
        | inr xz ↦ elim (Bool-cases (is_greater (c y z))) [
          | inl yz ↦ let (g, g') = above x y z p q r xz yz in ground arith
          | inr yz ↦ elim (one_greater x y p q e) [
            | inl (g, g') ↦ ground arith
            | inr (g, g') ↦ ground arith
          ]
        ]
      ]

  All-insert_by : (x : A) (l : List A) → P x → All P l → All P (insert_by c x l)
  unfolding insert_by
  All-insert_by x [] p a = (p, tt)
  All-insert_by x (y ∷ ys) p (q, a) = elim (Bool-cases (is_greater (c x y))) [
    | inl g ↦ rw g (q, All-insert_by x ys p a)
    | inr g ↦ rw g (p, (q, a))
  ]

  All-sort_by : (l : List A) → All P l → All P (sort_by c l)
  unfolding sort_by
  All-sort_by [] a = tt
  All-sort_by (x ∷ xs) (p, a) = All-insert_by x (sort_by c xs) p (All-sort_by xs a)

  -- No two things of a list are equal to the comparison.
  abbrev pub Apart : List A → Type 0
  Apart [] = Unit
  Apart (x ∷ xs) = All (λ y. is_equal (c x y) ≡ false) xs × Apart xs

  All-perm : {l m : List A} (Q : A → Type 0) → Permᴰ l m → All Q l → All Q m
  All-perm Q Permᴰ.nil a = tt
  All-perm Q (Permᴰ.cons e d) (q, a) = (rw e at q, All-perm Q d a)
  All-perm Q (Permᴰ.swap e f) (q, (r, a)) = (rw f at r, (rw e at q, a))
  All-perm Q (Permᴰ.trans d e) a = All-perm Q e (All-perm Q d a)

  Apart-perm : {l m : List A} → Permᴰ l m → All P l → Apart l → Apart m
  Apart-perm Permᴰ.nil a s = tt
  Apart-perm (Permᴰ.cons {a = x} {b = y} e d) (p, a) (s, t) =
      (All-perm (λ z. is_equal (c y z) ≡ false) d (rw e at s), Apart-perm d a t)
  Apart-perm (Permᴰ.swap {a = x} {b = y} e f) (p, (q, a)) ((n, s), (t, r)) =
      let n' : is_equal (c y x) ≡ false = ground (arith, o.flip x y p q) in
      ((rw (e, f) at n', rw f at t), (rw e at s, r))
  Apart-perm (Permᴰ.trans d e) a s = Apart-perm e (All-perm P d a) (Apart-perm d a s)

  -- Two lists of the same different things are sorted to one.
  pub sort_by-perm : {l m : List A} → Permᴰ l m → All P l → Apart l → sort_by c l ≡ sort_by c m
  unfolding sort_by
  sort_by-perm Permᴰ.nil a s = refl
  sort_by-perm (Permᴰ.cons {l₂ = m} e d) (p, a) (s, t) =
      rw (sort_by-perm d a t) (ap (λ x. insert_by c x (sort_by c m)) e)
  sort_by-perm (Permᴰ.swap {a = x} {b = y} {a' = x'} {b' = y'} {l = l} e f) (p, (q, a))
        ((n, s), t) =
      insert_by_comm x y (sort_by c l) p q (All-sort_by l a) n
      ∙ ap (λ z. insert_by c z (insert_by c x (sort_by c l))) f
      ∙ ap (λ z. insert_by c x' (insert_by c z (sort_by c l))) e
  sort_by-perm (Permᴰ.trans d e) a s =
      sort_by-perm d a s ∙ sort_by-perm e (All-perm P d a) (Apart-perm d a s)
