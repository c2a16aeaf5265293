-- ===== src/Index/FullText/Lengths.antt =====
-- The lengths of the documents of a full-text segment (src/index/fts.rs), their number and their sum.
use openpuffer.Base.{
  ℕ, suc, ◌+◌, ◌*◌, ◌≤◌, ◌<◌, ◌≡◌, refl, ap, String, none, some, [], ◌∷◌, arith, text_eq, eq_iff,
  inl, inr,
}
use openpuffer.Base.Logic.{Bool-cases, text_eq_refl}
use openpuffer.Base.Lists.{length}
use openpuffer.Base.Maps.{StrMap, get, insert, remove, get-remove}
use openpuffer.Index.FullText.Segment.{u32_size}

abbrev pub sum_values : StrMap ℕ → ℕ
sum_values [] = 0
sum_values ((k, n) ∷ m) = n + sum_values m

-- No key stands twice, and each length is a 32-bit number.
abbrev pub Lengths : StrMap ℕ → Type 0
Lengths [] = Unit
Lengths ((k, n) ∷ m) = (get m k ≡ none) × ((n < u32_size) × Lengths m)

remove_absent : {V : Type 0} (m : StrMap V) (k : String) → get m k ≡ none → remove m k ≡ m
unfolding remove get
remove_absent [] k h = refl
remove_absent ((j, v) ∷ m) k h = ground (arith, remove_absent m k)

pub Lengths-remove : (m : StrMap ℕ) (k : String) → Lengths m → Lengths (remove m k)
unfolding remove get
Lengths-remove [] k l = tt
Lengths-remove ((j, n) ∷ m) k (a, (b, l)) = elim (Bool-cases (text_eq j k)) [
  | inl e ↦ rw e (Lengths-remove m k l)
  | inr e ↦ rw e (ground (arith, get-remove m k j, eq_iff k j), (b, Lengths-remove m k l))
]

pub Lengths-insert :
    (m : StrMap ℕ) (k : String) (n : ℕ) → n < u32_size → Lengths m → Lengths (insert m k n)
unfolding insert
Lengths-insert m k n b l =
    (ground (arith, get-remove m k k, text_eq_refl k), (b, Lengths-remove m k l))

pub insert_absent :
    {V : Type 0} (m : StrMap V) (k : String) (v : V) → get m k ≡ none → insert m k v ≡ (k, v) ∷ m
unfolding insert
insert_absent m k v h = ap (λ r. (k, v) ∷ r) (remove_absent m k h)

-- One entry fewer, and its length less.
pub remove_lem :
    (m : StrMap ℕ) (k : String) (n : ℕ)
    → Lengths m
    → get m k ≡ some n
    → (suc (length (remove m k)) ≡ length m) × (n + sum_values (remove m k) ≡ sum_values m)
unfolding remove get
remove_lem [] k n l h = absurd (ground arith)
remove_lem ((j, v) ∷ m) k n (a, (b, l)) h = elim (Bool-cases (text_eq j k)) [
  | inl e ↦
      let same : j ≡ k = (eq_iff j k).0 e in
      let gone : remove m k ≡ m = remove_absent m k (rw same at a) in
      rw (e, gone) (refl, ground arith)
  | inr e ↦ let (size, total) = remove_lem m k n l (ground arith) in rw e (omega arith, omega arith)
]

pub sum_values-bounded : (m : StrMap ℕ) → Lengths m → sum_values m ≤ length m * u32_size
sum_values-bounded [] l = omega arith
sum_values-bounded ((k, n) ∷ m) (a, (b, l)) = omega (arith, sum_values-bounded m l)
