-- ===== src/Base/Maps.antt =====
-- `HashMap<String, V>` and `HashSet<String>` as lists. The iteration order of a hash map is not
-- specified: a loop over a map takes the entries from the last to the first, so that the entry that
-- `get` finds is the last one handled.
use Prim.Native.String.{String}
use mathlib.Core.Path.{◌≡◌, refl}
use mathlib.Core.Bool.{Bool, true, false, ◌||◌}
use mathlib.Core.Option.{Option, none, some}
use mathlib.Core.List.{List, [], ◌∷◌, ◌++◌, map}
use native.Mathlib.Omega.{arith}
use text.Mathlib.Text.{◌==◌}
use text.Mathlib.TextEquality.{eq_iff}
use openpuffer.Base.Logic.{if◌then◌else◌}

abbrev pub StrMap {ℓ} : Type ℓ → Type ℓ
StrMap V = List (String × V)

abbrev pub is_some {ℓ} : {A : Type ℓ} → Option A → Bool
is_some none = false
is_some (some a) = true

-- `first.or(second)`
abbrev pub or_else {ℓ} : {A : Type ℓ} → Option A → Option A → Option A
or_else none b = b
or_else (some a) b = some a

module _ {ℓ} {V : Type ℓ} where
  unfoldable pub get : StrMap V → String → Option V
  get [] k = none
  get ((j, v) ∷ m) k = if j == k then some v else get m k

  unfoldable pub remove : StrMap V → String → StrMap V
  remove [] k = []
  remove ((j, v) ∷ m) k = let rest = remove m k in if j == k then rest else (j, v) ∷ rest

  unfoldable pub insert : StrMap V → String → V → StrMap V
  unfolding remove
  insert m k v = (k, v) ∷ remove m k

  unfoldable pub contains_key : StrMap V → String → Bool
  unfolding get
  contains_key m k = is_some (get m k)

  -- `entry(k).or_insert(v)`
  unfoldable pub or_insert : StrMap V → String → V → StrMap V
  unfolding contains_key insert
  or_insert m k v = if contains_key m k then m else insert m k v

  abbrev pub keys : StrMap V → List String
  keys = map (λ e. e.0)

  -- `for (k, v) in &new { m.insert(k.clone(), v.clone()); }`
  unfoldable pub extend : StrMap V → StrMap V → StrMap V
  unfolding insert
  extend m [] = m
  extend m ((k, v) ∷ new) = insert (extend m new) k v

  -- `m.iter().filter(|(k, v)| keep(k, v)).collect()`; the test reads the value that `get` finds.
  unfoldable pub filter_map_entries : (String → V → Bool) → StrMap V → StrMap V
  filter_map_entries keep [] = []
  filter_map_entries keep ((k, v) ∷ m) =
      let rest = filter_map_entries keep m in if keep k v then (k, v) ∷ rest else rest

  -- Two maps hold the same entries.
  abbrev pub SameMap : StrMap V → StrMap V → Type ℓ
  SameMap m n = (k : String) → get m k ≡ get n k

  pub get-remove :
      (m : StrMap V) (k j : String) → get (remove m k) j ≡ (if k == j then none else get m j)
  unfolding get remove
  get-remove [] k j = ground arith
  get-remove ((i, v) ∷ m) k j = ground (arith, get-remove m k j, eq_iff i k, eq_iff i j, eq_iff k j)

  pub get-insert :
      (m : StrMap V) (k : String) (v : V) (j : String)
      → get (insert m k v) j ≡ (if k == j then some v else get m j)
  unfolding get insert
  get-insert m k v j = ground (arith, get-remove m k j)

  pub get-or_insert :
      (m : StrMap V) (k : String) (v : V) (j : String)
      → get (or_insert m k v) j ≡ (if k == j then or_else (get m k) (some v) else get m j)
  unfolding or_insert contains_key
  get-or_insert m k v j = ground (arith, get-insert m k v j, eq_iff k j)

  pub get-extend :
      (m new : StrMap V) (k : String) → get (extend m new) k ≡ or_else (get new k) (get m k)
  unfolding extend get
  get-extend m [] k = refl
  get-extend m ((j, v) ∷ new) k =
      ground (arith, get-insert (extend m new) j v k, get-extend m new k)

  pub get-append : (m n : StrMap V) (k : String) → get (m ++ n) k ≡ or_else (get m k) (get n k)
  unfolding get
  get-append [] n k = refl
  get-append ((j, v) ∷ m) n k = ground (arith, get-append m n k)

pub ruleset map_laws = (get-remove, get-insert, get-or_insert, get-extend)

-- Sets of strings, by membership.
unfoldable pub contains : List String → String → Bool
contains [] a = false
contains (x ∷ xs) a = x == a || contains xs a

pub contains-append :
    (xs ys : List String) (a : String) → contains (xs ++ ys) a ≡ (contains xs a || contains ys a)
unfolding contains
contains-append [] ys a = refl
contains-append (x ∷ xs) ys a = ground (arith, contains-append xs ys a)
