-- ===== src/Index/Postings.antt =====
-- Postings of src/index/filter.rs: field, key of a value, ids; and the sets of ids they hold.
use openpuffer.Base.{
  String, ◌≡◌, refl, Option, none, some, true, not, ◌||◌, ◌&&◌, List, [], ◌∷◌, arith, text_eq,
  eq_iff,
}
use openpuffer.Base.Logic.{if◌then◌else◌}
use openpuffer.Base.Lists.{is_empty}
use openpuffer.Base.Maps.{StrMap, get, insert, remove, get-insert, get-remove, contains}

-- `HashSet::insert` and `HashSet::remove`
unfoldable pub add_id : List String → String → List String
unfolding contains
add_id ids id = if contains ids id then ids else id ∷ ids

unfoldable pub remove_id : List String → String → List String
remove_id [] id = []
remove_id (x ∷ xs) id = let rest = remove_id xs id in if text_eq x id then rest else x ∷ rest

-- `a.intersection(&b)`
unfoldable pub intersection : List String → List String → List String
intersection [] b = []
intersection (x ∷ xs) b = let rest = intersection xs b in if contains b x then x ∷ rest else rest

-- `a.extend(b)`, where `b` is a list or a set: no id comes in twice.
unfoldable pub extend_ids : List String → List String → List String
unfolding add_id
extend_ids ids [] = ids
extend_ids ids (x ∷ xs) = add_id (extend_ids ids xs) x

pub contains-add_id :
    (ids : List String) (id k : String)
    → contains (add_id ids id) k ≡ (contains ids k || text_eq id k)
unfolding add_id contains
contains-add_id ids id k = ground (arith, eq_iff id k)

pub contains-extend_ids :
    (ids xs : List String) (k : String)
    → contains (extend_ids ids xs) k ≡ (contains xs k || contains ids k)
unfolding extend_ids contains
contains-extend_ids ids [] k = refl
contains-extend_ids ids (x ∷ xs) k =
    ground (arith, contains-extend_ids ids xs k, contains-add_id (extend_ids ids xs) x k)

pub contains-remove_id :
    (ids : List String) (id k : String)
    → contains (remove_id ids id) k ≡ (contains ids k && not (text_eq id k))
unfolding remove_id contains
contains-remove_id [] id k = refl
contains-remove_id (x ∷ xs) id k =
    ground (arith, contains-remove_id xs id k, eq_iff x id, eq_iff x k, eq_iff id k)

pub contains-intersection :
    (a b : List String) (k : String)
    → contains (intersection a b) k ≡ (contains a k && contains b k)
unfolding intersection contains
contains-intersection [] b k = refl
contains-intersection (x ∷ xs) b k = ground (arith, contains-intersection xs b k, eq_iff x k)

-- `entry(k).or_default()`, for sets and for maps of sets.
abbrev pub or_default {ℓ} : {A : Type ℓ} → Option (List A) → List A
or_default none = []
or_default (some xs) = xs

module _ {ℓ} {A : Type ℓ} where
  -- `for v in m.values_mut() { f(v) }; m.retain(|_, v| !v.is_empty())`; the keys of a map differ.
  unfoldable pub shrink_values : (List A → List A) → StrMap (List A) → StrMap (List A)
  unfolding remove
  shrink_values f [] = []
  shrink_values f ((k, v) ∷ m) =
      let rest = remove (shrink_values f m) k in
      let v' = f v in if is_empty v' then rest else (k, v') ∷ rest

  is_empty-eq : (xs : List A) → is_empty xs ≡ true → xs ≡ []
  is_empty-eq [] h = refl
  is_empty-eq (x ∷ xs) h = absurd (ground arith)

  pub get-shrink_values :
      (f : List A → List A) (m : StrMap (List A)) (k : String)
      → f [] ≡ []
      → or_default (get (shrink_values f m) k) ≡ f (or_default (get m k))
  unfolding shrink_values get
  get-shrink_values f [] k h = ground arith
  get-shrink_values f ((j, v) ∷ m) k h =
      ground (arith, get-shrink_values f m k, is_empty-eq (f v), get-remove (shrink_values f m) j k)

abbrev pub Postings : Type 0
Postings = StrMap (StrMap (List String))

-- The ids under a field and a key.
abbrev pub posting : Postings → String → String → List String
posting ps field vk = or_default (get (or_default (get ps field)) vk)

-- `postings.entry(field).or_default().entry(vk).or_default().insert(id)`
unfoldable pub add_posting : Postings → String → String → String → Postings
unfolding insert get add_id
add_posting ps field vk id =
    let m = or_default (get ps field) in
    insert ps field (insert m vk (add_id (or_default (get m vk)) id))

unfoldable pub remove_posting : Postings → String → Postings
unfolding shrink_values remove_id
remove_posting ps id = shrink_values (shrink_values (λ ids. remove_id ids id)) ps

pub posting-add_posting :
    (ps : Postings) (field vk id f k : String)
    → posting (add_posting ps field vk id) f k
      ≡ (if text_eq field f && text_eq vk k then add_id (posting ps f k) id else posting ps f k)
unfolding add_posting
posting-add_posting ps field vk id f k =
    let m = or_default (get ps field) in
    let s = add_id (or_default (get m vk)) id in
    ground (
      arith,
      get-insert ps field (insert m vk s) f,
      get-insert m vk s k,
      eq_iff field f,
      eq_iff vk k,
    )

pub posting-remove_posting :
    (ps : Postings) (id f k : String)
    → posting (remove_posting ps id) f k ≡ remove_id (posting ps f k) id
unfolding remove_posting remove_id shrink_values
posting-remove_posting ps id f k = ground (
  arith,
  get-shrink_values (shrink_values (λ ids. remove_id ids id)) ps f refl,
  get-shrink_values (λ ids. remove_id ids id) (or_default (get ps f)) k refl,
)
