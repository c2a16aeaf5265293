-- ===== src/View/Cache.antt =====
-- The cache of views (src/view_cache.rs), over any type of view: the least recently used namespace is
-- evicted first.
pub mod Bounded
use openpuffer.Base.{ℕ, String, Option, none, some, Bool, List, [], ◌∷◌, ◌++◌, max, text_eq}
use openpuffer.Base.Logic.{if◌then◌else◌, leb}
use openpuffer.Base.Lists.{length}
use openpuffer.Base.Maps.{StrMap, get, insert, remove, contains_key, contains}

pub record ViewCache (W : Type 0) : Type 0 where
  pub capacity : ℕ
  pub views : StrMap W
  pub order : List String

-- `order.remove(position)` where the position is the first one with the name.
unfoldable pub remove_first : List String → String → List String
remove_first [] name = []
remove_first (n ∷ ns) name =
    let rest = remove_first ns name in if text_eq n name then ns else n ∷ rest

-- `touch`: the name moves to the back, if it is there.
unfoldable pub touch : List String → String → List String
unfolding contains remove_first
touch order name = if contains order name then remove_first order name ++ name ∷ [] else order

module _ {W : Type 0} where
  -- `new`
  unfoldable pub new_cache : ℕ → ViewCache W
  new_cache limit = record { capacity = max limit 1; views = []; order = [] }

  unfoldable pub get_mut : ViewCache W → String → Option W × ViewCache W
  unfolding touch contains_key
  get_mut c name =
      if contains_key c.views name
      then (get c.views name, record c { order = touch c.order name })
      else (none, c)

  -- The loop of `evict_if_needed`.
  unfoldable pub evict_loop : ℕ → StrMap W → List String → StrMap W × List String
  evict_loop capacity views [] = (views, [])
  evict_loop capacity views (oldest ∷ order) =
      let rest = evict_loop capacity (remove views oldest) order in
      if leb capacity (length views) then rest else (views, oldest ∷ order)

  unfoldable pub evict_if_needed : ViewCache W → ViewCache W
  unfolding evict_loop
  evict_if_needed c =
      let (views, order) = evict_loop c.capacity c.views c.order in
      record c { views = views; order = order }

  unfoldable pub insert_view : ViewCache W → String → W → ViewCache W
  unfolding touch evict_if_needed contains_key
  insert_view c name view =
      if contains_key c.views name
      then record c { views = insert c.views name view; order = touch c.order name }
      else let e = evict_if_needed c in
        record e { order = e.order ++ name ∷ []; views = insert e.views name view }

  -- `remove`
  unfoldable pub remove_view : ViewCache W → String → Option W × ViewCache W
  unfolding remove_first
  remove_view c name = (
    get c.views name,
    record c { views = remove c.views name; order = remove_first c.order name },
  )
