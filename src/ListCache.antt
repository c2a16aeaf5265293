-- ===== src/ListCache.antt =====
-- The cache of the list of namespaces (src/namespace_list_cache.rs). The clock is an argument: a number of
-- milliseconds that `Instant::now` returns.
use openpuffer.Base.{ℕ, ◌-◌, String, Option, none, some, List}
use openpuffer.Base.Logic.{if◌then◌else◌, leb}

pub record CachedList : Type 0 where
  pub namespaces : List String
  pub cached_at : ℕ

pub record NamespaceListCache : Type 0 where
  pub ttl : ℕ
  pub entry : Option CachedList

-- `new`
unfoldable pub new_list_cache : ℕ → NamespaceListCache
new_list_cache ttl = record { ttl = ttl; entry = none }

-- `get`: a list that is as old as the limit is not returned.
unfoldable pub cached_list : NamespaceListCache → ℕ → Option (List String)
cached_list c now = elim c.entry [
  | none ↦ none
  | some e ↦ if leb c.ttl (now - e.cached_at) then none else some e.namespaces
]

-- `set`
unfoldable pub set_list : NamespaceListCache → ℕ → List String → NamespaceListCache
set_list c now namespaces = record c {
  entry = some (record { namespaces = namespaces; cached_at = now });
}

unfoldable pub invalidate : NamespaceListCache → NamespaceListCache
invalidate c = record c { entry = none }
