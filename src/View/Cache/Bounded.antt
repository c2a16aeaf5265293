-- ===== src/View/Cache/Bounded.antt =====
-- The bound and the bookkeeping of the cache of views (src/view_cache.rs).
use openpuffer.Base.{
  ℕ, suc, ◌≤◌, ◌<◌, ◌≡◌, refl, String, none, some, true, false, List, [], ◌∷◌, ◌++◌, arith, inl,
  inr, ◌⊎◌, text_eq, eq_iff,
}
use openpuffer.Base.Logic.{if◌then◌else◌, leb, Bool-cases}
use openpuffer.Base.Lists.{length}
use openpuffer.Base.Maps.{
  StrMap, get, insert, remove, contains_key, contains, contains-append, get-remove, get-insert,
}
use openpuffer.View.Cache.{ViewCache, remove_first, touch, evict_loop, evict_if_needed, insert_view}

-- No name twice.
abbrev pub Distinct : List String → Type 0
Distinct [] = Unit
Distinct (n ∷ ns) = (contains ns n ≡ false) × Distinct ns

contains-remove_first :
    (ns : List String) (name k : String)
    → Distinct ns
    → contains (remove_first ns name) k ≡ (if text_eq name k then false else contains ns k)
unfolding contains remove_first
contains-remove_first [] name k d = ground arith
contains-remove_first (n ∷ ns) name k (d, ds) =
    ground (arith, contains-remove_first ns name k ds, eq_iff n name, eq_iff n k, eq_iff name k)

Distinct-remove_first :
    (ns : List String) (name : String) → Distinct ns → Distinct (remove_first ns name)
unfolding remove_first
Distinct-remove_first [] name d = tt
Distinct-remove_first (n ∷ ns) name (d, ds) = elim (Bool-cases (text_eq n name)) [
  | inl e ↦ rw e ds
  | inr e ↦
      rw e (ground (arith, contains-remove_first ns name n ds), Distinct-remove_first ns name ds)
]

Distinct-push :
    (ns : List String) (name : String)
    → Distinct ns
    → contains ns name ≡ false
    → Distinct (ns ++ name ∷ [])
unfolding contains
Distinct-push [] name d h = (refl, tt)
Distinct-push (n ∷ ns) name (d, ds) h = (
  ground (arith, contains-append ns (name ∷ []) n, eq_iff n name, eq_iff name n),
  Distinct-push ns name ds (ground arith),
)

contains-touch :
    (order : List String) (name k : String)
    → Distinct order
    → contains (touch order name) k ≡ contains order k
unfolding touch contains
contains-touch order name k d = ground (
  arith,
  contains-append (remove_first order name) (name ∷ []) k,
  contains-remove_first order name k d,
  eq_iff name k,
)

Distinct-touch :
    (order : List String) (name : String) → Distinct order → Distinct (touch order name)
unfolding touch
Distinct-touch order name d = elim (Bool-cases (contains order name)) [
  | inl e ↦ rw e (
      Distinct-push (remove_first order name) name (Distinct-remove_first order name d)
        (ground (arith, contains-remove_first order name name d, eq_iff name name)))
  | inr e ↦ rw e d
]

module _ {W : Type 0} where
  -- The names in order are the names of the views.
  abbrev pub SameNames : List String → StrMap W → Type 0
  SameNames order views = (k : String) → contains order k ≡ contains_key views k

  pub record IsValid (c : ViewCache W) : Type 0 where
    pub room : 0 < c.capacity
    pub distinct : Distinct c.order
    pub names : SameNames c.order c.views
    pub bounded : length c.views ≤ c.capacity

  length-remove : (m : StrMap W) (k : String) → length (remove m k) ≤ length m
  unfolding remove
  length-remove [] k = omega arith
  length-remove ((j, v) ∷ m) k = ground (arith, length-remove m k)

  SameNames-remove :
      (views : StrMap W) (oldest : String) (order : List String)
      → Distinct (oldest ∷ order)
      → SameNames (oldest ∷ order) views
      → SameNames order (remove views oldest)
  unfolding contains contains_key
  SameNames-remove views oldest order (d, ds) s k =
      ground (arith, s k, get-remove views oldest k, eq_iff oldest k)

  length-no_names : (views : StrMap W) → SameNames [] views → length views ≡ 0
  unfolding contains contains_key get
  length-no_names [] s = refl
  length-no_names ((j, v) ∷ m) s = absurd (ground (arith, s j, eq_iff j j))

  -- What an eviction leaves: it takes names from the front of the order until there is room.
  record Evicted (capacity : ℕ) (views views' : StrMap W) (order order' : List String)
      : Type 0 where
    gone : List String
    front : order ≡ gone ++ order'
    kept : (k : String) → get views' k ≡ (if contains gone k then none else get views k)
    distinct : Distinct order'
    names : SameNames order' views'
    room : length views' < capacity
    needed : (gone ≡ []) ⊎ (capacity ≤ length views)

  evict_loop-Evicted :
      (capacity : ℕ) (views : StrMap W) (order : List String)
      → 0 < capacity
      → Distinct order
      → SameNames order views
      → Evicted capacity views
          (evict_loop capacity views order).0
          order
          (evict_loop capacity views order).1
  unfolding evict_loop contains
  evict_loop-Evicted capacity views [] l d s = record {
    gone = [];
    front = refl;
    kept = λ k. refl;
    distinct = tt;
    names = s;
    room = ground (arith, length-no_names views s);
    needed = inl refl;
  }
  evict_loop-Evicted capacity views (o ∷ os) l (d, ds) s =
      elim (Bool-cases (leb capacity (length views))) [
        | inr e ↦ rw e (record {
          gone = [];
          front = refl;
          kept = λ k. refl;
          distinct = (d, ds);
          names = s;
          room = ground arith;
          needed = inl refl;
        })
        | inl e ↦
            let w =
              evict_loop-Evicted capacity (remove views o) os l ds
                (SameNames-remove views o os (d, ds) s) in
            rw e (record {
              gone = o ∷ w.gone;
              front = let f = w.front in ground arith;
              kept = λ k. let f = w.kept k in ground (arith, get-remove views o k);
              distinct = w.distinct;
              names = w.names;
              room = w.room;
              needed = inr (ground arith);
            })
      ]

  length-remove_present :
      (m : StrMap W) (k : String) → contains_key m k ≡ true → suc (length (remove m k)) ≤ length m
  unfolding remove contains_key get
  length-remove_present [] k h = absurd (ground arith)
  length-remove_present ((j, v) ∷ m) k h =
      ground (arith, length-remove m k, length-remove_present m k)

  evicted :
      (c : ViewCache W)
      → IsValid c
      → Evicted c.capacity c.views
          (evict_loop c.capacity c.views c.order).0
          c.order
          (evict_loop c.capacity c.views c.order).1
  evicted c h = evict_loop-Evicted c.capacity c.views c.order h.room h.distinct h.names

  -- After an insertion into a valid cache it holds at most as many views as it has room for, and its
  -- order lists the names of its views, each once.
  pub insert_view-IsValid :
      (c : ViewCache W) (name : String) (view : W) → IsValid c → IsValid (insert_view c name view)
  unfolding insert_view evict_if_needed contains_key insert
  insert_view-IsValid c name view h = elim (Bool-cases (contains_key c.views name)) [
    | inl e ↦
        let b = h.bounded in
        rw e (record {
          room = h.room;
          distinct = Distinct-touch c.order name h.distinct;
          names = λ k. ground (
            arith,
            contains-touch c.order name k h.distinct,
            h.names k,
            get-insert c.views name view k,
            eq_iff name k,
          );
          bounded = omega (arith, length-remove_present c.views name e);
        })
    | inr e ↦
        let w = evicted c h in
        let r = w.room in
        let (vs, os) = evict_loop c.capacity c.views c.order in
        rw e (record {
          room = h.room;
          distinct = Distinct-push os name w.distinct (ground (arith, w.names name, w.kept name));
          names = λ k.
              ground
                (arith, contains-append os (name ∷ []) k, w.names k, get-insert vs name view k);
          bounded = omega (arith, length-remove vs name);
        })
  ]

  -- A view of a new name is inserted after some of the oldest views are evicted, none if there is
  -- room; every other view stays as it is, and the new name is the most recently used.
  pub insert_view-evicts :
      (c : ViewCache W) (name : String) (view : W)
      → IsValid c
      → contains_key c.views name ≡ false
      → (gone rest : List String) × (c.order ≡ gone ++ rest)
        × ((insert_view c name view).order ≡ rest ++ name ∷ [])
        × ((gone ≡ []) ⊎ (c.capacity ≤ length c.views))
        × ((k : String)
            → get (insert_view c name view).views k ≡ (
                if text_eq name k
                then some view
                else if contains gone k
                then none
                else get c.views k))
  unfolding insert_view evict_if_needed
  insert_view-evicts c name view h e =
      let w = evicted c h in
      let (vs, os) = evict_loop c.capacity c.views c.order in
      (
        w.gone,
        os,
        w.front,
        ground arith,
        w.needed,
        λ k. ground (arith, w.kept k, get-insert vs name view k),
      )
