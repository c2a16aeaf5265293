-- ===== src/Storage/Writes.antt =====
-- `write_documents` of src/storage.rs up to the buffer: rows by filter, conditions, and statistics.
use openpuffer.Base.{
  ℕ, String, Option, none, some, List, [], ◌∷◌, ◌++◌, Bool, true, false, ◌||◌, ◌&&◌, text_eq,
}
use openpuffer.Base.Logic.{ok, ◌>>=◌, if◌then◌else◌}
use openpuffer.Base.Lists.{length, is_empty}
use openpuffer.Base.Maps.{StrMap, get, extend, contains, is_some}
use openpuffer.Error.{Result}
use openpuffer.Wal.Entry.{Document, Docs}
use openpuffer.Wal.Codec.{Codec}
use openpuffer.Wal.Apply.{from_write, apply_entry}
use openpuffer.Json
use openpuffer.Json.{Value}
use openpuffer.Filter.Syntax.{Numbers}
use openpuffer.Filter.Parse.{parse_filter}
use openpuffer.Filter.Eval.{should_apply_upsert, should_apply_patch, should_apply_delete}
use openpuffer.Limits.{cap_filter_batch}
use openpuffer.Index.Values.{Printing}
use openpuffer.Index.Postings.{extend_ids}
use openpuffer.Search.Candidates.{QueryContext, matching_doc_ids_for_filter}
use openpuffer.Buffer.State.{WriteStats, BufferState}

-- `for id in capped { if !deletes.contains(&id) { deletes.push(id); } }`
unfoldable pub add_deletes : List String → List String → List String
unfolding contains
add_deletes deletes [] = deletes
add_deletes deletes (id ∷ ids) =
    add_deletes (if contains deletes id then deletes else deletes ++ id ∷ []) ids

-- `iter().filter(keep).collect()`
unfoldable pub keep_rows : {A : Type 0} → (A → Bool) → List A → List A
keep_rows keep [] = []
keep_rows keep (x ∷ xs) = let rest = keep_rows keep xs in if keep x then x ∷ rest else rest

module _ {V : Type 0} where
  -- One id of a patch by filter: the attributes go to the first patch of the id, or to a new one.
  unfoldable pub add_patch : StrMap V → List (Document V) → String → List (Document V)
  unfolding extend
  add_patch attrs [] id = record { id = id; attributes = attrs } ∷ []
  add_patch attrs (p ∷ ps) id =
      let rest = add_patch attrs ps id in
      if text_eq p.id id then record p { attributes = extend p.attributes attrs } ∷ ps else p ∷ rest

  unfoldable pub add_patches : StrMap V → List (Document V) → List String → List (Document V)
  unfolding add_patch
  add_patches attrs patches [] = patches
  add_patches attrs patches (id ∷ ids) = add_patches attrs (add_patch attrs patches id) ids

  abbrev pub row_ids : List (Document V) → List String
  row_ids [] = []
  row_ids (d ∷ ds) = d.id ∷ row_ids ds

-- `condition.filter(|v| !v.is_null())`
abbrev pub unless_null : {N : Type 0} → Option (Value N) → Option (Value N)
unless_null (some Json.null) = none
unless_null o = o

module _ {S V : Type 0} (c : Codec V) where
  -- The rows that wait in the buffer, on top of the committed documents.
  unfoldable pub overlay_pending_writes : Option (BufferState S V) → Docs V → Result (Docs V)
  unfolding from_write apply_entry
  overlay_pending_writes none docs = ok docs
  overlay_pending_writes (some st) docs =
      if is_empty st.upserts && is_empty st.patches && is_empty st.deletes
      then ok docs
      else (from_write c st.upserts st.patches st.deletes >>= λ entry.
          let (r, docs') = apply_entry c docs entry in r >>= λ _. ok docs')

  -- The documents of conditions: whether the namespace exists, its snapshot, and its buffer.
  unfoldable pub condition_docs :
      Result Bool → Result (Docs V) → Option (BufferState S V) → Result (Docs V)
  unfolding overlay_pending_writes
  condition_docs exists snapshot buffer = exists >>= λ found.
      if found then (snapshot >>= λ docs. overlay_pending_writes buffer docs) else ok []

-- The rows of a request.
pub record Rows (V : Type 0) : Type 0 where
  pub upserts : List (Document V)
  pub patches : List (Document V)
  pub deletes : List String

-- The arguments of `write_documents` that decide its rows.
pub record WriteRequest (N : Type 0) : Type 0 where
  pub rows : Rows (Value N)
  pub delete_by_filter : Option (Value N)
  pub delete_by_filter_allow_partial : Bool
  pub patch_by_filter : Option (Value N × StrMap (Value N))
  pub patch_by_filter_allow_partial : Bool
  pub upsert_condition : Option (Value N)
  pub patch_condition : Option (Value N)
  pub delete_condition : Option (Value N)
  pub return_affected_ids : Bool

-- What the code reads of the namespace: it is loaded once for each filter, and for the conditions.
pub record Reads (N : Type 0) : Type 0 where
  pub delete_context : Result (QueryContext (Value N))
  pub patch_context : Result (QueryContext (Value N))
  pub condition_docs : Result (Docs (Value N))

module _ {N F : Type 0} (num : Numbers N F) (pr : Printing F) where
  -- The ids of a set as a list: each stands there once, in an order that the code does not fix.
  unfoldable pub resolve_ids_for_filter :
      Result (QueryContext (Value N)) → Value N → Result (List String)
  unfolding parse_filter matching_doc_ids_for_filter extend_ids
  resolve_ids_for_filter loaded filter_val = parse_filter num filter_val >>= λ expr.
      loaded >>= λ ctx. ok (extend_ids [] (matching_doc_ids_for_filter num pr ctx expr))

  -- The ids of a filter, as many as are allowed, and whether there are more.
  unfoldable pub capped_ids :
      Result (QueryContext (Value N)) → Value N → Bool → ℕ → Result (List String × Bool)
  unfolding resolve_ids_for_filter cap_filter_batch
  capped_ids loaded filter_val allow_partial max_filter =
      resolve_ids_for_filter loaded filter_val >>= λ ids.
      cap_filter_batch ids allow_partial max_filter

  unfoldable pub with_filter_deletes :
      Reads N → ℕ → Option (Value N) → Bool → List String → Result (List String × Bool)
  unfolding capped_ids add_deletes
  with_filter_deletes reads max_filter none allow deletes = ok (deletes, false)
  with_filter_deletes reads max_filter (some filter_val) allow deletes =
      capped_ids reads.delete_context filter_val allow max_filter >>= λ capped.
      ok (add_deletes deletes capped.0, capped.1)

  unfoldable pub with_filter_patches :
      Reads N
      → ℕ
      → Option (Value N × StrMap (Value N))
      → Bool
      → List (Document (Value N))
      → Result (List (Document (Value N)) × Bool)
  unfolding capped_ids add_patches
  with_filter_patches reads max_filter none allow patches = ok (patches, false)
  with_filter_patches reads max_filter (some (filter_val, attrs)) allow patches =
      capped_ids reads.patch_context filter_val allow max_filter >>= λ capped.
      ok (add_patches attrs patches capped.0, capped.1)

  abbrev pub kept_upserts :
      Option (Value N)
      → Docs (Value N)
      → List (Document (Value N))
      → Result (List (Document (Value N)))
  kept_upserts none docs rows = ok rows
  kept_upserts (some cond) docs rows = parse_filter num cond >>= λ expr.
      ok (keep_rows (λ d. should_apply_upsert num expr (get docs d.id) d) rows)

  abbrev pub kept_patches :
      Option (Value N)
      → Docs (Value N)
      → List (Document (Value N))
      → Result (List (Document (Value N)))
  kept_patches none docs rows = ok rows
  kept_patches (some cond) docs rows = parse_filter num cond >>= λ expr.
      ok (keep_rows (λ d. should_apply_patch num expr (get docs d.id) d) rows)

  abbrev pub kept_deletes : Option (Value N) → Docs (Value N) → List String → Result (List String)
  kept_deletes none docs ids = ok ids
  kept_deletes (some cond) docs ids = parse_filter num cond >>= λ expr.
      ok (keep_rows (λ id. should_apply_delete num expr (get docs id)) ids)

  -- The documents are read only where there is a condition.
  unfoldable pub apply_write_conditions :
      Reads N
      → Rows (Value N)
      → Option (Value N)
      → Option (Value N)
      → Option (Value N)
      → Result (Rows (Value N))
  unfolding keep_rows parse_filter should_apply_upsert should_apply_patch should_apply_delete get
  apply_write_conditions reads rows upsert_condition patch_condition delete_condition =
      let uc = unless_null upsert_condition in
      let pc = unless_null patch_condition in
      let dc = unless_null delete_condition in
      if is_some uc || is_some pc || is_some dc
      then (reads.condition_docs >>= λ docs. kept_upserts uc docs rows.upserts >>= λ upserts.
          kept_patches pc docs rows.patches >>= λ patches.
          kept_deletes dc docs rows.deletes >>= λ deletes.
          ok (record { upserts = upserts; patches = patches; deletes = deletes }))
      else ok rows

  abbrev pub write_stats : Rows (Value N) → Bool → Bool → WriteStats
  write_stats rows return_affected_ids rows_remaining = record {
    rows_upserted = length rows.upserts;
    rows_patched = length rows.patches;
    rows_deleted = length rows.deletes;
    upserted_ids = if return_affected_ids then some (row_ids rows.upserts) else none;
    deleted_ids = if return_affected_ids then some rows.deletes else none;
    rows_remaining = if rows_remaining then some true else none;
  }

  -- What `write_documents` hands to the buffer.
  unfoldable pub prepare_write : ℕ → Reads N → WriteRequest N → Result (Rows (Value N) × WriteStats)
  unfolding with_filter_deletes with_filter_patches apply_write_conditions
  prepare_write max_filter reads w =
      with_filter_deletes reads max_filter (unless_null w.delete_by_filter)
        w.delete_by_filter_allow_partial w.rows.deletes
      >>= λ ds.
          with_filter_patches reads max_filter w.patch_by_filter w.patch_by_filter_allow_partial
            w.rows.patches
          >>= λ ps.
              apply_write_conditions reads
                (record { upserts = w.rows.upserts; patches = ps.0; deletes = ds.0 })
                w.upsert_condition w.patch_condition w.delete_condition
              >>= λ rows. ok (rows, write_stats rows w.return_affected_ids (ds.1 || ps.1))
