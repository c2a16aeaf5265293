-- ===== src/Storage/ByFilter.antt =====
-- A delete by filter (src/storage.rs, `write_documents`) removes the documents on which the filter holds.
use openpuffer.Base.{
  ℕ, String, ◌≡◌, ◌∙◌, refl, none, some, List, [], ◌∷◌, ◌++◌, Bool, false, ◌||◌, arith, inl, inr,
  eq_iff,
}
use openpuffer.Base.Logic.{ok, if◌then◌else◌, Bool-cases, Result-cases}
use openpuffer.Base.Maps.{get, contains, contains-append}
use openpuffer.Wal.Entry.{Document, Docs, WalEntry}
use openpuffer.Wal.Apply.{apply_rows}
use openpuffer.Wal.Effect.{get-apply_rows}
use openpuffer.Wal.Batching.{has_row}
use openpuffer.Wal.Delta.Exact.{row_effect_untouched}
use openpuffer.Json
use openpuffer.Json.{Value}
use openpuffer.Filter.Syntax.{Numbers, FilterExpr}
use openpuffer.Filter.Parse.{parse_filter}
use openpuffer.Limits.{cap_filter_batch}
use openpuffer.Index.Values.{Printing}
use openpuffer.Index.Postings.{extend_ids, contains-extend_ids}
use openpuffer.Index.Matching.Exact.{holds_at, Fits}
use openpuffer.Search.Candidates.{
  QueryContext, strong, matching_doc_ids_for_filter, matching_doc_ids_for_filter_strong,
}
use openpuffer.Search.Tail.{wal_touched_doc_ids, apply_entries}
use openpuffer.Index.Indexed.{Indexes}
use openpuffer.Index.FilterSegment.{FilterSegment}
use openpuffer.Wal.Codec.{Codec}
use openpuffer.Buffer.State.{WriteStats}
use openpuffer.Storage.Writes.{add_deletes, unless_null, Rows, WriteRequest, Reads, prepare_write}

contains-add_deletes :
    (deletes ids : List String) (k : String)
    → contains (add_deletes deletes ids) k ≡ (contains deletes k || contains ids k)
unfolding add_deletes contains
contains-add_deletes deletes [] k = ground arith
contains-add_deletes deletes (id ∷ ids) k = elim (Bool-cases (contains deletes id)) [
  | inl e ↦ rw e (ground (arith, contains-add_deletes deletes ids k, eq_iff id k))
  | inr e ↦ rw e (
      ground (
        arith,
        contains-add_deletes (deletes ++ id ∷ []) ids k,
        contains-append deletes (id ∷ []) k,
      ))
]

contains-collected :
    (ids : List String) (k : String) → contains (extend_ids [] ids) k ≡ contains ids k
unfolding contains
contains-collected ids k = contains-extend_ids [] ids k ∙ ground arith

cap_whole :
    (ids kept : List String) (more : Bool) (max_rows : ℕ)
    → cap_filter_batch ids false max_rows ≡ ok (kept, more)
    → kept ≡ ids
unfolding cap_filter_batch
cap_whole ids kept more max_rows h = ground arith

module _ {N F : Type 0} (num : Numbers N F) (pr : Printing F) where
  -- A request with rows and a delete by filter, which is refused where too many documents match it.
  abbrev pub deletes_by : Value N → Rows (Value N) → WriteRequest N
  deletes_by filter_val rows = record {
    rows = rows;
    delete_by_filter = some filter_val;
    delete_by_filter_allow_partial = false;
    patch_by_filter = none;
    patch_by_filter_allow_partial = false;
    upsert_condition = none;
    patch_condition = none;
    delete_condition = none;
    return_affected_ids = false;
  }

  parsed_not_null :
      (v : Value N) (e : FilterExpr F) → parse_filter num v ≡ ok e → unless_null (some v) ≡ some v
  unfolding parse_filter
  parsed_not_null Json.null e h = absurd (ground arith)
  parsed_not_null (Json.bool b) e h = refl
  parsed_not_null (Json.number n) e h = refl
  parsed_not_null (Json.string s) e h = refl
  parsed_not_null (Json.array vs) e h = refl
  parsed_not_null (Json.object m) e h = refl

  -- The rows that are written: those of the request, and the ids of the filter among the deletes.
  record Written (rows rows' : Rows (Value N)) (ids : List String) : Type 0 where
    upserts : rows'.upserts ≡ rows.upserts
    patches : rows'.patches ≡ rows.patches
    deletes : rows'.deletes ≡ add_deletes rows.deletes ids

  deletes_by-Written :
      (max_filter : ℕ) (reads : Reads N) (v : Value N) (rows rows' : Rows (Value N))
      (stats : WriteStats) (e : FilterExpr F) (ctx : QueryContext (Value N))
      → prepare_write num pr max_filter reads (deletes_by v rows) ≡ ok (rows', stats)
      → parse_filter num v ≡ ok e
      → reads.delete_context ≡ ok ctx
      → Written rows rows' (extend_ids [] (matching_doc_ids_for_filter num pr ctx e))
  unfolding prepare_write
  deletes_by-Written max_filter reads v rows rows' stats e ctx h p r =
      let ids = extend_ids [] (matching_doc_ids_for_filter num pr ctx e) in
      elim (Result-cases (cap_filter_batch ids false max_filter)) [
        | inr (x, c) ↦ absurd (ground (arith, parsed_not_null v e p))
        | inl ((kept, more), c) ↦
            ground (arith, parsed_not_null v e p, cap_whole ids kept more max_filter c)
      ]

  delete_by_filter_found :
      (max_filter : ℕ) (reads : Reads N) (v : Value N) (rows rows' : Rows (Value N))
      (stats : WriteStats) (e : FilterExpr F) (ctx : QueryContext (Value N)) (k : String)
      → prepare_write num pr max_filter reads (deletes_by v rows) ≡ ok (rows', stats)
      → parse_filter num v ≡ ok e
      → reads.delete_context ≡ ok ctx
      → contains (matching_doc_ids_for_filter num pr ctx e) k ≡ holds_at num pr e (get ctx.docs k)
      → has_row rows.upserts k ≡ false
      → has_row rows.patches k ≡ false
      → get (apply_rows ctx.docs rows'.deletes rows'.upserts rows'.patches) k ≡ (
          if contains rows.deletes k || holds_at num pr e (get ctx.docs k)
          then none
          else get ctx.docs k)
  delete_by_filter_found max_filter reads v rows rows' stats e ctx k h p r exact hu hp =
      let w = deletes_by-Written max_filter reads v rows rows' stats e ctx h p r in
      let ids = extend_ids [] (matching_doc_ids_for_filter num pr ctx e) in
      let all = add_deletes rows.deletes ids in
      rw
        (
          w.upserts,
          w.patches,
          w.deletes,
          get-apply_rows ctx.docs all rows.upserts rows.patches k,
          row_effect_untouched all rows.upserts rows.patches k (get ctx.docs k) hu hp,
          contains-add_deletes rows.deletes ids k,
          contains-collected (matching_doc_ids_for_filter num pr ctx e) k,
          exact,
        )
        refl

  -- What the segment and the tail of a query are to its documents: the segment holds the documents at the
  -- index cursor, the entries after it turned those into the documents of the query, and the tail has the
  -- ids of these entries, and maybe of earlier ones.
  pub record Loaded (c : Codec (Value N)) (fields : List String) (ctx : QueryContext (Value N))
      (seg : FilterSegment) (indexed : Docs (Value N)) (earlier entries : List WalEntry)
      : Type 0 where
    pub segment : ctx.filter_index ≡ some seg
    pub is_strong : ctx.consistency ≡ strong
    pub tail_ids : ctx.tail_doc_ids ≡ wal_touched_doc_ids (earlier ++ entries)
    pub holds : Indexes num pr fields indexed seg
    pub replayed : apply_entries c indexed entries ≡ ok ctx.docs

  -- A delete by filter that was accepted as a whole, with the rows of its request, over the filter segment
  -- and the rows written after it: each id that the request neither upserts nor patches is gone afterwards
  -- if the request deletes it or the filter holds of its document, and has the document that it had
  -- otherwise. Conditions: a float reads back from its printed form; and if the id is in the segment, each
  -- comparison of the filter has a field other than `id` that the segment indexes, compares with a string,
  -- a Boolean or a number that equals just the numbers printed like it (so neither 0 nor -0), not with null
  -- or a reference, and asks for no order of a number and a Boolean.
  pub delete_by_filter_removes :
      (c : Codec (Value N)) (max_filter : ℕ) (reads : Reads N) (v : Value N)
      (rows rows' : Rows (Value N)) (stats : WriteStats) (e : FilterExpr F)
      (ctx : QueryContext (Value N)) (fields : List String) (seg : FilterSegment)
      (indexed : Docs (Value N)) (earlier entries : List WalEntry) (k : String)
      → prepare_write num pr max_filter reads (deletes_by v rows) ≡ ok (rows', stats)
      → parse_filter num v ≡ ok e
      → reads.delete_context ≡ ok ctx
      → Loaded c fields ctx seg indexed earlier entries
      → ((x : F) → pr.parse_float (pr.print_float x) ≡ some x)
      → ((doc : Document (Value N)) → get indexed k ≡ some doc → Fits num pr fields doc e)
      → has_row rows.upserts k ≡ false
      → has_row rows.patches k ≡ false
      → get (apply_rows ctx.docs rows'.deletes rows'.upserts rows'.patches) k ≡ (
          if contains rows.deletes k || holds_at num pr e (get ctx.docs k)
          then none
          else get ctx.docs k)
  delete_by_filter_removes c max_filter reads v rows rows' stats e ctx fields seg indexed earlier
        entries k h p r l law fit hu hp =
      delete_by_filter_found max_filter reads v rows rows' stats e ctx k h p r
        (matching_doc_ids_for_filter_strong num pr c ctx e fields seg indexed earlier entries k
          l.segment l.is_strong l.tail_ids l.holds l.replayed law fit)
        hu hp
