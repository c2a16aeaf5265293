-- ===== src/Index/FullText/Delta.antt =====
-- A delta of a full-text segment (`apply_delta` of src/index/fts.rs).
use openpuffer.Base.{suc, ◌+◌, ◌≤◌, ◌<◌, refl, String, List, [], ◌∷◌, arith}
use openpuffer.Base.Logic.{text_eq_refl}
use openpuffer.Base.Lists.{length}
use openpuffer.Base.Maps.{insert, remove, get-insert, get-remove}
use openpuffer.Wal.Entry.{Document, Docs}
use openpuffer.Wal.Apply.{delete_all}
use openpuffer.Json.{Value}
use openpuffer.Index.Indexed.{put_documents}
use openpuffer.Index.FullText.Tokens.{TextOps, FtsTokenizeOptions}
use openpuffer.Index.FullText.Segment.{
  u32_size, FtsSegment, remove_text, remove_texts, doc_tokens, add_tokens, add_text, replace_texts,
  apply_text_delta,
}
use openpuffer.Index.FullText.Exact.{
  TextIndexes, TextIndexes-same, remove_text-TextIndexes, add_tokens-TextIndexes,
}

module _ {N : Type 0} (print : Value N → String) (ops : TextOps) (opts : FtsTokenizeOptions) where
  remove_texts-TextIndexes :
      (docs : Docs (Value N)) (seg : FtsSegment) (ids : List String)
      → TextIndexes print ops opts docs seg
      → TextIndexes print ops opts (delete_all docs ids) (remove_texts seg ids)
  unfolding remove_texts delete_all
  remove_texts-TextIndexes docs seg [] i = i
  remove_texts-TextIndexes docs seg (id ∷ ids) i =
      remove_texts-TextIndexes (remove docs id) (remove_text seg id) ids
        (remove_text-TextIndexes print ops opts docs seg id i)

  num_docs-remove_text :
      (seg : FtsSegment) (id : String) → (remove_text seg id).num_docs ≤ seg.num_docs
  unfolding remove_text
  num_docs-remove_text seg id = ground arith

  num_docs-remove_texts :
      (seg : FtsSegment) (ids : List String) → (remove_texts seg ids).num_docs ≤ seg.num_docs
  unfolding remove_texts
  num_docs-remove_texts seg [] = omega arith
  num_docs-remove_texts seg (id ∷ ids) =
      omega (arith, num_docs-remove_texts (remove_text seg id) ids, num_docs-remove_text seg id)

  num_docs-add_tokens :
      (seg : FtsSegment) (id : String) (tokens : List String)
      → (add_tokens print ops opts seg id tokens).num_docs ≤ suc seg.num_docs
  num_docs-add_tokens seg id [] = omega arith
  num_docs-add_tokens seg id (t ∷ ts) = omega arith

  replace_text-TextIndexes :
      (docs : Docs (Value N)) (seg : FtsSegment) (id : String) (doc : Document (Value N))
      → suc seg.num_docs < u32_size
      → TextIndexes print ops opts docs seg
      → TextIndexes print ops opts
          (insert docs id doc)
          (add_text print ops opts (remove_text seg id) id doc)
  unfolding add_text
  replace_text-TextIndexes docs seg id doc small i =
      let seg' = remove_text seg id in
      TextIndexes-same print ops opts (insert (remove docs id) id doc) (insert docs id doc)
        (add_text print ops opts seg' id doc)
        (λ k. ground (
          arith,
          get-insert docs id doc k,
          get-insert (remove docs id) id doc k,
          get-remove docs id k,
        ))
        (add_tokens-TextIndexes print ops opts (remove docs id) seg' id doc
          (doc_tokens print ops opts seg'.field doc) refl
          (ground (arith, get-remove docs id id, text_eq_refl id))
          (omega (arith, num_docs-remove_text seg id))
          (remove_text-TextIndexes print ops opts docs seg id i))

  replace_texts-TextIndexes :
      (docs : Docs (Value N)) (seg : FtsSegment) (rows : List (String × Document (Value N)))
      → seg.num_docs + length rows < u32_size
      → TextIndexes print ops opts docs seg
      → TextIndexes print ops opts (put_documents docs rows) (replace_texts print ops opts seg rows)
  unfolding replace_texts put_documents add_text
  replace_texts-TextIndexes docs seg [] small i = i
  replace_texts-TextIndexes docs seg ((id, doc) ∷ rows) small i =
      let seg' = remove_text seg id in
      replace_texts-TextIndexes (insert docs id doc) (add_text print ops opts seg' id doc) rows
        (omega (
          arith,
          num_docs-remove_text seg id,
          num_docs-add_tokens seg' id (doc_tokens print ops opts seg'.field doc),
        ))
        (replace_text-TextIndexes docs seg id doc (omega arith) i)

  -- A delta turns the full-text segment of some documents into that of those with the deleted ids removed
  -- and then the rows put in, with the number of documents and the sum of their lengths exact, where the
  -- documents and the rows together are fewer than 2^32.
  pub apply_text_delta-TextIndexes :
      (docs : Docs (Value N)) (seg : FtsSegment) (upserts : List (String × Document (Value N)))
      (deletes : List String)
      → seg.num_docs + length upserts < u32_size
      → TextIndexes print ops opts docs seg
      → TextIndexes print ops opts
          (put_documents (delete_all docs deletes) upserts)
          (apply_text_delta print ops opts seg upserts deletes)
  unfolding apply_text_delta
  apply_text_delta-TextIndexes docs seg upserts deletes small i =
      replace_texts-TextIndexes (delete_all docs deletes) (remove_texts seg deletes) upserts
        (omega (arith, num_docs-remove_texts seg deletes))
        (remove_texts-TextIndexes docs seg deletes i)
