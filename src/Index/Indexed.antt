-- ===== src/Index/Indexed.antt =====
-- A filter segment (src/index/filter.rs) that holds exactly some documents, and its deltas.
use openpuffer.Base.{
  String, ◌≡◌, refl, sym, Option, none, some, Bool, false, ◌||◌, ◌&&◌, List, [], ◌∷◌, arith,
  text_eq, eq_iff, inl, inr,
}
use openpuffer.Base.Logic.{if◌then◌else◌, Bool-cases, Option-cases}
use openpuffer.Base.Lists.{is_empty}
use openpuffer.Base.Maps.{
  StrMap, SameMap, is_some, get, keys, insert, remove, contains, get-insert, get-remove,
}
use openpuffer.Wal.Entry.{Document, Docs}
use openpuffer.Wal.Apply.{delete_all}
use openpuffer.Json.{Value}
use openpuffer.Filter.Syntax.{Numbers}
use openpuffer.Schema.Specs.{filter_fields_from_schema}
use openpuffer.Index.Values.{Printing}
use openpuffer.Index.Postings.{
  Postings, posting, add_posting, contains-add_id, contains-remove_id, posting-add_posting,
  posting-remove_posting,
}
use openpuffer.Index.FilterSegment.{
  FilterSegment, remove_document, field_key, add_fields, add_document, remove_documents,
  replace_documents, apply_delta,
}

-- The key is the given one.
abbrev pub is_key : Option String → String → Bool
is_key none vk = false
is_key (some k) vk = text_eq k vk

pub contains-keys :
    {V : Type 0} (m : StrMap V) (k : String) → contains (keys m) k ≡ is_some (get m k)
unfolding contains get
contains-keys [] k = refl
contains-keys ((j, v) ∷ m) k = ground (arith, contains-keys m k)

-- The documents after rows that replace what their ids held.
unfoldable pub put_documents : {V : Type 0} → Docs V → List (String × Document V) → Docs V
unfolding insert
put_documents docs [] = docs
put_documents docs ((id, doc) ∷ rows) = put_documents (insert docs id doc) rows

module _ {N F : Type 0} (num : Numbers N F) (pr : Printing F) where
  -- A document is to be posted under a field and a key; no fields means that all are indexed.
  abbrev pub has_key : List String → Option (Document (Value N)) → String → String → Bool
  has_key fields none field vk = false
  has_key fields (some doc) field vk =
      (is_empty fields || contains fields field) && is_key (field_key num pr doc field) vk

  -- The segment lists exactly the documents, each under its keys.
  pub record Indexes (fields : List String) (docs : Docs (Value N)) (seg : FilterSegment)
      : Type 0 where
    pub ids : (k : String) → contains seg.all_doc_ids k ≡ is_some (get docs k)
    pub posted :
        (field vk k : String)
        → contains (posting seg.postings field vk) k ≡ has_key fields (get docs k) field vk

  posting-add_fields :
      (ps : Postings) (id : String) (doc : Document (Value N)) (fields : List String)
      (f vk k : String)
      → contains (posting (add_fields num pr ps id doc fields) f vk) k ≡ (
          contains (posting ps f vk) k
          || text_eq id k && contains fields f && is_key (field_key num pr doc f) vk)
  unfolding add_fields contains
  posting-add_fields ps id doc [] f vk k = ground arith
  posting-add_fields ps id doc (field ∷ fields) f vk k =
      elim (Option-cases (field_key num pr doc field)) [
        | inl e ↦ ground (arith, posting-add_fields ps id doc fields f vk k, eq_iff field f)
        | inr (key, e) ↦ ground (
          arith,
          posting-add_fields (add_posting ps field key id) id doc fields f vk k,
          posting-add_posting ps field key id f vk,
          contains-add_id (posting ps f vk) id k,
          eq_iff field f,
          eq_iff key vk,
        )
      ]

  Indexes-same :
      (fields : List String) (docs other : Docs (Value N)) (seg : FilterSegment)
      → SameMap docs other
      → Indexes fields docs seg
      → Indexes fields other seg
  Indexes-same fields docs other seg same i = record {
    ids = λ k. rw (sym (same k)) (i.ids k);
    posted = λ f vk k. rw (sym (same k)) (i.posted f vk k);
  }

  remove_document-Indexes :
      (fields : List String) (docs : Docs (Value N)) (seg : FilterSegment) (id : String)
      → Indexes fields docs seg
      → Indexes fields (remove docs id) (remove_document seg id)
  unfolding remove_document
  remove_document-Indexes fields docs seg id i = elim (Bool-cases (contains seg.all_doc_ids id)) [
    | inl e ↦ rw e (record {
      ids = λ k.
          ground (arith, get-remove docs id k, contains-remove_id seg.all_doc_ids id k, i.ids k);
      posted = λ f vk k. ground (
        arith,
        get-remove docs id k,
        posting-remove_posting seg.postings id f vk,
        contains-remove_id (posting seg.postings f vk) id k,
        i.posted f vk k,
      );
    })
    | inr e ↦ rw e (
        Indexes-same fields docs (remove docs id) seg
          (λ k. ground (arith, get-remove docs id k, i.ids id, eq_iff id k)) i)
  ]

  add_document-Indexes :
      (fields : List String) (docs : Docs (Value N)) (seg : FilterSegment) (id : String)
      (doc : Document (Value N))
      → get docs id ≡ none
      → Indexes fields docs seg
      → Indexes fields (insert docs id doc) (add_document num pr seg id doc fields)
  unfolding add_document
  add_document-Indexes fields docs seg id doc absent i = record {
    ids = λ k.
        ground (arith, get-insert docs id doc k, contains-add_id seg.all_doc_ids id k, i.ids k);
    posted = λ f vk k. ground (
      arith,
      posting-add_fields seg.postings id doc
          (if is_empty fields then keys doc.attributes else fields) f vk k,
      contains-keys doc.attributes f,
      get-insert docs id doc k,
      i.posted f vk k,
      eq_iff id k,
    );
  }

  remove_documents-Indexes :
      (fields : List String) (docs : Docs (Value N)) (seg : FilterSegment) (ids : List String)
      → Indexes fields docs seg
      → Indexes fields (delete_all docs ids) (remove_documents num pr seg ids)
  unfolding remove_documents delete_all
  remove_documents-Indexes fields docs seg [] i = i
  remove_documents-Indexes fields docs seg (id ∷ ids) i =
      remove_documents-Indexes fields (remove docs id) (remove_document seg id) ids
        (remove_document-Indexes fields docs seg id i)

  replace_document-Indexes :
      (fields : List String) (docs : Docs (Value N)) (seg : FilterSegment) (id : String)
      (doc : Document (Value N))
      → Indexes fields docs seg
      → Indexes fields
          (insert docs id doc)
          (add_document num pr (remove_document seg id) id doc fields)
  replace_document-Indexes fields docs seg id doc i =
      Indexes-same fields (insert (remove docs id) id doc) (insert docs id doc)
        (add_document num pr (remove_document seg id) id doc fields)
        (λ k. ground (
          arith,
          get-insert docs id doc k,
          get-insert (remove docs id) id doc k,
          get-remove docs id k,
        ))
        (add_document-Indexes fields (remove docs id) (remove_document seg id) id doc
          (ground (arith, get-remove docs id id, eq_iff id id))
          (remove_document-Indexes fields docs seg id i))

  replace_documents-Indexes :
      (fields : List String) (docs : Docs (Value N)) (seg : FilterSegment)
      (rows : List (String × Document (Value N)))
      → Indexes fields docs seg
      → Indexes fields (put_documents docs rows) (replace_documents num pr seg rows fields)
  unfolding replace_documents put_documents
  replace_documents-Indexes fields docs seg [] i = i
  replace_documents-Indexes fields docs seg ((id, doc) ∷ rows) i =
      replace_documents-Indexes fields (insert docs id doc)
        (add_document num pr (remove_document seg id) id doc fields) rows
        (replace_document-Indexes fields docs seg id doc i)

  -- A delta turns the segment of some documents into the segment of those with the deleted ids removed
  -- and then the rows put in.
  pub apply_delta-Indexes :
      (docs : Docs (Value N)) (seg : FilterSegment) (schema : Value N)
      (upserts : List (String × Document (Value N))) (deletes : List String)
      → Indexes (filter_fields_from_schema schema) docs seg
      → Indexes
          (filter_fields_from_schema schema)
          (put_documents (delete_all docs deletes) upserts)
          (apply_delta num pr seg schema upserts deletes)
  unfolding apply_delta
  apply_delta-Indexes docs seg schema upserts deletes i =
      let fields = filter_fields_from_schema schema in
      replace_documents-Indexes fields (delete_all docs deletes)
        (remove_documents num pr seg deletes) upserts
        (remove_documents-Indexes fields docs seg deletes i)
