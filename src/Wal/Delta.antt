-- ===== src/Wal/Delta.antt =====
-- `collect_index_delta` of src/wal.rs: the rows that the index has to take over from a run of log
-- entries.
pub mod Exact
use openpuffer.Base.{String, Option, none, some, List, [], ◌∷◌, ◌++◌, map}
use openpuffer.Base.Logic.{ok, err, ◌>>=◌}
use openpuffer.Base.Maps.{StrMap, get, insert}
use openpuffer.Error.{Result}
use openpuffer.Wal.Entry.{Document, Docs, WalUpsert, WalPatch, WalEntry}
use openpuffer.Wal.Codec.{Codec}
use openpuffer.Wal.Apply.{apply_entry}

abbrev pub upsert_ids : List WalUpsert → List String
upsert_ids [] = []
upsert_ids (u ∷ us) = u.id ∷ upsert_ids us

abbrev pub patch_ids : List WalPatch → List String
patch_ids [] = []
patch_ids (p ∷ ps) = p.id ∷ patch_ids ps

-- What the loop keeps: the documents, the collected rows, and the deleted ids.
pub record Collected (V : Type 0) : Type 0 where
  pub baseline : Docs V
  pub upsert_map : Docs V
  pub deletes : List String

module _ {V : Type 0} where
  -- `if let Some(doc) = baseline.get(&id) { upsert_map.insert(id, doc.clone()); }`
  unfoldable pub note_id : Docs V → Docs V → String → Docs V
  note_id baseline upsert_map id = elim (get baseline id) [
    | none ↦ upsert_map
    | some doc ↦ insert upsert_map id doc
  ]

  unfoldable pub note_ids : Docs V → Docs V → List String → Docs V
  note_ids baseline upsert_map [] = upsert_map
  note_ids baseline upsert_map (id ∷ ids) = note_ids baseline (note_id baseline upsert_map id) ids

  abbrev pub note_entry : Collected V → WalEntry → Docs V → Collected V
  note_entry s entry docs = record {
    baseline = docs;
    upsert_map = note_ids docs s.upsert_map (upsert_ids entry.upserts ++ patch_ids entry.patches);
    deletes = s.deletes ++ entry.deletes;
  }

  -- The rest of a round, once the entry is applied to the documents.
  unfoldable pub collect_after :
      Collected V → WalEntry → Result (Unit {0}) × Docs V → Result (Collected V)
  collect_after s entry (err e, docs) = err e
  collect_after s entry (ok _, docs) = ok (note_entry s entry docs)

module _ {V : Type 0} (c : Codec V) where
  -- One round of the loop over the entries.
  unfoldable pub collect_entry : Collected V → WalEntry → Result (Collected V)
  unfolding collect_after
  collect_entry s entry = collect_after s entry (apply_entry c s.baseline entry)

  unfoldable pub collect_from : Collected V → List WalEntry → Result (Collected V)
  collect_from s [] = ok s
  collect_from s (e ∷ es) = collect_entry s e >>= λ s'. collect_from s' es

  -- The collected rows, the deleted ids, and the documents after the entries.
  unfoldable pub collect_index_delta : Docs V → List WalEntry → Result (Collected V)
  unfolding collect_from
  collect_index_delta baseline entries =
      collect_from (record { baseline = baseline; upsert_map = []; deletes = [] }) entries
