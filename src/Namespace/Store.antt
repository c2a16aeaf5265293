-- ===== src/Namespace/Store.antt =====
-- The objects of one namespace: `meta.json` with its ETag, `wal/{seq}.bin`, and `wal/snapshot.bin`
-- (src/wal.rs). The store itself is not part of the program: an object is read as it was last written,
-- and a conditional put of `meta.json` succeeds exactly when its condition holds.
use openpuffer.Base.{ℕ, ◌+◌, Option, none, some, List, [], ◌∷◌, ◌++◌}
use openpuffer.Base.Logic.{ok, err, if◌then◌else◌, ◌==◌}
use openpuffer.Error.{Result, message}
use openpuffer.Wal.Entry.{Bytes, Document, Docs}
use openpuffer.Wal.Apply.{upsert_all}
use openpuffer.Meta.Types.{NamespaceMeta}

pub record WalSnapshot (V : Type 0) : Type 0 where
  pub seq : ℕ
  pub docs : List (Document V)

module _ {V : Type 0} where
  -- `docs.values().cloned().collect()`
  unfoldable pub values : Docs V → List (Document V)
  values [] = []
  values ((k, d) ∷ m) = values m ++ d ∷ []

  unfoldable pub from_docs : ℕ → Docs V → WalSnapshot V
  unfolding values
  from_docs seq docs = record { seq = seq; docs = values docs }

  -- `docs.into_iter().map(|d| (d.id.clone(), d)).collect()`
  unfoldable pub into_docs : WalSnapshot V → Docs V
  into_docs snap = upsert_all [] snap.docs

-- The objects of one namespace; `etag` is the number of puts of `meta.json` so far.
pub record Store (S V : Type 0) : Type 0 where
  pub meta : Option (NamespaceMeta S)
  pub etag : ℕ
  pub wal : ℕ → Option Bytes
  pub snapshot : Option (WalSnapshot V)

abbrev pub set_at : {A : Type 0} → (ℕ → A) → ℕ → A → ℕ → A
set_at f i a j = if i == j then a else f j

module _ {S V : Type 0} where
  -- `fetch_meta`: the metadata with its ETag, if the namespace has any.
  unfoldable pub fetch_meta : Store S V → Option (NamespaceMeta S × ℕ)
  fetch_meta s = elim s.meta [ none ↦ none | some m ↦ some (m, s.etag) ]

  unfoldable pub put_wal : Store S V → ℕ → Bytes → Store S V
  put_wal s seq body = record s { wal = set_at s.wal seq (some body) }

  unfoldable pub delete_wal : Store S V → ℕ → Store S V
  delete_wal s seq = record s { wal = set_at s.wal seq none }

  unfoldable pub delete_wals : Store S V → List ℕ → Store S V
  unfolding delete_wal
  delete_wals s [] = s
  delete_wals s (seq ∷ seqs) = delete_wals (delete_wal s seq) seqs

  unfoldable pub put_meta : Store S V → NamespaceMeta S → Store S V
  put_meta s m = record s { meta = some m; etag = s.etag + 1 }

  -- The put with `if_match(etag)`, or with `if_none_match("*")` where no metadata was found; `none` is
  -- `PreconditionFailed`.
  unfoldable pub cas_meta : Store S V → Option ℕ → NamespaceMeta S → Option (Store S V)
  unfolding put_meta
  cas_meta s none m = elim s.meta [ none ↦ some (put_meta s m) | some _ ↦ none ]
  cas_meta s (some etag) m = elim s.meta [
    | none ↦ none
    | some _ ↦ if s.etag == etag then some (put_meta s m) else none
  ]

  unfoldable pub read_wal_segment : Store S V → ℕ → Result Bytes
  read_wal_segment s seq = elim (s.wal seq) [
    | none ↦ err (message "object not found")
    | some bytes ↦ ok bytes
  ]
