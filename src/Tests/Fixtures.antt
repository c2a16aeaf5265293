-- ===== src/Tests/Fixtures.antt =====
-- Concrete instances of the packages and of the schema functions, and inputs for the tests.
use mathlib.Core.Option
use openpuffer.Base.{
  ℕ, ◌+◌, ◌%◌, ◌^◌, ◌≡◌, ap, ◌⊎◌, refl, String, Option, none, some, List, [], ◌∷◌, arith, inl, inr,
  text_eq,
}
use openpuffer.Base.Logic.{ok, if◌then◌else◌, ◌==◌, text_cases, Option-cases}
use openpuffer.Base.Lists.{length}
use openpuffer.Base.Maps.{StrMap}
use openpuffer.Wal.Entry.{Bytes, WalUpsert, WalPatch, WalEntry}
use openpuffer.Wal.Codec.{Codec, CodecLaws}
use openpuffer.Meta.Types.{SchemaOps, f32}

-- Attribute maps of at most one attribute, `n`, whose value is the one byte.
abbrev pub to_vec : StrMap ℕ → Option Bytes
to_vec [] = some []
to_vec ((k, v) ∷ []) = if text_eq k "n" then some (v ∷ []) else none
to_vec ((k, v) ∷ e ∷ m) = none

abbrev pub from_slice : Bytes → Option (StrMap ℕ)
from_slice [] = some []
from_slice (v ∷ []) = some (("n", v) ∷ [])
from_slice (v ∷ w ∷ b) = none

-- Entries that upsert the document `a` with one byte, or delete it.
abbrev pub upsert_entry : ℕ → WalEntry
upsert_entry v = record {
  upserts = record { id = "a"; attributes = v ∷ [] } ∷ [];
  patches = [];
  deletes = [];
}

-- The same for the document `b`; a test reads it, and none writes it.
abbrev pub upsert_other : ℕ → WalEntry
upsert_other v = record {
  upserts = record { id = "b"; attributes = v ∷ [] } ∷ [];
  patches = [];
  deletes = [];
}

abbrev pub delete_entry : WalEntry
delete_entry = record { upserts = []; patches = []; deletes = "a" ∷ [] }

abbrev pub upsert_bytes : ℕ → Bytes
upsert_bytes v =
    v ∷ 0 ∷ 0 ∷ 0 ∷ 0 ∷ 0 ∷ 0 ∷ 0 ∷ 0 ∷ 0 ∷ 0 ∷ 0 ∷ 0 ∷ 0 ∷ 0 ∷ 0 ∷ 0 ∷ 0 ∷ 0 ∷ 0 ∷ 0 ∷ 0 ∷ 0 ∷ 0
    ∷ []

abbrev pub delete_bytes : Bytes
delete_bytes = 0 ∷ upsert_bytes 0

abbrev pub single : Bytes → Option ℕ
single (v ∷ []) = some v
single _ = none

abbrev pub serialize_rows : List WalUpsert → List String → Option Bytes
serialize_rows (u ∷ []) [] =
    if text_eq u.id "a" then Option.map upsert_bytes (single u.attributes) else none
serialize_rows [] (d ∷ []) = if text_eq d "a" then some delete_bytes else none
serialize_rows _ _ = none

abbrev pub serialize : WalEntry → Option Bytes
serialize e = elim e.patches [ [] ↦ serialize_rows e.upserts e.deletes | p ∷ ps ↦ none ]

abbrev pub deserialize : Bytes → Option WalEntry
deserialize [] = none
deserialize (v ∷ b) =
    if length b == 23
    then some (upsert_entry v)
    else if length b == 24
    then some delete_entry
    else if length b == 25
    then some (upsert_other v)
    else none

abbrev pub sum : Bytes → ℕ
sum [] = 0
sum (b ∷ bs) = b + sum bs

abbrev pub test_codec : Codec ℕ
test_codec = record {
  to_vec = to_vec;
  from_slice = from_slice;
  serialize = serialize;
  deserialize = deserialize;
  crc32 = λ b. sum b % 2 ^ 32;
}

to_vec-from_slice : (a : StrMap ℕ) (b : Bytes) → to_vec a ≡ some b → from_slice b ≡ some a
to_vec-from_slice [] b h = ground arith
to_vec-from_slice ((k, v) ∷ []) b h = elim (text_cases k "n") [
  | inl e ↦ ground arith
  | inr e ↦ absurd (ground arith)
]
to_vec-from_slice ((k, v) ∷ e ∷ m) b h = absurd (ground arith)

single-eq : (b : Bytes) (v : ℕ) → single b ≡ some v → b ≡ v ∷ []
single-eq [] v h = absurd (ground arith)
single-eq (x ∷ []) v h = ground arith
single-eq (x ∷ y ∷ b) v h = absurd (ground arith)

-- The entries that can be encoded.
Encoded : List WalUpsert → List String → Bytes → Type 0
Encoded us ds b =
    ((v : ℕ) × (us ≡ record { id = "a"; attributes = v ∷ [] } ∷ [])
      × (ds ≡ [])
      × (b ≡ upsert_bytes v))
    ⊎ ((us ≡ []) × (ds ≡ "a" ∷ []) × (b ≡ delete_bytes))

serialize_rows-Encoded :
    (us : List WalUpsert) (ds : List String) (b : Bytes)
    → serialize_rows us ds ≡ some b
    → Encoded us ds b
unfolding Encoded
serialize_rows-Encoded [] [] b h = absurd (ground arith)
serialize_rows-Encoded [] (d ∷ []) b h = elim (text_cases d "a") [
  | inl e ↦ inr (refl, ap (λ x. x ∷ []) e, ground arith)
  | inr e ↦ absurd (ground arith)
]
serialize_rows-Encoded [] (d ∷ d' ∷ ds) b h = absurd (ground arith)
serialize_rows-Encoded (u ∷ []) [] b h = elim (text_cases u.id "a") [
  | inr e ↦ absurd (ground arith)
  | inl e ↦ elim (Option-cases (single u.attributes)) [
    | inl n ↦ absurd (ground arith)
    | inr (v, n) ↦ let q = single-eq u.attributes v n in inl (v, ground arith, refl, ground arith)
  ]
]
serialize_rows-Encoded (u ∷ []) (d ∷ ds) b h = absurd (ground arith)
serialize_rows-Encoded (u ∷ u' ∷ us) ds b h = absurd (ground arith)

serialize-Encoded :
    (e : WalEntry) (b : Bytes)
    → serialize e ≡ some b
    → (e.patches ≡ []) × Encoded e.upserts e.deletes b
serialize-Encoded e b h = go e.patches refl
  where
    go : (ps : List WalPatch) → e.patches ≡ ps → (e.patches ≡ []) × Encoded e.upserts e.deletes b
    go [] q = (q, serialize_rows-Encoded e.upserts e.deletes b (ground arith))
    go (p ∷ ps) q = absurd (ground arith)

-- The packages' documented behaviour holds of the test codec.
pub test_laws : CodecLaws test_codec
unfolding Encoded
test_laws = record {
  json_roundtrip = to_vec-from_slice;
  bincode_roundtrip = λ e b h.
      let (p, enc) = serialize-Encoded e b h in
      elim enc [ inl (v, u, d, r) ↦ ground arith | inr (u, d, r) ↦ ground arith ];
  bincode_length = λ e b h.
      let (p, enc) = serialize-Encoded e b h in
      elim enc [ inl (v, u, d, r) ↦ ground arith | inr (u, d, r) ↦ ground arith ];
  crc32_is_u32 = λ b. omega arith;
}

-- A schema is a number, and has no vector columns.
abbrev pub test_schema_ops : SchemaOps ℕ
test_schema_ops = record {
  empty_schema = 0;
  merge_schema = λ a b. ok b;
  vector_fields_from_schema = λ _. [];
  vector_dimensions_for_field = λ _ _. none;
  vector_element_for_field = λ _ _. f32;
}
