-- ===== src/Wal/Entry.antt =====
-- `Document` of src/models.rs, the log entry of src/wal.rs, and its rows. The attribute values
-- (`serde_json::Value`) are only copied here, so their type is a parameter.
use openpuffer.Base.{ℕ, String, List}
use openpuffer.Base.Maps.{StrMap}

abbrev pub Bytes : Type 0
Bytes = List ℕ

pub record Document (V : Type 0) : Type 0 where
  pub id : String
  pub attributes : StrMap V

abbrev pub Docs : Type 0 → Type 0
Docs V = StrMap (Document V)

-- `WalUpsert` and `WalPatch`: the attributes are the bytes of a JSON object.
pub record WalUpsert : Type 0 where
  pub id : String
  pub attributes : Bytes

pub record WalPatch : Type 0 where
  pub id : String
  pub attributes : Bytes

pub record WalEntry : Type 0 where
  pub upserts : List WalUpsert
  pub patches : List WalPatch
  pub deletes : List String
