-- ===== src/Wal/Codec.antt =====
-- What the log uses of `serde_json`, `bincode` and `crc32fast`, and the documented behaviour of
-- these packages that the theorems rely on.
use openpuffer.Base.{ℕ, ◌≡◌, ◌≤◌, ◌<◌, ◌^◌, Option, some}
use openpuffer.Base.Lists.{length}
use openpuffer.Base.Maps.{StrMap}
use openpuffer.Wal.Entry.{Bytes, WalEntry}

pub record Codec (V : Type 0) : Type 0 where
  -- `serde_json::to_vec` and `serde_json::from_slice` at attribute maps
  pub to_vec : StrMap V → Option Bytes
  pub from_slice : Bytes → Option (StrMap V)
  -- `bincode::serialize` and `bincode::deserialize` at log entries
  pub serialize : WalEntry → Option Bytes
  pub deserialize : Bytes → Option WalEntry
  -- `crc32fast::hash`
  pub crc32 : Bytes → ℕ

-- Both encodings can be read back, `bincode` writes the lengths of the three lists of an entry in
-- eight bytes each, and a checksum is a `u32`.
pub record CodecLaws {V : Type 0} (c : Codec V) : Type 0 where
  pub json_roundtrip : (a : StrMap V) (b : Bytes) → c.to_vec a ≡ some b → c.from_slice b ≡ some a
  pub bincode_roundtrip :
      (e : WalEntry) (b : Bytes) → c.serialize e ≡ some b → c.deserialize b ≡ some e
  pub bincode_length : (e : WalEntry) (b : Bytes) → c.serialize e ≡ some b → 24 ≤ length b
  pub crc32_is_u32 : (b : Bytes) → c.crc32 b < 2 ^ 32
