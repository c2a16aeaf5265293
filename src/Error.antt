-- ===== src/Error.antt =====
-- The errors that the modelled code reports. `wal_corrupt` is `WalCorrupt` of src/wal.rs, with its
-- segment number and its reason; any other error is an `anyhow` message, kept as its text.
use openpuffer.Base.{ℕ, String, Option, Bool, true, false}
use openpuffer.Base.Logic

pub data Reason : Type 0 where
  empty_segment truncated crc_mismatch payload_after_crc legacy_decode : Reason

pub data Error : Type 0 where
  wal_corrupt : Option ℕ → Reason → Error
  message : String → Error

-- `is_corrupt_error`: the downcast to `WalCorrupt`.
abbrev pub is_corrupt_error : Error → Bool
is_corrupt_error (wal_corrupt seq reason) = true
is_corrupt_error (message text) = false

abbrev pub Result : Type 0 → Type 0
Result A = Logic.Result Error A
