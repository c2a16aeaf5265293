-- ===== src/Wal/Format.antt =====
-- The segment format of src/wal.rs: `[0x01][bincode payload][crc32 LE]`, the legacy format without
-- frame, and the policy for corrupt segments.
use openpuffer.Base.{ℕ, ◌+◌, ◌-◌, ◌*◌, ◌/◌, ◌%◌, Option, none, some, [], ◌∷◌, ◌++◌, ◌&&◌}
use openpuffer.Base.Logic.{ok, err, ◌>>=◌, ok_or, ltb, ◌==◌, if◌then◌else◌}
use openpuffer.Base.Lists.{length, take, drop}
use openpuffer.Error.{
  Result, Reason, wal_corrupt, message, is_corrupt_error, empty_segment, truncated, crc_mismatch,
  payload_after_crc, legacy_decode,
}
use openpuffer.Wal.Entry.{Bytes, WalEntry}
use openpuffer.Wal.Codec.{Codec}

abbrev pub wal_format_crc32 : ℕ
wal_format_crc32 = 1

abbrev pub crc32_trailer_len : ℕ
crc32_trailer_len = 4

-- `u32::to_le_bytes`
unfoldable pub to_le_bytes : ℕ → Bytes
to_le_bytes n = n % 256 ∷ n / 256 % 256 ∷ n / 65536 % 256 ∷ n / 16777216 % 256 ∷ []

-- `u32::from_le_bytes` of a slice that must hold four bytes (`try_into().expect(..)`).
unfoldable pub from_le_bytes : Bytes → ℕ
from_le_bytes (a ∷ b ∷ c ∷ d ∷ []) = a + 256 * b + 65536 * c + 16777216 * d
from_le_bytes _ = 0

unfoldable pub corrupt_err : {A : Type 0} → Option ℕ → Reason → Result A
corrupt_err seq reason = err (wal_corrupt seq reason)

pub data WalCorruptPolicy : Type 0 where
  fail skip : WalCorruptPolicy

-- The `match` of `decode_segment_with_policy`.
unfoldable pub with_policy : WalCorruptPolicy → Result WalEntry → Result (Option WalEntry)
with_policy policy (ok entry) = ok (some entry)
with_policy policy (err e) =
    if is_corrupt_error e
    then (elim policy [ WalCorruptPolicy.fail ↦ err e | WalCorruptPolicy.skip ↦ ok none ])
    else err e

module _ {V : Type 0} (c : Codec V) where
  unfoldable pub encode : WalEntry → Result Bytes
  encode entry = do
    payload ← ok_or (c.serialize entry) (message "encode WalEntry payload")
    ok (wal_format_crc32 ∷ (payload ++ to_le_bytes (c.crc32 payload)))

  unfoldable pub decode_legacy : Bytes → Option ℕ → Result WalEntry
  unfolding corrupt_err
  decode_legacy bytes seq = elim (c.deserialize bytes) [
    | some entry ↦ ok entry
    | none ↦ corrupt_err seq legacy_decode
  ]

  unfoldable pub decode_payload : Bytes → Option ℕ → Result WalEntry
  unfolding corrupt_err
  decode_payload payload seq = elim (c.deserialize payload) [
    | some entry ↦ ok entry
    | none ↦ corrupt_err seq payload_after_crc
  ]

  -- The comparison of the stored checksum with that of the payload.
  unfoldable pub check_crc : Bytes → ℕ → Option ℕ → Result WalEntry
  unfolding corrupt_err decode_payload
  check_crc payload stored seq =
      if stored == c.crc32 payload then decode_payload payload seq else corrupt_err seq crc_mismatch

  unfoldable pub decode_crc32_format : Bytes → Option ℕ → Result WalEntry
  unfolding corrupt_err
  decode_crc32_format bytes seq =
      if ltb (length bytes) (1 + crc32_trailer_len + 1)
      then corrupt_err seq truncated
      else check_crc (take (length bytes - crc32_trailer_len - 1) (drop 1 bytes))
          (from_le_bytes (drop (length bytes - crc32_trailer_len) bytes)) seq

  -- The `match` of `decode_segment` on the result of the framed format: a corrupt segment may still
  -- be a legacy one that starts with the version byte.
  unfoldable pub or_legacy : Bytes → Result WalEntry → Result WalEntry
  or_legacy bytes (ok entry) = ok entry
  or_legacy bytes (err e) =
      if is_corrupt_error e
      then (elim (c.deserialize bytes) [ some entry ↦ ok entry | none ↦ err e ])
      else err e

  unfoldable pub decode_segment : Bytes → Option ℕ → Result WalEntry
  unfolding corrupt_err decode_legacy or_legacy decode_crc32_format check_crc
  decode_segment [] seq = corrupt_err seq empty_segment
  decode_segment (b ∷ bs) seq =
      if b == wal_format_crc32 && ltb (1 + crc32_trailer_len) (length (b ∷ bs))
      then or_legacy (b ∷ bs) (decode_crc32_format (b ∷ bs) seq)
      else decode_legacy (b ∷ bs) seq

  unfoldable pub decode : Bytes → Result WalEntry
  unfolding decode_segment
  decode bytes = decode_segment bytes none

  unfoldable pub decode_segment_with_policy :
      Bytes → ℕ → WalCorruptPolicy → Result (Option WalEntry)
  unfolding decode_segment with_policy
  decode_segment_with_policy bytes seq policy = with_policy policy (decode_segment bytes (some seq))
