-- ===== src/Wal/RoundTrip.antt =====
-- The wire format of the log (src/wal.rs): what is written can be read back, what does not match its
-- checksum is refused, and every refusal is a `WalCorrupt`.
use openpuffer.Base.{
  ℕ, suc, ◌+◌, ◌-◌, ◌≤◌, ◌<◌, ◌^◌, ◌≡◌, ◌≢◌, refl, Option, none, some, [], ◌∷◌, ◌++◌, arith, ◌&&◌,
  inl, inr,
}
use openpuffer.Base.Logic.{ok, err, ◌>>=◌, Bool-cases, Option-cases, ◌==◌, ltb}
use openpuffer.Base.Lists.{length, take, drop, length-append, take_append, drop_append}
use openpuffer.Error.{
  Error, Result, Reason, wal_corrupt, crc_mismatch, payload_after_crc, legacy_decode, truncated,
  empty_segment,
}
use openpuffer.Wal.Entry.{Bytes, WalEntry}
use openpuffer.Wal.Codec.{Codec, CodecLaws}
use openpuffer.Wal.Format.{
  WalCorruptPolicy, to_le_bytes, from_le_bytes, encode, decode_legacy, decode_payload, check_crc,
  decode_crc32_format, or_legacy, decode_segment, with_policy, decode_segment_with_policy,
}

-- The four bytes of a `u32` give it back.
pub from_le_bytes-to_le_bytes : (n : ℕ) → n < 2 ^ 32 → from_le_bytes (to_le_bytes n) ≡ n
unfolding from_le_bytes to_le_bytes
from_le_bytes-to_le_bytes n h = omega arith

length-to_le_bytes : (n : ℕ) → length (to_le_bytes n) ≡ 4
unfolding to_le_bytes
length-to_le_bytes n = refl

abbrev frame : Bytes → ℕ → Bytes
frame p n = 1 ∷ (p ++ to_le_bytes n)

length-frame : (p : Bytes) (n : ℕ) → length (frame p n) ≡ length p + 5
length-frame p n = omega (arith, length-append p (to_le_bytes n), length-to_le_bytes n)

payload-frame : (p : Bytes) (n : ℕ) → take (length (frame p n) - 4 - 1) (drop 1 (frame p n)) ≡ p
payload-frame p n =
    let e : length (frame p n) - 4 - 1 ≡ length p = omega (arith, length-frame p n) in
    rw e (take_append p (to_le_bytes n))

trailer-frame : (p : Bytes) (n : ℕ) → drop (length (frame p n) - 4) (frame p n) ≡ to_le_bytes n
trailer-frame p n =
    let e : length (frame p n) - 4 ≡ suc (length p) = omega (arith, length-frame p n) in
    rw e (drop_append p (to_le_bytes n))

module _ {V : Type 0} (c : Codec V) where
  -- A frame with payload is read by its checksum.
  decode_crc32_format-frame :
      (p : Bytes) (n : ℕ) (seq : Option ℕ)
      → 1 ≤ length p
      → n < 2 ^ 32
      → decode_crc32_format c (frame p n) seq ≡ check_crc c p n seq
  unfolding decode_crc32_format
  decode_crc32_format-frame p n seq h u =
      ground (
        arith,
        payload-frame p n,
        trailer-frame p n,
        from_le_bytes-to_le_bytes n u,
        length-frame p n,
      )

  decode_segment-frame :
      (p : Bytes) (n : ℕ) (seq : Option ℕ)
      → 1 ≤ length p
      → n < 2 ^ 32
      → decode_segment c (frame p n) seq ≡ or_legacy c (frame p n) (check_crc c p n seq)
  unfolding decode_segment
  decode_segment-frame p n seq h u =
      ground (arith, length-frame p n, decode_crc32_format-frame p n seq h u)

  -- A segment that `encode` wrote decodes to its entry, whatever its sequence number.
  pub decode_segment-encode :
      CodecLaws c
      → (e : WalEntry) (b : Bytes) (seq : Option ℕ) → encode c e ≡ ok b
      → decode_segment c b seq ≡ ok e
  unfolding encode check_crc decode_payload or_legacy
  decode_segment-encode laws e b seq h = elim (Option-cases (c.serialize e)) [
    | inl fails ↦ ground arith
    | inr (p, done) ↦ ground (
      arith,
      laws.bincode_roundtrip e p done,
      laws.bincode_length e p done,
      laws.crc32_is_u32 p,
      decode_segment-frame p (c.crc32 p) seq,
    )
  ]

  -- A framed payload whose stored checksum is not that of the payload is refused with the
  -- segment's number, unless the whole segment is a legacy entry.
  pub decode_segment-crc_mismatch :
      (p : Bytes) (n : ℕ) (seq : Option ℕ)
      → 1 ≤ length p
      → n < 2 ^ 32
      → n ≢ c.crc32 p
      → c.deserialize (frame p n) ≡ none
      → decode_segment c (frame p n) seq ≡ err (wal_corrupt seq crc_mismatch)
  unfolding check_crc or_legacy
  decode_segment-crc_mismatch p n seq h u differs legacy =
      ground (arith, decode_segment-frame p n seq h u)

  abbrev Tagged : Option ℕ → Result WalEntry → Type 0
  Tagged seq (ok entry) = Unit
  Tagged seq (err e) = (r : Reason) × (e ≡ wal_corrupt seq r)

  decode_payload-Tagged : (b : Bytes) (seq : Option ℕ) → Tagged seq (decode_payload c b seq)
  unfolding decode_payload
  decode_payload-Tagged b seq = elim (Option-cases (c.deserialize b)) [
    | inl e ↦ rw (e, decode_payload) (payload_after_crc, refl)
    | inr (x, e) ↦ rw (e, decode_payload) tt
  ]

  decode_legacy-Tagged : (b : Bytes) (seq : Option ℕ) → Tagged seq (decode_legacy c b seq)
  unfolding decode_legacy
  decode_legacy-Tagged b seq = elim (Option-cases (c.deserialize b)) [
    | inl e ↦ rw (e, decode_legacy) (legacy_decode, refl)
    | inr (x, e) ↦ rw (e, decode_legacy) tt
  ]

  check_crc-Tagged : (b : Bytes) (n : ℕ) (seq : Option ℕ) → Tagged seq (check_crc c b n seq)
  unfolding check_crc
  check_crc-Tagged b n seq = elim (Bool-cases (n == c.crc32 b)) [
    | inl e ↦ rw e (decode_payload-Tagged b seq)
    | inr e ↦ rw e (crc_mismatch, refl)
  ]

  decode_crc32_format-Tagged :
      (b : Bytes) (seq : Option ℕ) → Tagged seq (decode_crc32_format c b seq)
  unfolding decode_crc32_format
  decode_crc32_format-Tagged b seq = elim (Bool-cases (ltb (length b) 6)) [
    | inl e ↦ rw e (truncated, refl)
    | inr e ↦ rw e (check_crc-Tagged _ _ seq)
  ]

  or_legacy-Tagged :
      (b : Bytes) (seq : Option ℕ) (r : Result WalEntry)
      → Tagged seq r
      → Tagged seq (or_legacy c b r)
  unfolding or_legacy
  or_legacy-Tagged b seq (ok x) h = tt
  or_legacy-Tagged b seq (err e) (r, h) = elim (Option-cases (c.deserialize b)) [
    | inl g ↦ rw (h, g, or_legacy) (r, h)
    | inr (x, g) ↦ rw (h, g, or_legacy) tt
  ]

  decode_segment-Tagged : (b : Bytes) (seq : Option ℕ) → Tagged seq (decode_segment c b seq)
  unfolding decode_segment
  decode_segment-Tagged [] seq = (empty_segment, refl)
  decode_segment-Tagged (b ∷ bs) seq = elim (Bool-cases (b == 1 && ltb 5 (length (b ∷ bs)))) [
    | inl e ↦ rw e (or_legacy-Tagged _ seq _ (decode_crc32_format-Tagged (b ∷ bs) seq))
    | inr e ↦ rw e (decode_legacy-Tagged (b ∷ bs) seq)
  ]

  -- Every error of `decode_segment` is a `WalCorrupt` with the number that the caller gave.
  pub decode_segment_error :
      (b : Bytes) (seq : Option ℕ) (e : Error)
      → decode_segment c b seq ≡ err e
      → (r : Reason) × (e ≡ wal_corrupt seq r)
  decode_segment_error b seq e h = rw h at (decode_segment-Tagged b seq)

  abbrev pub to_option : Result WalEntry → Option WalEntry
  to_option (ok entry) = some entry
  to_option (err e) = none

  with_policy_outcome :
      (n : ℕ) (r : Result WalEntry)
      → Tagged (some n) r
      → (with_policy WalCorruptPolicy.skip r ≡ ok (to_option r))
        × (with_policy WalCorruptPolicy.fail r ≡ (r >>= λ entry. ok (some entry)))
  unfolding with_policy
  with_policy_outcome n (ok x) h = (refl, refl)
  with_policy_outcome n (err e) (r, h) = ground arith

  -- With `skip` the replay of a segment never fails, and yields the entry or, of a corrupt segment,
  -- nothing. With `fail` it yields the entry, or the error of `decode_segment`.
  pub decode_segment_with_policy_outcome :
      (b : Bytes) (n : ℕ)
      → (decode_segment_with_policy c b n WalCorruptPolicy.skip
          ≡ ok (to_option (decode_segment c b (some n))))
        × (decode_segment_with_policy c b n WalCorruptPolicy.fail
            ≡ (decode_segment c b (some n) >>= λ entry. ok (some entry)))
  unfolding decode_segment_with_policy
  decode_segment_with_policy_outcome b n =
      with_policy_outcome n (decode_segment c b (some n)) (decode_segment-Tagged b (some n))
