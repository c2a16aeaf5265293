-- ===== src/Cache/Current.antt =====
-- A read through the cache (`get_bytes` of src/cache.rs) gives an object of the store, not an older one.
use openpuffer.Base.{
  suc, ◌≡◌, refl, ap, String, Option, none, some, true, false, ◌&&◌, ◌⊎◌, inl, inr, arith, text_eq,
  eq_iff,
}
use openpuffer.Base.Logic.{ok, if◌then◌else◌, Bool-cases, Option-cases}
use openpuffer.Base.Maps.{insert, get-insert, StrMap}
use openpuffer.Error.{Result}
use openpuffer.Schema.Text.{trim}
use openpuffer.Cache.Disk.{
  normalize_etag, SegmentCache, written, DiskWrites, local_path, read_files, read_local,
  write_local, local_matches_etag, fetched, get_bytes, hit_or_get,
}

-- An etag of the store: what is kept of it reads back as it is, and is not empty.
pub record EtagForm (etag : String) : Type 0 where
  pub again : normalize_etag (normalize_etag etag) ≡ normalize_etag etag
  pub from_disk : normalize_etag (trim (normalize_etag etag)) ≡ normalize_etag etag
  pub not_empty : text_eq (normalize_etag etag) "" ≡ false

EtagForm-again : (etag : String) → EtagForm etag → EtagForm (normalize_etag etag)
EtagForm-again etag form = record {
  again = ap normalize_etag form.again;
  from_disk = rw form.again (form.from_disk);
  not_empty = rw form.again form.not_empty;
}

-- No write leaves the bytes of one version beside the sidecar of another.
abbrev pub Whole : {B : Type 0} → DiskWrites B → Type 0
Whole w = (w.directory_made ≡ false) ⊎ ((w.bytes ≡ written) × (w.etag ≡ written))

module _ {B : Type 0} where
  pub get_bytes-disabled :
      (w : DiskWrites B) (c : SegmentCache B) (bucket s3_key : String)
      (head : Result (Option String)) (got : Result (Option (B × Option String)))
      → c.enabled ≡ false
      → get_bytes w c bucket s3_key head got ≡ hit_or_get w c bucket s3_key got none
  unfolding get_bytes
  get_bytes-disabled w c bucket s3_key head got off = ground arith

  pub get_bytes-enabled :
      (w : DiskWrites B) (c : SegmentCache B) (bucket s3_key seen : String)
      (got : Result (Option (B × Option String)))
      → c.enabled ≡ true
      → get_bytes w c bucket s3_key (ok (some seen)) got
        ≡ hit_or_get w c bucket s3_key got
            (local_matches_etag (read_local c bucket s3_key) (some (normalize_etag seen)))
  unfolding get_bytes
  get_bytes-enabled w c bucket s3_key seen got on = ground arith

  nothing_local :
      (c : SegmentCache B) (bucket s3_key seen : String)
      → c.enabled ≡ false
      → local_matches_etag (read_local c bucket s3_key) (some (normalize_etag seen)) ≡ none
  unfolding local_matches_etag read_local
  nothing_local c bucket s3_key seen off = ground arith

  pub read_files-insert :
      (files : StrMap B) (sidecars : StrMap String) (path : String) (bytes : B) (etag p : String)
      → EtagForm etag
      → read_files (insert files path bytes) (insert sidecars path (normalize_etag etag)) p ≡ (
          if text_eq path p then some (bytes, normalize_etag etag) else read_files files sidecars p)
  unfolding read_files
  read_files-insert files sidecars path bytes etag p form = ground (
    arith,
    get-insert files path bytes p,
    get-insert sidecars path (normalize_etag etag) p,
    form.from_disk,
    form.not_empty,
  )

module _ {B : Type 0} (content : String → String → B) where
  -- The bytes in a file are those that the store has had under the etag beside it.
  abbrev pub Coherent : SegmentCache B → Type 0
  Coherent c =
      (p : String) (b : B) (e : String)
      → read_files c.files c.sidecars p ≡ some (b, e)
      → b ≡ content p e

  write_local-Coherent :
      (w : DiskWrites B) (c : SegmentCache B) (bucket s3_key : String) (etag : String)
      → Whole w
      → EtagForm etag
      → Coherent c
      → Coherent (
          write_local w c bucket s3_key
            (content (local_path bucket s3_key) (normalize_etag etag))
            etag)
  unfolding write_local
  write_local-Coherent w c bucket s3_key etag (inl none_made) form coherent p b e r =
      coherent p b e (ground arith)
  write_local-Coherent w c bucket s3_key etag (inr (bytes, tag)) form coherent p b e r =
      let path = local_path bucket s3_key in
      let kept = content path (normalize_etag etag) in
      elim (Bool-cases (c.enabled && w.directory_made)) [
        | inr off ↦ coherent p b e (ground arith)
        | inl on ↦ elim (Bool-cases (text_eq path p)) [
          | inr other ↦
              coherent p b e
                (ground (arith, read_files-insert c.files c.sidecars path kept etag p form))
          | inl same ↦
              ground
                (arith, read_files-insert c.files c.sidecars path kept etag p form, eq_iff path p)
        ]
      ]

  fetched_lem :
      (w : DiskWrites B) (c : SegmentCache B) (bucket s3_key etag : String)
      → Whole w
      → EtagForm etag
      → Coherent c
      → let bytes = content (local_path bucket s3_key) (normalize_etag etag) in
        ((fetched w c bucket s3_key (some (bytes, some etag))).0 ≡ some bytes)
        × Coherent (fetched w c bucket s3_key (some (bytes, some etag))).1
  unfolding fetched
  fetched_lem w c bucket s3_key etag whole form coherent =
      let path = local_path bucket s3_key in
      let c' = record c { s3_gets = suc c.s3_gets } in
      let kept =
        write_local-Coherent w c' bucket s3_key (normalize_etag etag) whole
          (EtagForm-again etag form) coherent in
      (refl, rw form.again at kept)

  -- The bytes of a hit.
  hit_lem :
      (c : SegmentCache B) (bucket s3_key etag : String) (bytes : B)
      → EtagForm etag
      → Coherent c
      → local_matches_etag (read_local c bucket s3_key) (some (normalize_etag etag)) ≡ some bytes
      → bytes ≡ content (local_path bucket s3_key) (normalize_etag etag)
  unfolding local_matches_etag read_local
  hit_lem c bucket s3_key etag bytes form coherent h =
      let path = local_path bucket s3_key in
      elim (Option-cases (read_files c.files c.sidecars path)) [
        | inl e ↦ absurd (ground arith)
        | inr ((b, tag), e) ↦
            let from = coherent path b tag e in
            ground (arith, eq_iff tag (normalize_etag (normalize_etag etag)), form.again)
      ]

  -- The answer, whether or not there is a hit.
  found_current :
      (w : DiskWrites B) (c : SegmentCache B) (bucket s3_key seen sent : String) (found : Option B)
      → Whole w
      → EtagForm seen
      → EtagForm sent
      → Coherent c
      → local_matches_etag (read_local c bucket s3_key) (some (normalize_etag seen)) ≡ found
      → let version = content (local_path bucket s3_key) in
        let r =
          hit_or_get w c bucket s3_key
            (ok (some (version (normalize_etag sent), some sent)))
            found in
        ((r.0 ≡ ok (some (version (normalize_etag seen))))
          ⊎ (r.0 ≡ ok (some (version (normalize_etag sent)))))
        × Coherent r.1
  found_current w c bucket s3_key seen sent none whole form form' coherent h =
      let (sent_back, after) = fetched_lem w c bucket s3_key sent whole form' coherent in
      (inr (ap ok sent_back), after)
  found_current w c bucket s3_key seen sent (some bytes) whole form form' coherent h =
      (inl (ap (λ b. ok (some b)) (hit_lem c bucket s3_key seen bytes form coherent h)), coherent)

  -- Where no write to the disk mixes two versions, and each file is the version of its etag, a read of an
  -- object that HEAD shows under one etag and GET under another, or the same, gives the version of one of
  -- the two; and each file is the version of its etag afterwards.
  pub get_bytes_current :
      (w : DiskWrites B) (c : SegmentCache B) (bucket s3_key seen sent : String)
      → Whole w
      → EtagForm seen
      → EtagForm sent
      → Coherent c
      → let version = content (local_path bucket s3_key) in
        let r =
          get_bytes w c bucket s3_key
            (ok (some seen))
            (ok (some (version (normalize_etag sent), some sent))) in
        ((r.0 ≡ ok (some (version (normalize_etag seen))))
          ⊎ (r.0 ≡ ok (some (version (normalize_etag sent)))))
        × Coherent r.1
  get_bytes_current w c bucket s3_key seen sent whole form form' coherent =
      let version = content (local_path bucket s3_key) in
      let got : Result (Option (B × Option String)) =
        ok (some (version (normalize_etag sent), some sent)) in
      elim (Bool-cases c.enabled) [
        | inr off ↦ rw (get_bytes-disabled w c bucket s3_key (ok (some seen)) got off) (
            found_current w c bucket s3_key seen sent none whole form form' coherent
              (nothing_local c bucket s3_key seen off))
        | inl on ↦ rw (get_bytes-enabled w c bucket s3_key seen got on) (
            found_current w c bucket s3_key seen sent
              (local_matches_etag (read_local c bucket s3_key) (some (normalize_etag seen))) whole
              form form' coherent refl)
      ]
