-- ===== src/Cache/Torn.antt =====
-- Two reads of an object in turn, and a read of the files while another task writes them (src/cache.rs).
use openpuffer.Base.{
  ◌≡◌, refl, sym, ap, ◌∙◌, String, Option, none, some, List, [], ◌∷◌, true, arith,
}
use openpuffer.Base.Logic.{ok, text_eq_refl}
use openpuffer.Base.Maps.{get, insert, remove, get-insert}
use openpuffer.Error.{Result}
use openpuffer.Schema.Text.{trim}
use openpuffer.Cache.Disk.{
  normalize_etag, SegmentCache, written, DiskWrites, Reader, at_bytes, read_next, result, Writer,
  to_bytes, write_next, local_path, read_local, write_local, local_matches_etag, fetched, get_bytes,
  hit_or_get,
}
use openpuffer.Cache.Current.{EtagForm, get_bytes-enabled, read_files-insert}

-- Whose file operation comes next.
pub data Turn : Type 0 where
  reads writes : Turn

-- A read and a write of one path, in progress, with the files.
pub record Racing (B : Type 0) : Type 0 where
  pub reader : Reader B
  pub writer : Writer
  pub cache : SegmentCache B

module _ {B : Type 0} where
  -- A write to the disk that does all of it.
  abbrev pub all_written : DiskWrites B
  all_written = record { directory_made = true; bytes = written; etag = written }

  matches_written :
      (c : SegmentCache B) (bucket s3_key etag : String) (bytes : B)
      → c.enabled ≡ true
      → EtagForm etag
      → local_matches_etag
          (read_local
            (fetched all_written c bucket s3_key (some (bytes, some etag))).1
            bucket
            s3_key)
          (some (normalize_etag etag))
        ≡ some bytes
  unfolding fetched write_local local_matches_etag read_local
  matches_written c bucket s3_key etag bytes on form = ground (
    arith,
    read_files-insert c.files c.sidecars (local_path bucket s3_key) bytes etag
        (local_path bucket s3_key) form,
    text_eq_refl (local_path bucket s3_key),
    text_eq_refl (normalize_etag etag),
    form.again,
  )

  -- Their file operations in the order of the turns.
  pub race : DiskWrites B → String → B → String → List Turn → Racing B → Racing B
  unfolding get insert remove normalize_etag trim
  race w path new etag [] r = r
  race w path new etag (reads ∷ turns) r =
      race w path new etag turns
        (record r { reader = read_next r.cache.files r.cache.sidecars path r.reader })
  race w path new etag (writes ∷ turns) r =
      let (writer, cache) = write_next w path new etag (r.writer, r.cache) in
      race w path new etag turns (record r { writer = writer; cache = cache })

  abbrev pub both_begin : SegmentCache B → Racing B
  both_begin c = record { reader = at_bytes; writer = to_bytes; cache = c }

  -- The cache is on and has old bytes under the old etag, and a read and a write of a new version run at
  -- once, where the writes to the disk go through, and both etags read back from the disk and are not
  -- empty. If the whole write falls between the read of the bytes and that of the sidecar, the files are
  -- those that `write_local` leaves, and the old bytes match the new etag. If the whole read falls between
  -- the write of the bytes and that of the sidecar, the new bytes match the old etag. A read after the
  -- write has the new bytes under the new etag.
  pub read_tears :
      (c : SegmentCache B) (bucket s3_key old_etag etag : String) (old new : B)
      → c.enabled ≡ true
      → EtagForm old_etag
      → EtagForm etag
      → get c.files (local_path bucket s3_key) ≡ some old
      → get c.sidecars (local_path bucket s3_key) ≡ some (normalize_etag old_etag)
      → let racing = λ (turns : List Turn).
        race all_written (local_path bucket s3_key) new etag turns (both_begin c) in
        let torn = racing (reads ∷ writes ∷ writes ∷ reads ∷ []) in
        let between = racing (writes ∷ reads ∷ reads ∷ writes ∷ []) in
        let in_order = racing (writes ∷ writes ∷ reads ∷ reads ∷ []) in
        (torn.cache ≡ write_local all_written c bucket s3_key new etag)
        × (local_matches_etag (result torn.reader) (some (normalize_etag etag)) ≡ some old)
        × (local_matches_etag (result between.reader) (some (normalize_etag old_etag)) ≡ some new)
        × (local_matches_etag (result in_order.reader) (some (normalize_etag etag)) ≡ some new)
  unfolding race write_local local_matches_etag
  read_tears c bucket s3_key old_etag etag old new on was form had had_etag =
      let path = local_path bucket s3_key in
      let bytes_in = get-insert c.files path new path in
      let sidecar_in = get-insert c.sidecars path (normalize_etag etag) path in
      let same = text_eq_refl path in
      let same_etag = text_eq_refl (normalize_etag etag) in
      let same_old = text_eq_refl (normalize_etag old_etag) in
      (
        ground arith,
        ground (arith, form.again, form.from_disk, form.not_empty),
        ground (arith, was.again, was.from_disk, was.not_empty),
        ground (arith, form.again, form.from_disk, form.not_empty),
      )

  fetched-enabled :
      (c : SegmentCache B) (bucket s3_key etag : String) (bytes : B)
      → (fetched all_written c bucket s3_key (some (bytes, some etag))).1.enabled ≡ c.enabled
  unfolding fetched write_local
  fetched-enabled c bucket s3_key etag bytes = ground arith

  fetched_bytes :
      (w : DiskWrites B) (c : SegmentCache B) (bucket s3_key etag : String) (bytes : B)
      → (fetched w c bucket s3_key (some (bytes, some etag))).0 ≡ some bytes
  unfolding fetched
  fetched_bytes w c bucket s3_key etag bytes = refl

  -- The second read after the first has hit or missed.
  again_after :
      (c : SegmentCache B) (bucket s3_key etag : String) (bytes : B) (found : Option B)
      (w : DiskWrites B) (got : Result (Option (B × Option String)))
      → c.enabled ≡ true
      → EtagForm etag
      → local_matches_etag (read_local c bucket s3_key) (some (normalize_etag etag)) ≡ found
      → let first = hit_or_get all_written c bucket s3_key (ok (some (bytes, some etag))) found in
        get_bytes w first.1 bucket s3_key (ok (some etag)) got ≡ (first.0, first.1)
  again_after c bucket s3_key etag bytes (some b) w got on form h =
      get_bytes-enabled w c bucket s3_key etag got on ∙ ap (hit_or_get w c bucket s3_key got) h
  again_after c bucket s3_key etag bytes none w got on form h =
      let c' = (fetched all_written c bucket s3_key (some (bytes, some etag))).1 in
      get_bytes-enabled w c' bucket s3_key etag got
        (fetched-enabled c bucket s3_key etag bytes ∙ on)
      ∙ ap (hit_or_get w c' bucket s3_key got) (matches_written c bucket s3_key etag bytes on form)
      ∙ ap (λ b. (ok b, c')) (sym (fetched_bytes all_written c bucket s3_key etag bytes))

  -- After a read whose writes to the disk all went through, a read of the object under the same etag gives
  -- the same bytes, whatever GET would answer, and leaves the files and the count of GETs as they are.
  pub get_bytes_again :
      (c : SegmentCache B) (bucket s3_key etag : String) (bytes : B) (w : DiskWrites B)
      (got : Result (Option (B × Option String)))
      → c.enabled ≡ true
      → EtagForm etag
      → let first =
          get_bytes all_written c bucket s3_key (ok (some etag)) (ok (some (bytes, some etag))) in
        get_bytes w first.1 bucket s3_key (ok (some etag)) got ≡ (first.0, first.1)
  get_bytes_again c bucket s3_key etag bytes w got on form =
      let answer : Result (Option (B × Option String)) = ok (some (bytes, some etag)) in
      rw (get_bytes-enabled all_written c bucket s3_key etag answer on) (
        again_after c bucket s3_key etag bytes
          (local_matches_etag (read_local c bucket s3_key) (some (normalize_etag etag))) w got on
          form refl)
