-- ===== src/Cache/Disk.antt =====
-- The files of the cache (src/cache.rs) and what it does with the answers of the store. The sidecar of a
-- path, `{path}.etag`, is in a map of its own, as no key of an index object ends so. What a write to the
-- disk does is an argument: it may fail and leave anything in the file.
use Prim.Native.Char.{Char, code}
use openpuffer.Base.{ℕ, suc, String, Option, none, some, [], ◌∷◌, Bool, true, false, ◌&&◌, text_eq}
use openpuffer.Base.Logic.{ok, err, if◌then◌else◌, ◌==◌}
use openpuffer.Base.Maps.{StrMap, get, insert, remove}
use openpuffer.Error.{Result}
use openpuffer.Schema.Text.{trim}
use openpuffer.Index.Values.{prefixed}

abbrev is_quote : Char → Bool
is_quote c = code c == 34

unfoldable trim_quotes_start : String → String
trim_quotes_start String.[] = String.[]
trim_quotes_start (String.◌∷◌ c s) =
    let rest = trim_quotes_start s in if is_quote c then rest else String.◌∷◌ c s

abbrev unless_quote : Char → String → String
unless_quote c String.[] = if is_quote c then String.[] else String.◌∷◌ c String.[]
unless_quote c (String.◌∷◌ d s) = String.◌∷◌ c (String.◌∷◌ d s)

unfoldable trim_quotes_end : String → String
trim_quotes_end String.[] = String.[]
trim_quotes_end (String.◌∷◌ c s) = unless_quote c (trim_quotes_end s)

-- `etag.trim_matches('"')`
unfoldable pub normalize_etag : String → String
unfolding trim_quotes_start trim_quotes_end
normalize_etag etag = trim_quotes_start (trim_quotes_end etag)

pub record SegmentCache (B : Type 0) : Type 0 where
  pub enabled : Bool
  pub s3_gets : ℕ
  pub files : StrMap B
  pub sidecars : StrMap String

-- What `std::fs::write` does: it writes the file, or fails and leaves the file as it says.
pub data FileWrite (A : Type 0) : Type 0 where
  written : FileWrite A
  failed : Option A → FileWrite A

pub record DiskWrites (B : Type 0) : Type 0 where
  pub directory_made : Bool
  pub bytes : FileWrite B
  pub etag : FileWrite String

unfoldable pub local_path : String → String → String
local_path bucket s3_key = prefixed bucket (prefixed "/" s3_key)

-- A key is below a directory.
unfoldable pub below : String → String → Bool
below String.[] key = true
below (String.◌∷◌ c dir) String.[] = false
below (String.◌∷◌ c dir) (String.◌∷◌ d key) = code c == code d && below dir key

unfoldable pub remove_below : {A : Type 0} → String → StrMap A → StrMap A
unfolding below
remove_below dir [] = []
remove_below dir ((k, v) ∷ m) =
    let rest = remove_below dir m in if below dir k then rest else (k, v) ∷ rest

abbrev pub write_file : {A : Type 0} → FileWrite A → StrMap A → String → A → StrMap A
write_file written m path v = insert m path v
write_file (failed none) m path v = remove m path
write_file (failed (some left)) m path v = insert m path left

-- Where a read of the files is: before the read of the bytes, with the bytes before the read of the
-- sidecar, or at its end.
pub data Reader (B : Type 0) : Type 0 where
  at_bytes : Reader B
  at_sidecar : B → Reader B
  has_read : Option (B × String) → Reader B

-- Where a write of the files is.
pub data Writer : Type 0 where
  to_bytes to_sidecar has_written : Writer

module _ {B : Type 0} where
  -- The next file operation of a read.
  abbrev pub read_next : StrMap B → StrMap String → String → Reader B → Reader B
  read_next files sidecars path at_bytes = elim (get files path) [
    | none ↦ has_read none
    | some bytes ↦ at_sidecar bytes
  ]
  read_next files sidecars path (at_sidecar bytes) = elim (get sidecars path) [
    | none ↦ has_read none
    | some etag_raw ↦
        let etag = normalize_etag (trim etag_raw) in
        if text_eq etag "" then has_read none else has_read (some (bytes, etag))
  ]
  read_next files sidecars path (has_read l) = has_read l

  abbrev pub result : Reader B → Option (B × String)
  result at_bytes = none
  result (at_sidecar bytes) = none
  result (has_read l) = l

  -- A read whose two operations see the same files.
  unfoldable pub read_files : StrMap B → StrMap String → String → Option (B × String)
  unfolding get normalize_etag trim
  read_files files sidecars path =
      result (read_next files sidecars path (read_next files sidecars path at_bytes))

  unfoldable pub read_local : SegmentCache B → String → String → Option (B × String)
  unfolding read_files local_path
  read_local c bucket s3_key =
      if c.enabled then read_files c.files c.sidecars (local_path bucket s3_key) else none

  -- The next file operation of a write.
  abbrev pub write_next :
      DiskWrites B → String → B → String → Writer × SegmentCache B → Writer × SegmentCache B
  write_next w path bytes etag (to_bytes, c) = elim w.bytes [
    | failed left ↦ (has_written, record c { files = write_file (failed left) c.files path bytes })
    | written ↦ (to_sidecar, record c { files = write_file written c.files path bytes })
  ]
  write_next w path bytes etag (to_sidecar, c) =
      (has_written, record c { sidecars = write_file w.etag c.sidecars path (normalize_etag etag) })
  write_next w path bytes etag (has_written, c) = (has_written, c)

  unfoldable pub write_local :
      DiskWrites B → SegmentCache B → String → String → B → String → SegmentCache B
  unfolding insert remove local_path normalize_etag
  write_local w c bucket s3_key bytes etag =
      let path = local_path bucket s3_key in
      if c.enabled && w.directory_made
      then (write_next w path bytes etag (write_next w path bytes etag (to_bytes, c))).1
      else c

  unfoldable pub local_matches_etag : Option (B × String) → Option String → Option B
  unfolding normalize_etag
  local_matches_etag none remote_etag = none
  local_matches_etag (some l) none = none
  local_matches_etag (some (bytes, local_etag)) (some remote_etag) =
      if text_eq local_etag (normalize_etag remote_etag) then some bytes else none

  -- The answer of GET, with the counter and, where the cache is on, the file.
  unfoldable pub fetched :
      DiskWrites B
      → SegmentCache B
      → String
      → String
      → Option (B × Option String)
      → Option B × SegmentCache B
  unfolding write_local normalize_etag
  fetched w c bucket s3_key none = (none, c)
  fetched w c bucket s3_key (some (bytes, none)) =
      (some bytes, record c { s3_gets = suc c.s3_gets })
  fetched w c bucket s3_key (some (bytes, some etag)) = (
    some bytes,
    write_local w (record c { s3_gets = suc c.s3_gets }) bucket s3_key bytes (normalize_etag etag),
  )

  abbrev pub answer_get :
      DiskWrites B
      → SegmentCache B
      → String
      → String
      → Result (Option (B × Option String))
      → Result (Option B) × SegmentCache B
  answer_get w c bucket s3_key (err e) = (err e, c)
  answer_get w c bucket s3_key (ok got) = let (b, c') = fetched w c bucket s3_key got in (ok b, c')

  -- The bytes of a hit, or the answer of GET.
  abbrev pub hit_or_get :
      DiskWrites B
      → SegmentCache B
      → String
      → String
      → Result (Option (B × Option String))
      → Option B
      → Result (Option B) × SegmentCache B
  hit_or_get w c bucket s3_key got (some bytes) = (ok (some bytes), c)
  hit_or_get w c bucket s3_key got none = answer_get w c bucket s3_key got

  -- `get_bytes` with the answers of HEAD and GET.
  unfoldable pub get_bytes :
      DiskWrites B
      → SegmentCache B
      → String
      → String
      → Result (Option String)
      → Result (Option (B × Option String))
      → Result (Option B) × SegmentCache B
  unfolding read_local fetched local_matches_etag normalize_etag
  get_bytes w c bucket s3_key head got =
      if c.enabled
      then (elim head [
        | err e ↦ (err e, c)
        | ok none ↦ (ok none, c)
        | ok (some remote) ↦
            hit_or_get w c bucket s3_key got
              (local_matches_etag (read_local c bucket s3_key) (some (normalize_etag remote)))
      ])
      else answer_get w c bucket s3_key got

  unfoldable pub populate_after_put :
      DiskWrites B → SegmentCache B → String → String → B → Option String → SegmentCache B
  unfolding write_local
  populate_after_put w c bucket s3_key bytes none = c
  populate_after_put w c bucket s3_key bytes (some etag) = write_local w c bucket s3_key bytes etag

  -- The sidecar stays.
  unfoldable pub invalidate_key : SegmentCache B → String → String → SegmentCache B
  unfolding remove local_path
  invalidate_key c bucket s3_key =
      if c.enabled then record c { files = remove c.files (local_path bucket s3_key) } else c

  unfoldable pub invalidate_namespace : SegmentCache B → String → String → SegmentCache B
  unfolding remove_below local_path
  invalidate_namespace c bucket namespace =
      let dir = local_path bucket (prefixed "openpuffer/" (prefixed namespace "/")) in
      if c.enabled
      then record c { files = remove_below dir c.files; sidecars = remove_below dir c.sidecars }
      else c
