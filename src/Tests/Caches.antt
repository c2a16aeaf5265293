-- ===== src/Tests/Caches.antt =====
-- The theorems on the disk cache at concrete inputs.
use openpuffer.Base.{ℕ, ◌≡◌, refl, some, List, [], ◌∷◌, true, String, ◌⊎◌, inr, arith, text_eq}
use openpuffer.Base.Logic.{ok, err, if◌then◌else◌}
use openpuffer.Base.Maps.{get}
use openpuffer.Error.{message}
use openpuffer.Schema.Text.{trim}
use openpuffer.Cache.Disk.{
  normalize_etag, SegmentCache, local_path, read_files, result, write_local, local_matches_etag,
  get_bytes,
}
use openpuffer.Cache.Current
use openpuffer.Cache.Current.{EtagForm, Coherent}
use openpuffer.Cache.Torn
use openpuffer.Cache.Torn.{all_written, Turn, reads, writes, Racing, race, both_begin}

-- The version 1 of an object has the etag `e1`, the version 2 the etag `e2`.
abbrev versions : String → String → ℕ
versions path etag = if text_eq etag "e2" then 2 else 1

e1-EtagForm : EtagForm "\"e1\""
unfolding normalize_etag trim
e1-EtagForm = record { again = refl; from_disk = refl; not_empty = refl }

e2-EtagForm : EtagForm "\"e2\""
unfolding normalize_etag trim
e2-EtagForm = record { again = refl; from_disk = refl; not_empty = refl }

abbrev nothing_cached : SegmentCache ℕ
nothing_cached = record { enabled = true; s3_gets = 0; files = []; sidecars = [] }

nothing-Coherent : Coherent versions nothing_cached
unfolding read_files get
nothing-Coherent p b e r = absurd (ground arith)

-- The cache after a read of the version 1.
abbrev one_cached : SegmentCache ℕ
one_cached =
    (get_bytes all_written nothing_cached "b" "k" (ok (some "\"e1\""))
      (ok (some (versions (local_path "b" "k") (normalize_etag "\"e1\""), some "\"e1\"")))).1

one-Coherent : Coherent versions one_cached
one-Coherent =
    (Current.get_bytes_current versions all_written nothing_cached "b" "k" "\"e1\"" "\"e1\""
      (inr (refl, refl)) e1-EtagForm e1-EtagForm nothing-Coherent).1

get_bytes_current_example :
    (((get_bytes all_written one_cached "b" "k"
          (ok (some "\"e1\""))
          (ok (some (versions (local_path "b" "k") (normalize_etag "\"e2\""), some "\"e2\"")))).0
        ≡ ok (some (versions (local_path "b" "k") (normalize_etag "\"e1\""))))
      ⊎ ((get_bytes all_written one_cached "b" "k"
            (ok (some "\"e1\""))
            (ok (some (versions (local_path "b" "k") (normalize_etag "\"e2\""), some "\"e2\"")))).0
          ≡ ok (some (versions (local_path "b" "k") (normalize_etag "\"e2\"")))))
    × Coherent versions
        (get_bytes all_written one_cached "b" "k"
          (ok (some "\"e1\""))
          (ok (some (versions (local_path "b" "k") (normalize_etag "\"e2\""), some "\"e2\"")))).1
get_bytes_current_example =
    Current.get_bytes_current versions all_written one_cached "b" "k" "\"e1\"" "\"e2\""
      (inr (refl, refl)) e1-EtagForm e2-EtagForm one-Coherent

get_bytes_again_example :
    get_bytes all_written
      (get_bytes all_written one_cached "b" "k"
        (ok (some "\"e2\""))
        (ok (some (2, some "\"e2\"")))).1
      "b"
      "k"
      (ok (some "\"e2\""))
      (err (message "no connection"))
    ≡ (
      (get_bytes all_written one_cached "b" "k"
          (ok (some "\"e2\""))
          (ok (some (2, some "\"e2\"")))).0,
      (get_bytes all_written one_cached "b" "k"
          (ok (some "\"e2\""))
          (ok (some (2, some "\"e2\"")))).1,
    )
unfolding get_bytes
get_bytes_again_example =
    Torn.get_bytes_again one_cached "b" "k" "\"e2\"" 2 all_written (err (message "no connection"))
      refl e2-EtagForm

abbrev racing : List Turn → Racing ℕ
racing turns = race all_written (local_path "b" "k") 2 "\"e2\"" turns (both_begin one_cached)

read_tears_example :
    let torn = racing (reads ∷ writes ∷ writes ∷ reads ∷ []) in
    let between = racing (writes ∷ reads ∷ reads ∷ writes ∷ []) in
    let in_order = racing (writes ∷ writes ∷ reads ∷ reads ∷ []) in
    (torn.cache ≡ write_local all_written one_cached "b" "k" 2 "\"e2\"")
    × (local_matches_etag (result torn.reader) (some (normalize_etag "\"e2\"")) ≡ some 1)
    × (local_matches_etag (result between.reader) (some (normalize_etag "\"e1\"")) ≡ some 2)
    × (local_matches_etag (result in_order.reader) (some (normalize_etag "\"e2\"")) ≡ some 2)
unfolding get_bytes get
read_tears_example =
    Torn.read_tears one_cached "b" "k" "\"e1\"" "\"e2\"" 1 2 refl e1-EtagForm e2-EtagForm refl refl
