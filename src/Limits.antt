-- ===== src/Limits.antt =====
-- The limits of src/limits.rs. A name is the list of its characters, each by its code point; its length
-- in bytes is the number of bytes of its UTF-8 form.
use openpuffer.Base.{
  ℕ, ◌+◌, String, Bool, true, false, ◌||◌, ◌&&◌, ◌≡◌, ◌≤◌, ◌<◌, refl, sym, ap, zero, suc, List, [],
  ◌∷◌, arith, inl, inr,
}
use openpuffer.Base.Logic.{ok, err, if◌then◌else◌, ◌==◌, leb, ltb, Bool-cases}
use openpuffer.Base.Lists.{length, take, is_empty, all, any, length-take}
use openpuffer.Error.{Result, message}

abbrev pub max_namespace_name_len : ℕ
max_namespace_name_len = 128

-- `char::len_utf8`
abbrev pub len_utf8 : ℕ → ℕ
len_utf8 c = if ltb c 128 then 1 else if ltb c 2048 then 2 else if ltb c 65536 then 3 else 4

-- `str::len`
abbrev pub byte_len : List ℕ → ℕ
byte_len [] = 0
byte_len (c ∷ cs) = len_utf8 c + byte_len cs

unfoldable pub is_ascii_alphanumeric : ℕ → Bool
is_ascii_alphanumeric c = leb 48 c && leb c 57 || leb 65 c && leb c 90 || leb 97 c && leb c 122

-- A letter, a digit, `-`, `_` or `.`.
unfoldable pub namespace_name_char_ok : ℕ → Bool
unfolding is_ascii_alphanumeric
namespace_name_char_ok c = is_ascii_alphanumeric c || c == 45 || c == 95 || c == 46

unfoldable pub validate_namespace_name : List ℕ → Result (Unit {0})
unfolding namespace_name_char_ok
validate_namespace_name name =
    if is_empty name
    then err (message "namespace name must not be empty")
    else if ltb max_namespace_name_len (byte_len name)
    then err (message "namespace name exceeds maximum length")
    else if all namespace_name_char_ok name
    then ok tt
    else err (message "namespace name must match [A-Za-z0-9-_.]{1,128}")

-- `char::is_control`: general category `Cc`.
abbrev pub is_control : ℕ → Bool
is_control c = ltb c 32 || leb 127 c && leb c 159

-- `segment.contains("..")`, and the same for `//`: the character twice in a row.
unfoldable pub has_twice : ℕ → List ℕ → Bool
has_twice x [] = false
has_twice x (a ∷ []) = false
has_twice x (a ∷ b ∷ cs) = a == x && b == x || has_twice x (b ∷ cs)

abbrev pub has_char : ℕ → List ℕ → Bool
has_char x cs = any (λ c. c == x) cs

unfoldable pub validate_s3_path_segment : List ℕ → Result (Unit {0})
unfolding has_twice
validate_s3_path_segment segment =
    if is_empty segment
    then ok tt
    else if has_twice 46 segment
    then err (message "must not contain '..'")
    else if has_char 47 segment || has_char 92 segment
    then err (message "must not contain path separators")
    else if any is_control segment
    then err (message "must not contain control characters")
    else ok tt

-- `openpuffer/`
abbrev pub root_prefix : List ℕ
root_prefix = 111 ∷ 112 ∷ 101 ∷ 110 ∷ 112 ∷ 117 ∷ 102 ∷ 102 ∷ 101 ∷ 114 ∷ 47 ∷ []

-- `str::starts_with`
unfoldable pub starts_with : List ℕ → List ℕ → Bool
starts_with cs [] = true
starts_with [] (p ∷ ps) = false
starts_with (c ∷ cs) (p ∷ ps) = c == p && starts_with cs ps

unfoldable pub validate_s3_object_key : List ℕ → Result (Unit {0})
unfolding has_twice starts_with
validate_s3_object_key key =
    if is_empty key
    then err (message "S3 object key must not be empty")
    else if starts_with key root_prefix
    then (if has_twice 46 key
        then err (message "S3 object key must not contain '..'")
        else if has_char 92 key
        then err (message "S3 object key must not contain backslashes")
        else if has_twice 47 key
        then err (message "S3 object key must not contain empty path segments")
        else ok tt)
    else err (message "S3 object key must start with the root prefix")

-- The ids that are kept, and whether there were more.
unfoldable pub cap_filter_batch : List String → Bool → ℕ → Result (List String × Bool)
cap_filter_batch ids allow_partial max_rows =
    if leb (length ids) max_rows
    then ok (ids, false)
    else if allow_partial
    then ok (take max_rows ids, true)
    else err (message "filter matched too many documents")

all-append :
    (p : ℕ → Bool) (c : ℕ) (cs : List ℕ) → all p (c ∷ cs) ≡ true → (p c ≡ true) × (all p cs ≡ true)
all-append p c cs h = ground arith

no_separator :
    (cs : List ℕ)
    → all namespace_name_char_ok cs ≡ true
    → (has_char 47 cs ≡ false)
      × (has_char 92 cs ≡ false)
      × (any is_control cs ≡ false)
      × (byte_len cs ≡ length cs)
unfolding namespace_name_char_ok is_ascii_alphanumeric
no_separator [] h = (refl, refl, refl, refl)
no_separator (c ∷ cs) h =
    let (a, b, d, e) = no_separator cs (ground arith) in
    (ground arith, ground arith, ground arith, ground arith)

-- A name that is accepted as a namespace has one to 128 characters and no path separator or control
-- character, and it is a valid segment of a path exactly if it has no two dots in a row.
pub validate_namespace_name-safe :
    (name : List ℕ)
    → validate_namespace_name name ≡ ok tt
    → (0 < length name)
      × (length name ≤ 128)
      × (has_char 47 name ≡ false)
      × (has_char 92 name ≡ false)
      × (any is_control name ≡ false)
      × (validate_s3_path_segment name
          ≡ (if has_twice 46 name then err (message "must not contain '..'") else ok tt))
unfolding validate_namespace_name validate_s3_path_segment
validate_namespace_name-safe [] h = absurd (ground arith)
validate_namespace_name-safe (c ∷ cs) h =
    let (a, b, d, e) = no_separator (c ∷ cs) (ground arith) in
    (omega arith, ground arith, a, b, d, ground arith)

take_all : {A : Type 0} (n : ℕ) (xs : List A) → length xs ≤ n → take n xs ≡ xs
take_all zero [] h = refl
take_all zero (x ∷ xs) h = absurd (omega arith)
take_all (suc n) [] h = refl
take_all (suc n) (x ∷ xs) h = ap (◌∷◌ x) (take_all n xs (omega arith))

abbrev pub CapOutcome : List String → Bool → ℕ → Result (List String × Bool) → Type 0
CapOutcome ids allow_partial max_rows (err e) = (max_rows < length ids) × (allow_partial ≡ false)
CapOutcome ids allow_partial max_rows (ok (kept, more)) =
    (kept ≡ take max_rows ids) × (length kept ≤ max_rows) × (more ≡ ltb max_rows (length ids))

-- The ids that a filter batch keeps are the first ones, at most as many as are allowed, and the flag
-- says whether there are more; the batch is refused only if there are more and no part is wanted.
pub cap_filter_batch_outcome :
    (ids : List String) (allow_partial : Bool) (max_rows : ℕ)
    → CapOutcome ids allow_partial max_rows (cap_filter_batch ids allow_partial max_rows)
unfolding cap_filter_batch
cap_filter_batch_outcome ids allow_partial max_rows =
    elim (Bool-cases (leb (length ids) max_rows)) [
      | inl e ↦ rw e (sym (take_all max_rows ids (ground arith)), ground arith, ground arith)
      | inr e ↦ elim (Bool-cases allow_partial) [
        | inl a ↦ rw (e, a) (refl, omega (arith, length-take max_rows ids), ground arith)
        | inr a ↦ rw (e, a) (ground arith, refl)
      ]
    ]
