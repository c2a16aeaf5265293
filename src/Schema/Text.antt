-- ===== src/Schema/Text.antt =====
-- The operations on text that src/schema.rs takes from the standard library.
use Prim.Native.Char.{Char, char, code, nul}
use Prim.Native.Nat.{Ordering, compare}
use package.text.Mathlib.Text.{find?}
use openpuffer.Base.{ℕ, ◌+◌, ◌-◌, ◌*◌, ◌^◌, String, ◌≡◌, refl, Option, none, some, Bool, ◌||◌, ◌&&◌}
use openpuffer.Base.Logic.{if◌then◌else◌, ltb, leb, ◌==◌}
use openpuffer.Base.Maps.{is_some}

-- The character with a code below the surrogates.
abbrev char_below : (n : ℕ) (o : Ordering) → compare n 55296 ≡ o → Char
char_below n Ordering.lt e = char n (rw e tt)
char_below n _ e = nul

abbrev lower_char : Char → Char
lower_char c =
    let n = code c + 32 in
    if leb 65 (code c) && leb (code c) 90 then char_below n (compare n 55296) refl else c

-- `str::to_ascii_lowercase`
unfoldable pub to_ascii_lowercase : String → String
to_ascii_lowercase String.[] = String.[]
to_ascii_lowercase (String.◌∷◌ c s) = String.◌∷◌ (lower_char c) (to_ascii_lowercase s)

-- `str::contains`
abbrev pub has_text : String → String → Bool
has_text s t = is_some (find? s t)

abbrev between : ℕ → ℕ → Char → Bool
between lo hi c = leb lo (code c) && leb (code c) hi

-- `char::is_whitespace`
abbrev is_whitespace : Char → Bool
is_whitespace c =
    between 9 13 c
    || code c == 32
    || code c == 133
    || code c == 160
    || code c == 5760
    || between 8192 8202 c
    || between 8232 8233 c
    || code c == 8239
    || code c == 8287
    || code c == 12288

unfoldable trim_start : String → String
trim_start String.[] = String.[]
trim_start (String.◌∷◌ c s) =
    let rest = trim_start s in if is_whitespace c then rest else String.◌∷◌ c s

abbrev unless_blank : Char → String → String
unless_blank c String.[] = if is_whitespace c then String.[] else String.◌∷◌ c String.[]
unless_blank c (String.◌∷◌ d s) = String.◌∷◌ c (String.◌∷◌ d s)

unfoldable trim_end : String → String
trim_end String.[] = String.[]
trim_end (String.◌∷◌ c s) = unless_blank c (trim_end s)

-- `str::trim`
unfoldable pub trim : String → String
unfolding trim_start trim_end
trim s = trim_start (trim_end s)

-- `str::split_once` at a character.
unfoldable pub split_once : String → Char → Option (String × String)
split_once String.[] d = none
split_once (String.◌∷◌ c s) d =
    let rest = split_once s d in
    if code c == code d
    then some (String.[], s)
    else (elim rest [ none ↦ none | some (a, b) ↦ some (String.◌∷◌ c a, b) ])

-- `s.strip_prefix('[')`
abbrev pub strip_bracket : String → Option String
strip_bracket String.[] = none
strip_bracket (String.◌∷◌ c s) = if code c == 91 then some s else none

-- The digits of a number below `2 ^ 32`, after the number read so far.
unfoldable digits_from : ℕ → String → Option ℕ
digits_from n String.[] = some n
digits_from n (String.◌∷◌ c s) =
    let n' = n * 10 + (code c - 48) in
    let rest = digits_from n' s in
    if leb 48 (code c) && leb (code c) 57 && ltb n' (2 ^ 32) then rest else none

-- `str::parse::<u32>`, which takes a leading plus sign.
unfoldable pub parse_u32 : String → Option ℕ
unfolding digits_from
parse_u32 String.[] = none
parse_u32 (String.◌∷◌ c String.[]) = digits_from 0 (String.◌∷◌ c String.[])
parse_u32 (String.◌∷◌ c (String.◌∷◌ d s)) =
    if code c == 43
    then digits_from 0 (String.◌∷◌ d s)
    else digits_from 0 (String.◌∷◌ c (String.◌∷◌ d s))

lowercase_runs : to_ascii_lowercase "[128]F32" ≡ "[128]f32"
unfolding to_ascii_lowercase
lowercase_runs = refl

trim_runs : trim "  a b " ≡ "a b"
unfolding trim
trim_runs = refl

parse_u32_runs : (parse_u32 "4294967296" ≡ none) × (parse_u32 "+128" ≡ some 128)
unfolding parse_u32
parse_u32_runs = (refl, refl)
