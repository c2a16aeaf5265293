-- ===== src/Index/Values.antt =====
-- The keys of attribute values in the filter index (src/index/filter.rs), and the comparison of a
-- key that was read back.
use Prim.Native.Char.{Char, code}
use package.text.Mathlib.TextLemmas.{head-eq_of_cons-eq, tail-eq_of_cons-eq}
use openpuffer.Base.{
  String, ◌≡◌, ap, sym, ◌∙◌, Option, none, some, Bool, true, false, ◌||◌, arith, text_eq, eq_iff,
  refl, inl, inr,
}
use openpuffer.Base.Logic.{if◌then◌else◌, ◌==◌, Bool-cases}
use openpuffer.Filter.Syntax.{
  CmpOp, gt, gte, lt, lte, Order, Numbers, FilterValue, text, float, truth, null_value, ref_new,
}
use openpuffer.Filter.Eval.{bool_cmp, is_greater, is_less, is_equal, same_value}

-- How `f64` is written and read back by the formatting of the language.
pub record Printing (F : Type 0) : Type 0 where
  pub print_float : F → String
  pub parse_float : String → Option F

-- `format!("{p}{s}")`
abbrev pub prefixed : String → String → String
prefixed String.[] s = s
prefixed (String.◌∷◌ c p) s = String.◌∷◌ c (prefixed p s)

-- `str::strip_prefix`, character by character.
unfoldable pub strip_prefix : String → String → Option String
strip_prefix s String.[] = some s
strip_prefix String.[] (String.◌∷◌ d p) = none
strip_prefix (String.◌∷◌ c s) (String.◌∷◌ d p) = if code c == code d then strip_prefix s p else none

-- `bool` written and read back.
abbrev pub print_bool : Bool → String
print_bool b = if b then "true" else "false"

abbrev pub parse_bool : String → Option Bool
parse_bool s =
    if text_eq s "true" then some true else if text_eq s "false" then some false else none

pub cons_same : (c : Char) (s t : String) → text_eq (String.◌∷◌ c s) (String.◌∷◌ c t) ≡ text_eq s t
cons_same c s t = ground (
  arith,
  eq_iff s t,
  eq_iff (String.◌∷◌ c s) (String.◌∷◌ c t),
  tail-eq_of_cons-eq {x = c} {y = c} {xs = s} {ys = t},
)

cons_differ :
    (c d : Char) (s t : String)
    → code c == code d ≡ false
    → text_eq (String.◌∷◌ c s) (String.◌∷◌ d t) ≡ false
cons_differ c d s t h = elim (Bool-cases (text_eq (String.◌∷◌ c s) (String.◌∷◌ d t))) [
  | inl e ↦
      let q : code c ≡ code d = ap code (head-eq_of_cons-eq ((eq_iff _ _).0 e)) in
      absurd (ground arith)
  | inr e ↦ e
]

module _ {N F : Type 0} (num : Numbers N F) (pr : Printing F) where
  -- The key of a reference to an incoming row is never asked for: the source panics there.
  unfoldable pub value_key : FilterValue F → String
  value_key (text s) = prefixed "s:" s
  value_key (truth b) = prefixed "b:" (print_bool b)
  value_key (float x) = prefixed "n:" (pr.print_float x)
  value_key null_value = "null"
  value_key (ref_new f) = "unreachable"

  unfoldable pub parse_value_key : String → Option (FilterValue F)
  unfolding strip_prefix
  parse_value_key vk = elim (strip_prefix vk "s:") [
    | some s ↦ some (text s)
    | none ↦ elim (strip_prefix vk "b:") [
      | some b ↦ elim (parse_bool b) [ none ↦ none | some t ↦ some (truth t) ]
      | none ↦ elim (strip_prefix vk "n:") [
        | some n ↦ elim (pr.parse_float n) [ none ↦ none | some x ↦ some (float x) ]
        | none ↦ none
      ]
    ]
  ]

  -- A comparison of a key that was read back: only values of one kind compare.
  unfoldable pub key_order : FilterValue F → FilterValue F → Option Order
  unfolding bool_cmp
  key_order (float a) (float b) = num.partial_cmp a b
  key_order (text a) (text b) = some (num.text_cmp a b)
  key_order (truth a) (truth b) = some (bool_cmp a b)
  key_order _ _ = none

  unfoldable pub cmp_values : FilterValue F → FilterValue F → CmpOp → Bool
  unfolding key_order
  cmp_values lhs rhs gt = is_greater num (key_order lhs rhs)
  cmp_values lhs rhs gte = is_greater num (key_order lhs rhs) || is_equal num (key_order lhs rhs)
  cmp_values lhs rhs lt = is_less num (key_order lhs rhs)
  cmp_values lhs rhs lte = is_less num (key_order lhs rhs) || is_equal num (key_order lhs rhs)
  cmp_values lhs rhs _ = false

  -- Values that the attributes of a document have: no null and no reference.
  abbrev pub is_scalar : FilterValue F → Bool
  is_scalar (text s) = true
  is_scalar (float x) = true
  is_scalar (truth b) = true
  is_scalar _ = false

  -- The key of a value reads back as the value, if numbers do.
  pub parse_value_key-value_key :
      (v : FilterValue F)
      → ((x : F) → pr.parse_float (pr.print_float x) ≡ some x)
      → is_scalar v ≡ true
      → parse_value_key (value_key v) ≡ some v
  unfolding parse_value_key value_key strip_prefix
  parse_value_key-value_key (text s) law h = refl
  parse_value_key-value_key (truth true) law h = refl
  parse_value_key-value_key (truth false) law h = refl
  parse_value_key-value_key (float x) law h = ground (arith, law x)
  parse_value_key-value_key null_value law h = absurd (ground arith)
  parse_value_key-value_key (ref_new f) law h = absurd (ground arith)

  -- Two values have the same key exactly if they are equal, if that holds of the numbers.
  pub same_key :
      (v w : FilterValue F)
      → is_scalar v ≡ true
      → is_scalar w ≡ true
      → ((x y : F) → w ≡ float y → num.float_eq x y ≡ text_eq (pr.print_float x) (pr.print_float y))
      → text_eq (value_key v) (value_key w) ≡ same_value num v w
  unfolding value_key same_value
  same_key (text s) (text t) h k e = cons_same "s" _ _ ∙ cons_same ":" s t
  same_key (truth true) (truth true) h k e = refl
  same_key (truth true) (truth false) h k e = refl
  same_key (truth false) (truth true) h k e = refl
  same_key (truth false) (truth false) h k e = refl
  same_key (float x) (float y) h k e =
      cons_same "n" _ _ ∙ cons_same ":" (pr.print_float x) (pr.print_float y) ∙ sym (e x y refl)
  same_key (text s) (truth b) h k e = cons_differ "s" "b" _ _ refl
  same_key (text s) (float y) h k e = cons_differ "s" "n" _ _ refl
  same_key (float x) (text t) h k e = cons_differ "n" "s" _ _ refl
  same_key (float x) (truth b) h k e = cons_differ "n" "b" _ _ refl
  same_key (truth true) (text t) h k e = cons_differ "b" "s" _ _ refl
  same_key (truth false) (text t) h k e = cons_differ "b" "s" _ _ refl
  same_key (truth true) (float y) h k e = cons_differ "b" "n" _ _ refl
  same_key (truth false) (float y) h k e = cons_differ "b" "n" _ _ refl
  same_key null_value w h k e = absurd (ground arith)
  same_key (ref_new f) w h k e = absurd (ground arith)
  same_key v null_value h k e = absurd (ground arith)
  same_key v (ref_new f) h k e = absurd (ground arith)
