-- ===== src/Index/FullText/Counts.antt =====
-- How often a term stands in a list of tokens, and the postings that `add_document` and `remove_document`
-- of src/index/fts.rs make of it.
use openpuffer.Base.{
  ℕ, zero, suc, ◌+◌, ◌%◌, ◌≡◌, refl, sym, ap, ◌∙◌, String, Option, none, some, List, [], ◌∷◌, ◌++◌,
  not, ◌&&◌, arith, text_eq, eq_iff, inl, inr,
}
use openpuffer.Base.Logic.{if◌then◌else◌, Bool-cases}
use openpuffer.Base.Lists.{is_empty}
use openpuffer.Base.Maps.{StrMap, get, insert, remove, get-insert, get-remove, contains}
use openpuffer.Index.Postings.{or_default, shrink_values, get-shrink_values}
use openpuffer.Index.FullText.Segment.{
  u32_size, Posting, or_zero, count_terms, push_posting, push_postings, retain_others,
}

unfoldable pub occurrences : String → List String → ℕ
occurrences t [] = 0
occurrences t (x ∷ xs) = let n = occurrences t xs in if text_eq x t then suc n else n

-- A count of `n` more, on 32 bits.
abbrev counted : Option ℕ → ℕ → Option ℕ
counted o zero = o
counted o (suc n) = some ((or_zero o + suc n) % u32_size)

counted-counted :
    (o : Option ℕ) (n : ℕ) → counted (some ((or_zero o + 1) % u32_size)) n ≡ counted o (suc n)
counted-counted o zero = refl
counted-counted o (suc n) = ap some (omega arith)

get-count_terms :
    (tf : StrMap ℕ) (ts : List String) (t : String)
    → get (count_terms tf ts) t ≡ counted (get tf t) (occurrences t ts)
unfolding count_terms occurrences
get-count_terms tf [] t = refl
get-count_terms tf (x ∷ xs) t =
    let n = (or_zero (get tf x) + 1) % u32_size in
    let rest = get-count_terms (insert tf x n) xs t in
    elim (Bool-cases (text_eq x t)) [
      | inl e ↦
          let same : x ≡ t = (eq_iff x t).0 e in
          let here : get (insert tf x n) t ≡ some n = rw (get-insert tf x n t, e) refl in
          rest
          ∙ ap (λ o. counted o (occurrences t xs)) here
          ∙ rw (e, same) (counted-counted (get tf t) (occurrences t xs))
      | inr e ↦
          let here : get (insert tf x n) t ≡ get tf t = rw (get-insert tf x n t, e) refl in
          rest ∙ ap (λ o. counted o (occurrences t xs)) here ∙ rw e refl
    ]

abbrev pub one_of {ℓ} : {A : Type ℓ} → Option A → List A
one_of none = []
one_of (some a) = a ∷ []

-- All that a map holds under a key.
unfoldable values_at : StrMap ℕ → String → List ℕ
values_at [] t = []
values_at ((j, v) ∷ m) t = let rest = values_at m t in if text_eq j t then rest ++ v ∷ [] else rest

values_at-remove :
    (m : StrMap ℕ) (k t : String)
    → values_at (remove m k) t ≡ (if text_eq k t then [] else values_at m t)
unfolding values_at remove
values_at-remove [] k t = ground arith
values_at-remove ((j, v) ∷ m) k t =
    ground (arith, values_at-remove m k t, eq_iff j k, eq_iff j t, eq_iff k t)

-- A map holds at most one value under a key.
abbrev Single : StrMap ℕ → Type 0
Single m = (t : String) → values_at m t ≡ one_of (get m t)

Single-insert : (m : StrMap ℕ) (k : String) (v : ℕ) → Single m → Single (insert m k v)
unfolding insert values_at get
Single-insert m k v s t = elim (Bool-cases (text_eq k t)) [
  | inl e ↦ rw (e, values_at-remove m k t, e) refl
  | inr e ↦ rw (e, values_at-remove m k t, get-remove m k t, e) (s t)
]

Single-count_terms : (tf : StrMap ℕ) (ts : List String) → Single tf → Single (count_terms tf ts)
unfolding count_terms
Single-count_terms tf [] s = s
Single-count_terms tf (t ∷ ts) s =
    let n = (or_zero (get tf t) + 1) % u32_size in
    Single-count_terms (insert tf t n) ts (Single-insert tf t n s)

-- The frequencies that a list of postings has for a document.
unfoldable pub freqs : List Posting → String → List ℕ
freqs [] k = []
freqs (p ∷ ps) k = let rest = freqs ps k in if text_eq p.doc_id k then p.term_freq ∷ rest else rest

abbrev pub freqs_at : StrMap (List Posting) → String → String → List ℕ
freqs_at ps t k = freqs (or_default (get ps t)) k

freqs-append : (xs ys : List Posting) (k : String) → freqs (xs ++ ys) k ≡ freqs xs k ++ freqs ys k
unfolding freqs
freqs-append [] ys k = refl
freqs-append (x ∷ xs) ys k = ground (arith, freqs-append xs ys k)

freqs-retain_others :
    (id : String) (ps : List Posting) (k : String)
    → freqs (retain_others id ps) k ≡ (if text_eq id k then [] else freqs ps k)
unfolding freqs retain_others
freqs-retain_others id [] k = ground arith
freqs-retain_others id (p ∷ ps) k =
    ground (arith, freqs-retain_others id ps k, eq_iff p.doc_id id, eq_iff p.doc_id k, eq_iff id k)

-- Without the postings of a document.
pub freqs_at-shrink_values :
    (id : String) (ps : StrMap (List Posting)) (t k : String)
    → freqs_at (shrink_values (retain_others id) ps) t k
      ≡ (if text_eq id k then [] else freqs_at ps t k)
unfolding retain_others
freqs_at-shrink_values id ps t k =
    ap (λ l. freqs l k) (get-shrink_values (retain_others id) ps t refl)
    ∙ freqs-retain_others id (or_default (get ps t)) k

append_assoc : {A : Type 0} (xs ys zs : List A) → (xs ++ ys) ++ zs ≡ xs ++ (ys ++ zs)
append_assoc [] ys zs = refl
append_assoc (x ∷ xs) ys zs = ap (◌∷◌ x) (append_assoc xs ys zs)

append_nil : {A : Type 0} (xs : List A) → xs ++ [] ≡ xs
append_nil [] = refl
append_nil (x ∷ xs) = ap (◌∷◌ x) (append_nil xs)

freqs_at-push_posting :
    (ps : StrMap (List Posting)) (term id : String) (n : ℕ) (t k : String)
    → freqs_at (push_posting ps term (record { doc_id = id; term_freq = n })) t k
      ≡ freqs_at ps t k ++ (if text_eq term t && text_eq id k then n ∷ [] else [])
unfolding push_posting freqs
freqs_at-push_posting ps term id n t k =
    let p : Posting = record { doc_id = id; term_freq = n } in
    elim (Bool-cases (text_eq term t)) [
      | inl e ↦
          let same : term ≡ t = (eq_iff term t).0 e in
          rw (get-insert ps term (or_default (get ps term) ++ p ∷ []) t, e, same)
            (freqs-append (or_default (get ps t)) (p ∷ []) k)
      | inr e ↦
          rw (get-insert ps term (or_default (get ps term) ++ p ∷ []) t, e)
            (sym (append_nil (freqs_at ps t k)))
    ]

freqs_at-push_postings :
    (ps : StrMap (List Posting)) (id : String) (m : StrMap ℕ) (t k : String)
    → freqs_at (push_postings ps id m) t k
      ≡ freqs_at ps t k ++ (if text_eq id k then values_at m t else [])
unfolding push_postings values_at
freqs_at-push_postings ps id [] t k = sym (append_nil (freqs_at ps t k)) ∙ ground arith
freqs_at-push_postings ps id ((term, n) ∷ m) t k =
    let rest = freqs_at-push_postings ps id m t k in
    freqs_at-push_posting (push_postings ps id m) term id n t k
    ∙ ap (λ l. l ++ (if text_eq term t && text_eq id k then n ∷ [] else [])) rest
    ∙ append_assoc (freqs_at ps t k) (if text_eq id k then values_at m t else [])
        (if text_eq term t && text_eq id k then n ∷ [] else [])
    ∙ ap (λ l. freqs_at ps t k ++ l) (ground (arith, append_nil (values_at m t)))

-- The frequency of a term that stands `n` times in a text.
abbrev pub frequency : ℕ → List ℕ
frequency zero = []
frequency (suc n) = suc n % u32_size ∷ []

one_of-counted : (n : ℕ) → one_of (counted none n) ≡ frequency n
one_of-counted zero = refl
one_of-counted (suc n) =
    let same : 0 + suc n ≡ suc n = omega arith in ap (λ x. x % u32_size ∷ []) same

-- With the postings of a document.
pub freqs_at-add :
    (ps : StrMap (List Posting)) (id : String) (tokens : List String) (t k : String)
    → freqs_at (push_postings ps id (count_terms [] tokens)) t k
      ≡ freqs_at ps t k ++ (if text_eq id k then frequency (occurrences t tokens) else [])
unfolding get values_at
freqs_at-add ps id tokens t k =
    let counts = count_terms [] tokens in
    let at_t : values_at counts t ≡ frequency (occurrences t tokens) =
      Single-count_terms [] tokens (λ x. refl) t
      ∙ ap one_of (get-count_terms [] tokens t)
      ∙ one_of-counted (occurrences t tokens) in
    freqs_at-push_postings ps id counts t k
    ∙ ap (λ l. freqs_at ps t k ++ (if text_eq id k then l else [])) at_t

-- A document has a frequency of a term where the term stands in its text.
pub frequency-contains :
    (t : String) (tokens : List String)
    → not (is_empty (frequency (occurrences t tokens))) ≡ contains tokens t
unfolding occurrences contains
frequency-contains t [] = refl
frequency-contains t (x ∷ xs) = ground (arith, frequency-contains t xs)
