-- ===== src/Index/FullText/Tokens.antt =====
-- The tokens of a text (src/index/fts_tokenizer.rs).
use Prim.Native.Char.{Char}
use openpuffer.Base.{String, List, [], ◌∷◌, ◌++◌, Bool, true, false, ◌||◌}
use openpuffer.Base.Logic.{if◌then◌else◌}
use openpuffer.Base.Maps.{contains}
use openpuffer.Index.Values.{prefixed}

-- What the code takes of the standard library, of the normalization package and of the stemmer.
pub record TextOps : Type 0 where
  pub nfkc : String → String
  pub is_alphabetic : Char → Bool
  pub is_numeric : Char → Bool
  pub to_lowercase : String → String
  pub stem : String → String

pub record FtsTokenizeOptions : Type 0 where
  pub stem : Bool

abbrev pub stopword_list : List String
stopword_list =
    "a" ∷ "an" ∷ "and" ∷ "are" ∷ "as" ∷ "at" ∷ "be" ∷ "been" ∷ "being" ∷ "but" ∷ "by" ∷ "can"
    ∷ "did" ∷ "do" ∷ "does" ∷ "for" ∷ "from" ∷ "had" ∷ "has" ∷ "have" ∷ "he" ∷ "her" ∷ "him" ∷ "his"
    ∷ "if" ∷ "in" ∷ "into" ∷ "is" ∷ "it" ∷ "its" ∷ "may" ∷ "might" ∷ "must" ∷ "no" ∷ "nor" ∷ "not"
    ∷ "of" ∷ "on" ∷ "or" ∷ "our" ∷ "shall" ∷ "she" ∷ "should" ∷ "so" ∷ "such" ∷ "than" ∷ "that"
    ∷ "the" ∷ "their" ∷ "them" ∷ "then" ∷ "there" ∷ "these" ∷ "they" ∷ "this" ∷ "those" ∷ "to"
    ∷ "too" ∷ "was" ∷ "we" ∷ "were" ∷ "what" ∷ "when" ∷ "where" ∷ "which" ∷ "while" ∷ "who" ∷ "whom"
    ∷ "why" ∷ "will" ∷ "with" ∷ "would" ∷ "you" ∷ "your" ∷ []

abbrev pub empty_text : String → Bool
empty_text String.[] = true
empty_text (String.◌∷◌ c s) = false

module _ (ops : TextOps) (opts : FtsTokenizeOptions) where
  abbrev pub is_token_char : Char → Bool
  is_token_char ch = ops.is_alphabetic ch || ops.is_numeric ch

  -- A term that is empty or a stop word is left out.
  abbrev pub keep_term : List String → String → List String
  keep_term out term =
      if empty_text term || contains stopword_list term then out else out ++ term ∷ []

  unfoldable pub push_token : List String → String → List String
  unfolding contains
  push_token out raw =
      let term = ops.to_lowercase raw in
      if empty_text term || contains stopword_list term
      then out
      else if opts.stem
      then keep_term out (ops.stem term)
      else out ++ term ∷ []

  -- One character, with the tokens so far and the one that is being read.
  unfoldable pub read_char : List String → String → Char → List String × String
  unfolding push_token
  read_char tokens cur ch =
      if is_token_char ch
      then (tokens, prefixed cur (String.◌∷◌ ch String.[]))
      else if empty_text cur
      then (tokens, cur)
      else (push_token tokens cur, String.[])

  unfoldable pub tokenize_from : List String → String → String → List String
  unfolding read_char push_token
  tokenize_from tokens cur String.[] = if empty_text cur then tokens else push_token tokens cur
  tokenize_from tokens cur (String.◌∷◌ ch s) =
      let (tokens', cur') = read_char tokens cur ch in tokenize_from tokens' cur' s

  unfoldable pub tokenize : String → List String
  unfolding tokenize_from
  tokenize text = tokenize_from [] String.[] (ops.nfkc text)
