-- ===== src/Filter/Conditions.antt =====
-- The conditions of conditional writes (src/filter.rs), and what the `In` operator parses to.
use openpuffer.Base.{
  String, ◌≡◌, ◌≢◌, refl, Option, none, some, true, false, ◌||◌, List, [], ◌∷◌, arith, text_eq,
}
use openpuffer.Base.Logic.{ok}
use openpuffer.Base.Lists.{any}
use openpuffer.Wal.Entry.{Document}
use openpuffer.Json
use openpuffer.Json.{Value, Items, elements}
use openpuffer.Filter.Syntax.{
  eq, Numbers, FilterValue, null_value, ref_new, text, float, truth, FilterExpr, every, some_of,
  cmp, FilterExprs, no_exprs, exprs,
}
use openpuffer.Filter.Parse.{from_json_array, eq_each, in_filter, parse_cmp, parse_filter}
use openpuffer.Filter.Eval.{
  resolve_rhs, eval_cmp, eval_filter_with_new, eval_all, eval_any, eval_filter, should_apply_delete,
}

module _ {F : Type 0} where
  -- Every reference to the incoming row replaced by null.
  abbrev pub null_ref : FilterValue F → FilterValue F
  null_ref (ref_new field) = null_value
  null_ref other = other

  mutual
    pub without_refs : FilterExpr F → FilterExpr F
    without_refs (every subs) = every (all_without_refs subs)
    without_refs (some_of subs) = some_of (all_without_refs subs)
    without_refs (cmp field op value) = cmp field op (null_ref value)

    pub all_without_refs : FilterExprs F → FilterExprs F
    all_without_refs no_exprs = no_exprs
    all_without_refs (exprs e es) = exprs (without_refs e) (all_without_refs es)

module _ {N F : Type 0} (num : Numbers N F) where
  resolve-null_ref :
      (value : FilterValue F) (n : Option (Document (Value N)))
      → resolve_rhs num value n true ≡ resolve_rhs num (null_ref value) none false
  unfolding resolve_rhs
  resolve-null_ref (text s) n = refl
  resolve-null_ref (float x) n = refl
  resolve-null_ref (truth b) n = refl
  resolve-null_ref null_value n = refl
  resolve-null_ref (ref_new field) n = refl

  mutual
    unfolding without_refs eval_filter_with_new eval_cmp

    eval-without_refs :
        (e : FilterExpr F) (doc : Document (Value N))
        → eval_filter_with_new num e doc none true
          ≡ eval_filter_with_new num (without_refs e) doc none false
    eval-without_refs (every subs) doc = all-without_refs subs doc
    eval-without_refs (some_of subs) doc = any-without_refs subs doc
    eval-without_refs (cmp field op value) doc = ground (arith, resolve-null_ref value none)

    all-without_refs :
        (es : FilterExprs F) (doc : Document (Value N))
        → eval_all num es doc none true ≡ eval_all num (all_without_refs es) doc none false
    all-without_refs no_exprs doc = refl
    all-without_refs (exprs e es) doc =
        ground (arith, eval-without_refs e doc, all-without_refs es doc)

    any-without_refs :
        (es : FilterExprs F) (doc : Document (Value N))
        → eval_any num es doc none true ≡ eval_any num (all_without_refs es) doc none false
    any-without_refs no_exprs doc = refl
    any-without_refs (exprs e es) doc =
        ground (arith, eval-without_refs e doc, any-without_refs es doc)

  -- A delete condition holds of a stored document exactly if the filter with every reference to the
  -- incoming row replaced by null holds of it.
  pub should_apply_delete-without_refs :
      (e : FilterExpr F) (doc : Document (Value N))
      → should_apply_delete num e (some doc) ≡ eval_filter num (without_refs e) doc
  unfolding should_apply_delete eval_filter
  should_apply_delete-without_refs e doc = eval-without_refs e doc

  eval_any-eq_each :
      (field : String) (values : List (FilterValue F)) (doc : Document (Value N))
      → eval_any num (eq_each num field values) doc none false
        ≡ any (λ v. eval_cmp num doc field eq v none false) values
  unfolding eval_filter_with_new eq_each
  eval_any-eq_each field [] doc = refl
  eval_any-eq_each field (v ∷ vs) doc = ground (arith, eval_any-eq_each field vs doc)

  -- A filter `[field, "In", [..]]` is parsed exactly if its list is not empty and its values are values of
  -- filters, and it holds of a document exactly if the field equals one of them.
  pub parse_filter_in :
      (field : String) (vs : Items N) (more : Items N) (values : List (FilterValue F))
      → text_eq field "And" || text_eq field "and" ≡ false
      → text_eq field "Or" || text_eq field "or" ≡ false
      → from_json_array num (elements vs) ≡ ok values
      → values ≢ []
      → (e : FilterExpr F) × (parse_filter num (
            Json.array (
              Json.cons
                (Json.string field)
                (Json.cons (Json.string "In") (Json.cons (Json.array vs) more))))
          ≡ ok e)
        × ((doc : Document (Value N))
            → eval_filter num e doc ≡ any (λ v. eval_cmp num doc field eq v none false) values)
  unfolding parse_filter parse_cmp eval_filter eval_filter_with_new in_filter eq_each
  parse_filter_in field vs more [] a o h n = absurd (n refl)
  parse_filter_in field vs more (v ∷ values) a o h n = (
    some_of (eq_each num field (v ∷ values)),
    ground arith,
    λ doc. eval_any-eq_each field (v ∷ values) doc,
  )
