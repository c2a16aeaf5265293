-- ===== src/Filter/Syntax.antt =====
-- The types of src/filter.rs. Floating point numbers (`f64`) and the numbers of `serde_json` are
-- parameters, with what the filters ask of them.
use openpuffer.Base.{String, Option, Bool}

pub data CmpOp : Type 0 where
  eq ne gt gte lt lte : CmpOp

-- `std::cmp::Ordering`
pub data Order : Type 0 where
  less equal greater : Order

-- `Number::as_f64`, `f64::eq`, `f64::partial_cmp`, the two numbers that stand for a `bool`, and the
-- order of strings.
pub record Numbers (N F : Type 0) : Type 0 where
  pub as_f64 : N → Option F
  pub float_eq : F → F → Bool
  pub partial_cmp : F → F → Option Order
  pub zero_float : F
  pub one_float : F
  pub text_cmp : String → String → Order

pub data FilterValue (F : Type 0) : Type 0 where
  text : String → FilterValue F
  float : F → FilterValue F
  truth : Bool → FilterValue F
  null_value : FilterValue F
  ref_new : String → FilterValue F

mutual
  pub data FilterExpr (F : Type 0) : Type 0 where
    every : FilterExprs F → FilterExpr F
    some_of : FilterExprs F → FilterExpr F
    cmp : String → CmpOp → FilterValue F → FilterExpr F

  pub data FilterExprs (F : Type 0) : Type 0 where
    no_exprs : FilterExprs F
    exprs : FilterExpr F → FilterExprs F → FilterExprs F
