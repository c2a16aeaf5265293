-- ===== src/Json.antt =====
-- `serde_json::Value`. A number (`serde_json::Number`) is a type parameter: what the program asks of
-- it is a parameter where it asks. An object is the list of its members.
use mathlib.Core.Option.{Option, none, some}
use openpuffer.Base.{String, List, [], ◌∷◌, Bool, text_eq}
use openpuffer.Base.Logic.{if◌then◌else◌}

mutual
  pub data Value (N : Type 0) : Type 0 where
    null : Value N
    bool : Bool → Value N
    number : N → Value N
    string : String → Value N
    array : Items N → Value N
    object : Fields N → Value N

  pub data Items (N : Type 0) : Type 0 where
    nil : Items N
    cons : Value N → Items N → Items N

  pub data Fields (N : Type 0) : Type 0 where
    end : Fields N
    field : String → Value N → Fields N → Fields N

module _ {N : Type 0} where
  abbrev pub elements : Items N → List (Value N)
  elements nil = []
  elements (cons v vs) = v ∷ elements vs

  -- `Map::get`
  unfoldable pub member : Fields N → String → Option (Value N)
  member end k = none
  member (field j v m) k = if text_eq j k then some v else member m k

  abbrev pub as_str : Value N → Option String
  as_str (string s) = some s
  as_str _ = none

  abbrev pub as_bool : Value N → Option Bool
  as_bool (bool b) = some b
  as_bool _ = none

  abbrev pub as_object : Value N → Option (Fields N)
  as_object (object m) = some m
  as_object _ = none

  abbrev pub as_array : Value N → Option (List (Value N))
  as_array (array vs) = some (elements vs)
  as_array _ = none

  unfoldable pub without : Fields N → String → Fields N
  without end k = end
  without (field j v m) k = let rest = without m k in if text_eq j k then rest else field j v rest

  -- `Map::insert`
  unfoldable pub set_member : Fields N → String → Value N → Fields N
  unfolding without
  set_member m k v = field k v (without m k)
