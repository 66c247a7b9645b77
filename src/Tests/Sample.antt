-- ===== src/Tests/Sample.antt =====
-- Inputs for the runs: a JSON document type with its accessors, natural numbers
-- as floats, and the notifications of a boat.
use espos_p4_cockpit.Prelude.{
  ℕ, String, Bool, true, false, List, [], ◌∷◌, Option, none, some, ltb, leb, ◌==◌, ◌=s◌,
  if◌then◌else◌, arith,
}
use espos_p4_cockpit.Json.{JsonLib}
use espos_p4_cockpit.Float.{FloatLib, IsOrdered}
use espos_p4_cockpit.Notifications.{alarm, Notification, Registry, empty_registry}

mutual
  pub data Value : Type 0 where
    object : Members → Value
    array : Elements → Value
    str : String → Value
    num : ℕ → Value
    null : Value

  pub data Members : Type 0 where
    field : String → Value → Members → Members
    closed : Members

  pub data Elements : Type 0 where
    item : Value → Elements → Elements
    nothing_more : Elements

abbrev field_of : Members → String → Value
field_of closed key = null
field_of (field k v fs) key = if k =s key then v else field_of fs key

abbrev items_of : Elements → List Value
items_of nothing_more = []
items_of (item v vs) = v ∷ items_of vs

abbrev pub member_of : Value → String → Value
member_of (object fs) key = field_of fs key
member_of _ key = null

abbrev pub elements_of : Value → List Value
elements_of (array vs) = items_of vs
elements_of _ = []

abbrev pub text_of : Value → Option String
text_of (str s) = some s
text_of _ = none

abbrev pub number_of : Value → Option ℕ
number_of (num n) = some n
number_of _ = none

abbrev pub is_null_value : Value → Bool
is_null_value null = true
is_null_value _ = false

abbrev pub json : JsonLib
json = record {
  Json = Value;
  deserialize = λ s. some (str s);
  is_null = is_null_value;
  member = member_of;
  elements = elements_of;
  text = text_of;
  number = number_of;
  truth = λ v. none;
}

abbrev pub naturals : FloatLib
naturals = record { Float = ℕ; lt = ltb; le = leb; eq = ◌==◌; minus_huge = 0; huge = 1000 }

pub naturals-IsOrdered : IsOrdered naturals
naturals-IsOrdered = record {
  le_total = λ a b. ground arith;
  le_trans = λ a b c h k. ground arith;
  lt_not_le = λ a b. ground arith;
  eq_both = λ a b. ground arith;
}

-- A delta of the server, with the sound method or without.
abbrev pub delta_of : String → Value
delta_of state = object (field "state" (str state) (field "message" (str "water") closed))

abbrev pub loud_delta : String → Value
loud_delta state = object (
    field "state" (str state) (
      field "message" (str "water")
        (field "method" (array (item (str "sound") nothing_more)) closed)))

abbrev pub bilge : Notification
bilge = record { path = "bilge"; message = "water"; state = alarm; wants_sound = false }

-- The registry with one alarm in it.
abbrev pub flooded : Registry
flooded = record empty_registry { map = ("bilge", bilge) ∷ [] }

-- A layout of one screen with one widget.
abbrev pub layout : Value
layout = object (
    field "schema" (num 1) (
      field "screens"
        (array (
          item
            (object (
              field "id" (str "main") (
                field "widgets"
                  (array (
                    item
                      (object (
                        field "id" (str "a")
                          (field "type" (str "label") (field "bind" (str "depth") closed))))
                      nothing_more))
                  closed)))
            nothing_more))
        closed))
