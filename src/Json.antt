-- ===== src/Json.antt =====
-- The JSON values that actions are made of, and `_same_json_action` of src/eslams/arena.py.
pub mod Equality
use e_slams.Prelude.{ℕ, String, Bool, true, false, ◌&&◌, Option, none, some, str_eq, is_some}
use e_slams.Prelude.{if◌then◌else◌}
use e_slams.Prelude.Int.{ℤ, int_eq}

-- A Python float. A finite value is `mantissa * 2 ^ exponent` with an odd mantissa, zero is (0, 0).
pub data Float : Type 0 where
  nan : Float
  infinite : Bool → Float
  finite : (mantissa exponent : ℤ) → Float

mutual
  pub data Json : Type 0 where
    null : Json
    bool : Bool → Json
    int : ℤ → Json
    float : Float → Json
    str : String → Json
    arr : Items → Json
    obj : Fields → Json

  pub data Items : Type 0 where
    nil : Items
    cons : Json → Items → Items

  pub data Fields : Type 0 where
    end : Fields
    field : String → Json → Fields → Fields

-- dict.get(key)
unfoldable pub lookup : String → Fields → Option Json
lookup k end = none
lookup k (field j v fs) = if str_eq j k then some v else lookup k fs

-- Every key of the first dict is a key of the second.
unfoldable pub keys_within : Fields → Fields → Bool
keys_within end gs = true
keys_within (field k v fs) gs = is_some (lookup k gs) && keys_within fs gs

abbrev pub same_bool : Bool → Bool → Bool
same_bool true b = b
same_bool false true = false
same_bool false false = true

-- math.isfinite(left) and left == right
unfoldable pub same_float : Float → Float → Bool
same_float (finite m e) (finite n f) = int_eq m n && int_eq e f
same_float _ _ = false

-- `_same_json_action`: the type test is the pattern, so `true`, 1 and 1.0 differ.
unfoldable mutual
  pub same_json_action : Json → Json → Bool
  same_json_action null null = true
  same_json_action (bool a) (bool b) = same_bool a b
  same_json_action (int a) (int b) = int_eq a b
  same_json_action (float a) (float b) = same_float a b
  same_json_action (str a) (str b) = str_eq a b
  same_json_action (arr xs) (arr ys) = same_items xs ys
  same_json_action (obj fs) (obj gs) = keys_within fs gs && (keys_within gs fs && same_fields fs gs)
  same_json_action _ _ = false

  pub same_items : Items → Items → Bool
  same_items nil nil = true
  same_items (cons x xs) (cons y ys) = same_json_action x y && same_items xs ys
  same_items _ _ = false

  pub same_fields : Fields → Fields → Bool
  same_fields end gs = true
  same_fields (field k v fs) gs =
      (elim (lookup k gs) [ none ↦ false | some w ↦ same_json_action v w ]) && same_fields fs gs
