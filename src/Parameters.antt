-- ===== src/Parameters.antt =====
-- src/parameters.rs: the values of ROS parameters, and their translation to and from the messages of
-- rcl_interfaces. The type of the 64-bit floats, their equality and their zero are parameters.
pub mod Messages
pub mod Store
use r2r.Prelude.{
  ℕ, List, [], ◌∷◌, Option, none, some, Bool, true, false, ◌==◌, ◌&&◌, not, map, if◌then◌else◌,
}
use Prim.Native.String.{String}
use r2r.Prelude.Texts.{same_text}

-- An `i64` by its 64 bits: the values are copied and compared only.
abbrev pub I64 : Type 0
I64 = ℕ

abbrev pub same_bool : Bool → Bool → Bool
same_bool true b = b
same_bool false b = not b

-- `==` of two `Vec`s.
abbrev pub same_elements : {A : Type 0} → (A → A → Bool) → List A → List A → Bool
same_elements eq [] [] = true
same_elements eq (x ∷ xs) (y ∷ ys) = eq x y && same_elements eq xs ys
same_elements eq [] (y ∷ ys) = false
same_elements eq (x ∷ xs) [] = false

module _ (Double : Type 0) where
  pub data ParameterValue : Type 0 where
    not_set : ParameterValue
    bool : Bool → ParameterValue
    integer : I64 → ParameterValue
    double : Double → ParameterValue
    string : String → ParameterValue
    bool_array : List Bool → ParameterValue
    byte_array : List ℕ → ParameterValue
    integer_array : List I64 → ParameterValue
    double_array : List Double → ParameterValue
    string_array : List String → ParameterValue

  -- `rcl_interfaces::msg::ParameterValue`, in the order of its fields.
  pub record ParameterValueMsg : Type 0 where
    pub type_ : ℕ
    pub bool_value : Bool
    pub integer_value : I64
    pub double_value : Double
    pub string_value : String
    pub byte_array_value : List ℕ
    pub bool_array_value : List Bool
    pub integer_array_value : List I64
    pub double_array_value : List Double
    pub string_array_value : List String

  -- `rcl_variant_t`: each field is a pointer, `none` if it is null. A string that is not UTF-8 is
  -- the inner `none`.
  pub record Variant : Type 0 where
    pub bool_value : Option Bool
    pub integer_value : Option I64
    pub double_value : Option Double
    pub string_value : Option (Option String)
    pub byte_array_value : Option (List ℕ)
    pub bool_array_value : Option (List Bool)
    pub integer_array_value : Option (List I64)
    pub double_array_value : Option (List Double)
    pub string_array_value : Option (List (Option String))

-- `to_str().unwrap_or("")`.
abbrev pub text_or_empty : Option String → String
text_or_empty none = ""
text_or_empty (some s) = s

module _ {Double : Type 0} where
  -- The constructor of the field, if its pointer is not null, and otherwise what comes next.
  abbrev pub or_else :
      {A : Type 0}
      → Option A
      → (A → ParameterValue Double)
      → ParameterValue Double
      → ParameterValue Double
  or_else none f next = next
  or_else (some a) f next = f a

  -- `ParameterValue::from_rcl`.
  unfoldable pub from_rcl : Variant Double → ParameterValue Double
  from_rcl v = or_else v.bool_value bool (
      or_else v.integer_value integer (
        or_else v.double_value double (
          or_else v.string_value (λ s. string (text_or_empty s))
            (or_else v.byte_array_value byte_array (
              or_else v.bool_array_value bool_array (
                or_else v.integer_array_value integer_array (
                  or_else v.double_array_value double_array (
                    or_else v.string_array_value (λ ss. string_array (map text_or_empty ss))
                      not_set))))))))

  -- `ParameterValue::from_parameter_value_msg`.
  unfoldable pub from_parameter_value_msg : ParameterValueMsg Double → ParameterValue Double
  from_parameter_value_msg msg =
      if msg.type_ == 0
      then not_set
      else if msg.type_ == 1
      then bool msg.bool_value
      else if msg.type_ == 2
      then integer msg.integer_value
      else if msg.type_ == 3
      then double msg.double_value
      else if msg.type_ == 4
      then string msg.string_value
      else if msg.type_ == 5
      then byte_array msg.byte_array_value
      else if msg.type_ == 6
      then bool_array msg.bool_array_value
      else if msg.type_ == 7
      then integer_array msg.integer_array_value
      else if msg.type_ == 8
      then double_array msg.double_array_value
      else if msg.type_ == 9
      then string_array msg.string_array_value
      else not_set

  -- The derived `PartialEq`, given that of the floats.
  unfoldable pub same_value :
      (Double → Double → Bool) → ParameterValue Double → ParameterValue Double → Bool
  same_value eq not_set not_set = true
  same_value eq (bool a) (bool b) = same_bool a b
  same_value eq (integer a) (integer b) = a == b
  same_value eq (double a) (double b) = eq a b
  same_value eq (string a) (string b) = same_text a b
  same_value eq (bool_array a) (bool_array b) = same_elements same_bool a b
  same_value eq (byte_array a) (byte_array b) = same_elements (◌==◌) a b
  same_value eq (integer_array a) (integer_array b) = same_elements (◌==◌) a b
  same_value eq (double_array a) (double_array b) = same_elements eq a b
  same_value eq (string_array a) (string_array b) = same_elements same_text a b
  same_value eq _ _ = false

module _ {Double : Type 0} (zero : Double) where
  -- `rcl_interfaces::msg::ParameterValue::default()`.
  abbrev pub default_msg : ParameterValueMsg Double
  default_msg = record {
    type_ = 0;
    bool_value = false;
    integer_value = 0;
    double_value = zero;
    string_value = "";
    byte_array_value = [];
    bool_array_value = [];
    integer_array_value = [];
    double_array_value = [];
    string_array_value = [];
  }

  -- `ParameterValue::to_parameter_value_msg`.
  unfoldable pub to_parameter_value_msg : ParameterValue Double → ParameterValueMsg Double
  to_parameter_value_msg not_set = record default_msg { type_ = 0 }
  to_parameter_value_msg (bool b) = record default_msg { type_ = 1; bool_value = b }
  to_parameter_value_msg (integer i) = record default_msg { type_ = 2; integer_value = i }
  to_parameter_value_msg (double d) = record default_msg { type_ = 3; double_value = d }
  to_parameter_value_msg (string s) = record default_msg { type_ = 4; string_value = s }
  to_parameter_value_msg (byte_array ba) = record default_msg { type_ = 5; byte_array_value = ba }
  to_parameter_value_msg (bool_array ba) = record default_msg { type_ = 6; bool_array_value = ba }
  to_parameter_value_msg (integer_array ia) = record default_msg {
    type_ = 7;
    integer_array_value = ia;
  }
  to_parameter_value_msg (double_array da) = record default_msg {
    type_ = 8;
    double_array_value = da;
  }
  to_parameter_value_msg (string_array sa) = record default_msg {
    type_ = 9;
    string_array_value = sa;
  }
