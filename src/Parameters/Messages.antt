-- ===== src/Parameters/Messages.antt =====
-- The translation of parameter values of src/parameters.rs to messages and back.
use r2r.Prelude.{◌≡◌, ◌≤◌, ◌⊎◌, inl, inr, refl, arith, ltb, if◌then◌else◌}
use r2r.Parameters.{
  ParameterValue, not_set, bool, integer, double, string, byte_array, bool_array, integer_array,
  double_array, string_array, ParameterValueMsg, from_parameter_value_msg, to_parameter_value_msg,
}

module _ {Double : Type 0} where
  -- The message stands for the value, as rcl_interfaces documents it: the type is the number of the
  -- kind, from PARAMETER_NOT_SET to PARAMETER_STRING_ARRAY, and the value is in the field of the
  -- kind. A type that is none of them says as much as PARAMETER_NOT_SET.
  abbrev pub IsMsgOf : ParameterValue Double → ParameterValueMsg Double → Type 0
  IsMsgOf not_set m = (m.type_ ≡ 0) ⊎ (10 ≤ m.type_)
  IsMsgOf (bool x) m = (m.type_ ≡ 1) × (m.bool_value ≡ x)
  IsMsgOf (integer x) m = (m.type_ ≡ 2) × (m.integer_value ≡ x)
  IsMsgOf (double x) m = (m.type_ ≡ 3) × (m.double_value ≡ x)
  IsMsgOf (string x) m = (m.type_ ≡ 4) × (m.string_value ≡ x)
  IsMsgOf (byte_array x) m = (m.type_ ≡ 5) × (m.byte_array_value ≡ x)
  IsMsgOf (bool_array x) m = (m.type_ ≡ 6) × (m.bool_array_value ≡ x)
  IsMsgOf (integer_array x) m = (m.type_ ≡ 7) × (m.integer_array_value ≡ x)
  IsMsgOf (double_array x) m = (m.type_ ≡ 8) × (m.double_array_value ≡ x)
  IsMsgOf (string_array x) m = (m.type_ ≡ 9) × (m.string_array_value ≡ x)

  pub from-IsMsgOf :
      (v : ParameterValue Double) (m : ParameterValueMsg Double)
      → IsMsgOf v m
      → from_parameter_value_msg m ≡ v
  unfolding from_parameter_value_msg
  from-IsMsgOf not_set m (inl t) = rw (from_parameter_value_msg, t) refl
  from-IsMsgOf not_set m (inr t) = ground (arith, t)
  from-IsMsgOf (bool x) m (t, e) = rw (from_parameter_value_msg, t, e) refl
  from-IsMsgOf (integer x) m (t, e) = rw (from_parameter_value_msg, t, e) refl
  from-IsMsgOf (double x) m (t, e) = rw (from_parameter_value_msg, t, e) refl
  from-IsMsgOf (string x) m (t, e) = rw (from_parameter_value_msg, t, e) refl
  from-IsMsgOf (byte_array x) m (t, e) = rw (from_parameter_value_msg, t, e) refl
  from-IsMsgOf (bool_array x) m (t, e) = rw (from_parameter_value_msg, t, e) refl
  from-IsMsgOf (integer_array x) m (t, e) = rw (from_parameter_value_msg, t, e) refl
  from-IsMsgOf (double_array x) m (t, e) = rw (from_parameter_value_msg, t, e) refl
  from-IsMsgOf (string_array x) m (t, e) = rw (from_parameter_value_msg, t, e) refl

module _ {Double : Type 0} (zero : Double) where
  pub to-IsMsgOf : (v : ParameterValue Double) → IsMsgOf v (to_parameter_value_msg zero v)
  unfolding to_parameter_value_msg
  to-IsMsgOf not_set = inl refl
  to-IsMsgOf (bool x) = (refl, refl)
  to-IsMsgOf (integer x) = (refl, refl)
  to-IsMsgOf (double x) = (refl, refl)
  to-IsMsgOf (string x) = (refl, refl)
  to-IsMsgOf (byte_array x) = (refl, refl)
  to-IsMsgOf (bool_array x) = (refl, refl)
  to-IsMsgOf (integer_array x) = (refl, refl)
  to-IsMsgOf (double_array x) = (refl, refl)
  to-IsMsgOf (string_array x) = (refl, refl)

  -- A value that was put in a message is read from it unchanged.
  pub from_parameter_value_msg-to_parameter_value_msg :
      (v : ParameterValue Double) → from_parameter_value_msg (to_parameter_value_msg zero v) ≡ v
  unfolding from_parameter_value_msg to_parameter_value_msg
  from_parameter_value_msg-to_parameter_value_msg not_set = refl
  from_parameter_value_msg-to_parameter_value_msg (bool x) = refl
  from_parameter_value_msg-to_parameter_value_msg (integer x) = refl
  from_parameter_value_msg-to_parameter_value_msg (double x) = refl
  from_parameter_value_msg-to_parameter_value_msg (string x) = refl
  from_parameter_value_msg-to_parameter_value_msg (byte_array x) = refl
  from_parameter_value_msg-to_parameter_value_msg (bool_array x) = refl
  from_parameter_value_msg-to_parameter_value_msg (integer_array x) = refl
  from_parameter_value_msg-to_parameter_value_msg (double_array x) = refl
  from_parameter_value_msg-to_parameter_value_msg (string_array x) = refl

  -- Reading a message and writing it again keeps its type if that is one of the ten types, and
  -- gives the message of an unset parameter otherwise; doing so twice is doing so once.
  pub normalised_message :
      (msg : ParameterValueMsg Double)
      → let again = to_parameter_value_msg zero (from_parameter_value_msg msg) in
        (again.type_ ≡ (if ltb msg.type_ 10 then msg.type_ else 0))
        × (to_parameter_value_msg zero (from_parameter_value_msg again) ≡ again)
  unfolding from_parameter_value_msg to_parameter_value_msg
  normalised_message msg = ground arith
