-- ===== src/Examples/ParametersAt.antt =====
-- src/parameters.rs and the parameters of src/nodes.rs at a few values.
use r2r.Prelude.{ℕ, ◌≡◌, refl, [], ◌∷◌, List, some, none, Bool, true, false, arith, ◌==◌, map}
use Prim.Native.String.{String}
use r2r.Prelude.Texts.{empty_texts}
use r2r.Errors.{rcl_ret_ok, is_ok}
use r2r.Parameters.{
  ParameterValue, ParameterValueMsg, Variant, integer, not_set, same_value, to_parameter_value_msg,
  default_msg,
}
use r2r.Parameters.Store.{
  send_set_response, send_get_response, Env, Store, value_or_unset, set_params,
  handle_set_parameters,
}
use r2r.Parameters.Store.Events.{events_lem, followed, viewed, started, after_set}
use r2r.Parameters.Store.Updates.{success}

abbrev five : ParameterValue ℕ
five = integer 5

abbrev malformed : ParameterValueMsg ℕ
malformed = record (default_msg 0) { type_ = 10; integer_value = 5 }

abbrev env : Env ℕ
env = record {
  ret = λ calls call. rcl_ret_ok;
  alive = λ calls. true;
  same_double = λ a b. a == b;
  zero = 0;
}

abbrev fresh : Store ℕ
fresh = record { params = empty_texts; calls = [] }

abbrev rate : List (String × ParameterValueMsg ℕ)
rate = ("rate", to_parameter_value_msg 0 (integer 5)) ∷ []

abbrev rate_set : Store ℕ
rate_set = record (set_params env rate [] fresh).1 {
  calls = send_set_response (success ∷ []) ∷ (set_params env rate [] fresh).1.calls;
}

abbrev rate_read : Store ℕ
rate_read = record rate_set {
  calls =
      send_get_response
        (map (λ n. to_parameter_value_msg 0 (value_or_unset (rate_set.params n))) ("rate" ∷ []))
      ∷ rate_set.calls;
}

abbrev is_set : ParameterValue ℕ → Bool
is_set not_set = false
is_set _ = true

is_set_same : (v w : ParameterValue ℕ) → same_value env.same_double v w ≡ true → is_set v ≡ is_set w
unfolding same_value
is_set_same v w h = grind (arith, h)

events_lem_example :
    viewed is_set (followed rate_set.calls empty_texts "rate")
    ≡ viewed is_set (rate_set.params "rate")
unfolding handle_set_parameters is_ok
events_lem_example =
    events_lem env is_set is_set_same fresh rate_set refl (after_set rate started refl) "rate"

abbrev speed : Variant ℕ
speed = record {
  bool_value = none;
  integer_value = some 3;
  double_value = none;
  string_value = none;
  byte_array_value = none;
  bool_array_value = none;
  integer_array_value = none;
  double_array_value = none;
  string_array_value = none;
}
