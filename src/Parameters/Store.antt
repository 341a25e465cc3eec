-- ===== src/Parameters/Store.antt =====
-- The parameters of a node of src/nodes.rs: the handlers of the two services that
-- `make_parameter_handler` creates, and `load_params`.
pub mod Updates
pub mod Events
pub mod Getting
use r2r.Prelude.{
  ℕ, List, [], ◌∷◌, ◌++◌, Option, none, some, Bool, true, false, if◌then◌else◌, map, not, ◌||◌,
}
use Prim.Native.String.{String}
use r2r.Prelude.Texts.{same_text, TextMap, insert_text}
use r2r.Errors.{Ret, rcl, Result, ok, err, panic, is_ok, ◌>>=◌}
use r2r.Services.{respond}
use r2r.Parameters.{
  ParameterValue, ParameterValueMsg, Variant, not_set, from_rcl, from_parameter_value_msg,
  to_parameter_value_msg, same_value, text_or_empty,
}

-- `rcl_interfaces::msg::SetParametersResult`.
pub record SetParametersResult : Type 0 where
  pub successful : Bool
  pub reason : String

module _ (Double : Type 0) where
  pub data Call : Type 0 where
    -- `try_send` on the stream of parameter events; a failure is only printed
    offer_event : String → ParameterValue Double → Call
    send_set_response : List SetParametersResult → Call
    send_get_response : List (ParameterValueMsg Double) → Call

  pub record Env : Type 0 where
    pub ret : List Call → Call → Ret
    -- whether the node still owns the service
    pub alive : List Call → Bool
    -- `==` of `f64`, and 0.0
    pub same_double : Double → Double → Bool
    pub zero : Double

  -- What the closures of the handlers share, and the calls that were made.
  pub record Store : Type 0 where
    pub params : TextMap (ParameterValue Double)
    pub calls : List Call

-- `expect` on what `respond` returns.
abbrev pub expect : {A : Type 0} → Result (Unit {0}) → A → Result A
expect (ok tt) a = ok a
expect (err e) a = panic
expect panic a = panic

-- The value that is sent for a name.
abbrev pub value_or_unset :
    {Double : Type 0} → Option (ParameterValue Double) → ParameterValue Double
value_or_unset none = not_set
value_or_unset (some v) = v

module _ {Double : Type 0} (env : Env Double) where
  -- `get(..).and_then(|v| Some(v != &val)).unwrap_or(true)`.
  unfoldable pub changed : Option (ParameterValue Double) → ParameterValue Double → Bool
  changed none val = true
  changed (some v) val = not (same_value env.same_double v val)

  -- One round of the loop of `set_params_future`.
  unfoldable pub set_param : String × ParameterValueMsg Double → Store Double → Store Double
  unfolding changed
  set_param (name, value) s =
      let val = from_parameter_value_msg value in
      record s {
        params = insert_text name val s.params;
        calls = if changed (s.params name) val then offer_event name val ∷ s.calls else s.calls;
      }

  -- The loop of `set_params_future`: the results are pushed to `results`.
  unfoldable pub set_params :
      List (String × ParameterValueMsg Double)
      → List SetParametersResult
      → Store Double
      → List SetParametersResult × Store Double
  unfolding set_param
  set_params [] results s = (results, s)
  set_params (p ∷ ps) results s =
      set_params ps (results ++ record { successful = true; reason = "" } ∷ []) (set_param p s)

  -- The closure of `set_params_future`.
  unfoldable pub handle_set_parameters :
      List (String × ParameterValueMsg Double) → Store Double → Result (Store Double)
  unfolding set_params respond
  handle_set_parameters parameters s =
      let (results, s') = set_params parameters [] s in
      let (r, calls) = respond env.ret (env.alive s'.calls) (send_set_response results) s'.calls in
      expect r (record s' { calls = calls })

  -- The closure of `get_params_future`.
  unfoldable pub handle_get_parameters : List String → Store Double → Result (Store Double)
  unfolding respond to_parameter_value_msg
  handle_get_parameters names s =
      let values = map (λ n. to_parameter_value_msg env.zero (value_or_unset (s.params n))) names in
      let (r, calls) = respond env.ret (env.alive s.calls) (send_get_response values) s.calls in
      expect r (record s { calls = calls })

-- Whether an entry of the parameter file is for the node.
unfoldable pub is_for_node : (qualified_name name node_name : String) → Bool
is_for_node qualified_name name node_name =
    same_text node_name "/**"
    || same_text node_name "**"
    || same_text qualified_name node_name
    || same_text name node_name

module _ {Double : Type 0} where
  -- The loop of `load_params` over the parameters of one node.
  unfoldable pub load_values :
      List (Option String × Variant Double)
      → TextMap (ParameterValue Double)
      → TextMap (ParameterValue Double)
  unfolding from_rcl
  load_values [] params = params
  load_values ((s, v) ∷ rest) params =
      load_values rest (insert_text (text_or_empty s) (from_rcl v) params)

  -- The loop of `load_params` over the nodes.
  unfoldable pub load_nodes :
      (qualified_name name : String)
      → List (Option String × List (Option String × Variant Double))
      → TextMap (ParameterValue Double)
      → TextMap (ParameterValue Double)
  unfolding is_for_node load_values
  load_nodes qualified_name name [] params = params
  load_nodes qualified_name name ((nn, np) ∷ rest) params =
      if is_for_node qualified_name name (text_or_empty nn)
      then load_nodes qualified_name name rest (load_values np params)
      else load_nodes qualified_name name rest params

  -- `load_params`: `ret` and `overrides` are what `rcl_arguments_get_param_overrides` answers and
  -- writes (`none` for a null pointer), and the names are those that the node has.
  unfoldable pub load_params :
      (ret : Ret)
      → (overrides : Option (List (Option String × List (Option String × Variant Double))))
      → (qualified_name name : Result String) → TextMap (ParameterValue Double)
      → Result (TextMap (ParameterValue Double))
  unfolding load_nodes
  load_params ret overrides qualified_name name params =
      if is_ok ret
      then elim overrides [
        | none ↦ ok params
        | some nodes ↦ do q ← qualified_name; n ← name; ok (load_nodes q n nodes params)
      ]
      else err (rcl ret)
