-- ===== src/Parameters/Store/Updates.antt =====
-- What is in the parameters of a node of src/nodes.rs after they were set, or loaded from a file.
use r2r.Prelude.{
  ℕ, zero, suc, ◌≡◌, refl, sym, ◌∙◌, List, [], ◌∷◌, ◌++◌, Option, some, true, arith, if◌then◌else◌,
  map, length, Bool-cases, inl, inr,
}
use Prim.Native.String.{String}
use mathlib.Core.List.{append_assoc, append-nil}
use r2r.Prelude.Texts.{same_text, TextMap}
use r2r.Errors.{ok, is_ok}
use r2r.Services.{respond}
use r2r.Parameters.{
  ParameterValue, ParameterValueMsg, Variant, from_rcl, from_parameter_value_msg, text_or_empty,
}
use r2r.Parameters.Store.{
  send_set_response, SetParametersResult, Env, Store, set_param, set_params, handle_set_parameters,
  load_values, is_for_node, load_nodes,
}

-- The value that a list of assignments gives to a name, or the one that it had.
abbrev pub assigned {ℓ} : {V : Type ℓ} → String → List (String × V) → Option V → Option V
assigned q [] old = old
assigned q ((k, v) ∷ ps) old = assigned q ps (if same_text k q then some v else old)

abbrev pub repeated {ℓ} : {A : Type ℓ} → ℕ → A → List A
repeated zero a = []
repeated (suc n) a = a ∷ repeated n a

abbrev pub success : SetParametersResult
success = record { successful = true; reason = "" }

module _ {Double : Type 0} (env : Env Double) where
  abbrev pub read : List (String × ParameterValueMsg Double) → List (String × ParameterValue Double)
  read = map (λ (p : String × ParameterValueMsg Double). (p.0, from_parameter_value_msg p.1))

  pub params-set_params :
      (ps : List (String × ParameterValueMsg Double)) (results : List SetParametersResult)
      (s : Store Double) (q : String)
      → (set_params env ps results s).1.params q ≡ assigned q (read ps) (s.params q)
  unfolding set_params set_param
  params-set_params [] results s q = refl
  params-set_params (p ∷ ps) results s q = params-set_params ps _ _ q

  results-set_params :
      (ps : List (String × ParameterValueMsg Double)) (results : List SetParametersResult)
      (s : Store Double)
      → (set_params env ps results s).0 ≡ results ++ repeated (length ps) success
  unfolding set_params
  results-set_params [] results s = sym (append-nil results)
  results-set_params (p ∷ ps) results s =
      results-set_params ps _ _ ∙ append_assoc results (success ∷ []) _

  pub handled :
      (ps : List (String × ParameterValueMsg Double)) (s s' : Store Double)
      → handle_set_parameters env ps s ≡ ok s'
      → let (results, s1) = set_params env ps [] s in
        s' ≡ record s1 { calls = send_set_response results ∷ s1.calls }
  unfolding handle_set_parameters respond
  handled ps s s' e = ground (arith, e)

  -- A set request whose response can be sent puts the last value that it gives each name in the
  -- parameters, leaves the others alone, and reports one success for each of its entries.
  pub handle_set_parameters_lem :
      (ps : List (String × ParameterValueMsg Double)) (s : Store Double)
      → let done = (set_params env ps [] s).1.calls in
        let response = send_set_response (repeated (length ps) success) in
        env.alive done ≡ true
        → is_ok (env.ret done response) ≡ true
        → (s' : Store Double) × (handle_set_parameters env ps s ≡ ok s')
          × ((q : String) → s'.params q ≡ assigned q (read ps) (s.params q))
          × (s'.calls ≡ response ∷ done)
  unfolding handle_set_parameters respond
  handle_set_parameters_lem ps s owned sendable =
      let (results, s1) = set_params env ps [] s in
      (
        record s1 { calls = send_set_response (repeated (length ps) success) ∷ s1.calls },
        ground (arith, results-set_params ps [] s, owned, sendable),
        params-set_params ps [] s,
        refl,
      )

-- The entries of the parameter file that are for the node, in order.
abbrev pub for_node :
    {Double : Type 0}
    → (qualified_name name : String) → List (Option String × List (Option String × Variant Double))
    → List (String × ParameterValue Double)
for_node qualified_name name [] = []
for_node qualified_name name ((nn, np) ∷ rest) =
    (if is_for_node qualified_name name (text_or_empty nn)
      then map (λ (e : Option String × Variant _). (text_or_empty e.0, from_rcl e.1)) np
      else [])
    ++ for_node qualified_name name rest

module _ {Double : Type 0} where
  assigned-append :
      (q : String) (xs ys : List (String × ParameterValue Double))
      (old : Option (ParameterValue Double))
      → assigned q (xs ++ ys) old ≡ assigned q ys (assigned q xs old)
  assigned-append q [] ys old = refl
  assigned-append q (x ∷ xs) ys old = assigned-append q xs ys _

  load_values_lem :
      (q : String) (np : List (Option String × Variant Double))
      (params : TextMap (ParameterValue Double))
      → load_values np params q
        ≡ assigned q
            (map (λ (e : Option String × Variant Double). (text_or_empty e.0, from_rcl e.1)) np)
            (params q)
  unfolding load_values
  load_values_lem q [] params = refl
  load_values_lem q (e ∷ np) params = load_values_lem q np _

  -- Each parameter has, after loading, the last value among the entries that are for the node, by
  -- its name, its qualified name or a wildcard, and the one that it had if there is none.
  pub load_nodes_lem :
      (qualified_name name q : String)
      (nodes : List (Option String × List (Option String × Variant Double)))
      (params : TextMap (ParameterValue Double))
      → load_nodes qualified_name name nodes params q
        ≡ assigned q (for_node qualified_name name nodes) (params q)
  unfolding load_nodes
  load_nodes_lem qn n q [] params = refl
  load_nodes_lem qn n q ((nn, np) ∷ rest) params =
      elim (Bool-cases (is_for_node qn n (text_or_empty nn))) [
        | inl e ↦
            rw (e, load_nodes)
              (load_nodes_lem qn n q rest (load_values np params)
                ∙ ground (
                  arith,
                  load_values_lem q np params,
                  assigned-append q
                      (map
                        (λ (p : Option String × Variant Double). (text_or_empty p.0, from_rcl p.1))
                        np)
                      (for_node qn n rest) (params q),
                ))
        | inr e ↦ rw (e, load_nodes) (load_nodes_lem qn n q rest params)
      ]
