-- ===== src/Parameters/Store/Events.antt =====
-- The stream of parameter events of `make_parameter_handler` of src/nodes.rs: what somebody knows
-- who follows it.
use r2r.Prelude.{
  ◌≡◌, refl, sym, ap, ◌∙◌, List, [], ◌∷◌, Option, none, some, Option-cases, true, false, arith,
  Bool-cases, inl, inr, map,
}
use Prim.Native.String.{String}
use r2r.Prelude.Texts.{same_text, same_text_iff, TextMap, insert_text}
use r2r.Errors.{ok}
use r2r.Parameters.{
  ParameterValue, ParameterValueMsg, from_parameter_value_msg, to_parameter_value_msg, same_value,
}
use r2r.Services.{respond}
use r2r.Parameters.Store.{
  SetParametersResult, Call, offer_event, send_set_response, send_get_response, Env, Store, changed,
  set_param, set_params, handle_set_parameters, handle_get_parameters, value_or_unset,
}
use r2r.Parameters.Store.Updates.{handled}

module _ {Double : Type 0} where
  -- The values that somebody has who knew `old` and was sent every event.
  abbrev pub followed :
      List (Call Double) → TextMap (ParameterValue Double) → TextMap (ParameterValue Double)
  followed [] old = old
  followed (offer_event name val ∷ calls) old = insert_text name val (followed calls old)
  followed (send_set_response results ∷ calls) old = followed calls old
  followed (send_get_response values ∷ calls) old = followed calls old

  abbrev pub viewed {ℓ} :
      {B : Type ℓ} → (ParameterValue Double → B) → Option (ParameterValue Double) → Option B
  viewed view none = none
  viewed view (some v) = some (view v)

module _ {Double : Type 0} (env : Env Double) where
  -- A history of requests to set and to get parameters that are answered.
  pub data ParamReach (start : Store Double) : Store Double → Type 0 where
    started : ParamReach start start
    after_set :
        {s s' : Store Double} (ps : List (String × ParameterValueMsg Double))
        → ParamReach start s
        → handle_set_parameters env ps s ≡ ok s'
        → ParamReach start s'
    after_get :
        {s s' : Store Double} (names : List String)
        → ParamReach start s
        → handle_get_parameters env names s ≡ ok s'
        → ParamReach start s'

  get_handled :
      (names : List String) (s s' : Store Double)
      → handle_get_parameters env names s ≡ ok s'
      → s' ≡ record s {
        calls =
            send_get_response
              (map (λ n. to_parameter_value_msg env.zero (value_or_unset (s.params n))) names)
            ∷ s.calls;
      }
  unfolding handle_get_parameters respond
  get_handled names s s' e = ground (arith, e)

  module _ {B : Type 0} (view : ParameterValue Double → B)
      (respects : (v w : ParameterValue Double)
        → same_value env.same_double v w ≡ true
        → view v ≡ view w)
      (old : TextMap (ParameterValue Double)) where
    -- Every parameter is known, as far as `==` tells values apart.
    Knows : Store Double → Type 0
    Knows s = (q : String) → viewed view (followed s.calls old q) ≡ viewed view (s.params q)

    unchanged :
        (name q : String) (val : ParameterValue Double) (s : Store Double)
        → Knows s
        → same_text name q ≡ true
        → changed env (s.params name) val ≡ false
        → viewed view (followed s.calls old q) ≡ some (view val)
    unfolding Knows changed
    unchanged name q val s knows here c =
        let e : name ≡ q = (same_text_iff name q).0 here in
        elim (Option-cases (s.params name)) [
          | inl f ↦ cc (rw (changed, f) at c)
          | inr (v, f) ↦
              let same : same_value env.same_double v val ≡ true =
                ground (arith, rw (changed, f) at c) in
              knows q ∙ (ap (viewed view) (ap s.params (sym e) ∙ f) ∙ ap some (respects v val same))
        ]

    set_param-Knows :
        (p : String × ParameterValueMsg Double) (s : Store Double)
        → Knows s
        → Knows (set_param env p s)
    unfolding Knows set_param changed
    set_param-Knows (name, value) s knows q =
        let val = from_parameter_value_msg value in
        elim (Bool-cases (same_text name q)) [
          | inr other ↦ elim (Bool-cases (changed env (s.params name) val)) [
            | inl c ↦ rw (set_param, c, other) (knows q)
            | inr c ↦ rw (set_param, c, other) (knows q)
          ]
          | inl here ↦ elim (Bool-cases (changed env (s.params name) val)) [
            | inl c ↦ rw (set_param, c, here) refl
            | inr c ↦ rw (set_param, c, here) (unchanged name q val s knows here c)
          ]
        ]

    set_params-Knows :
        (ps : List (String × ParameterValueMsg Double)) (results : List SetParametersResult)
        (s : Store Double)
        → Knows s
        → Knows (set_params env ps results s).1
    unfolding set_params
    set_params-Knows [] results s knows = knows
    set_params-Knows (p ∷ ps) results s knows =
        set_params-Knows ps _ (set_param env p s) (set_param-Knows p s knows)

    reach-Knows : (start s : Store Double) → Knows start → ParamReach start s → Knows s
    unfolding Knows
    reach-Knows start _ knows started = knows
    reach-Knows start s knows (after_set {s = before} ps r e) =
        rw (handled env ps before s e)
          (set_params-Knows ps [] before (reach-Knows start before knows r))
    reach-Knows start s knows (after_get {s = before} names r e) =
        rw (get_handled names before s e) (reach-Knows start before knows r)

  -- Whoever knew the parameters, and is sent every event of the stream, knows after any history of
  -- requests every parameter, as far as anything that does not tell values apart that `==` finds equal
  -- can see.
  pub events_lem :
      {B : Type 0} (view : ParameterValue Double → B)
      (respects : (v w : ParameterValue Double)
        → same_value env.same_double v w ≡ true
        → view v ≡ view w)
      (start s : Store Double)
      → start.calls ≡ []
      → ParamReach start s
      → (q : String) → viewed view (followed s.calls start.params q) ≡ viewed view (s.params q)
  unfolding Knows
  events_lem view respects start s e r =
      reach-Knows view respects start.params start s (λ q. rw e refl) r
