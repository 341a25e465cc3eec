-- ===== src/Services.antt =====
-- src/services.rs: a service, over the calls `C` that it makes of rcl and of its stream. `ret` is
-- what rcl answers, which may depend on the calls made before, newest first.
use r2r.Prelude.{List, ◌∷◌, Bool, true, false, if◌then◌else◌}
use r2r.Errors.{Ret, rcl_ret_action_server_invalid, rcl, Result, ok, err, is_ok}

-- What `Sender::try_send` of a bounded channel of the futures crate comes to.
pub data TrySend : Type 0 where
  sent full disconnected : TrySend

module _ {C : Type 0} (ret : List C → C → Ret) where
  -- `TypedService::send_response`, where `send` is the call of `rcl_send_response`.
  unfoldable pub send_response : C → List C → Result (Unit {0}) × List C
  send_response send calls =
      let res = ret calls send in (if is_ok res then ok tt else err (rcl res), send ∷ calls)

  -- `ServiceRequest::respond`; the service is `alive` while the node owns it.
  unfoldable pub respond : (alive : Bool) → C → List C → Result (Unit {0}) × List C
  unfolding send_response
  respond false send calls = (err (rcl rcl_ret_action_server_invalid), calls)
  respond true send calls = send_response send calls

  -- `TypedService::handle_request`: whether the stream of requests was dropped.
  unfoldable pub handle_request :
      {Request : Type 0}
      → (take : C) (taken : List C → Request) (offer : Request → C)
      → (attempt : List C → C → TrySend) → List C
      → Bool × List C
  handle_request take taken offer attempt calls =
      let request = offer (taken calls) in
      let attempted = request ∷ take ∷ calls in
      if is_ok (ret calls take)
      then elim (attempt (take ∷ calls) request) [
        | disconnected ↦ (true, attempted)
        | full ↦ (false, attempted)
        | sent ↦ (false, attempted)
      ]
      else (false, take ∷ calls)
