-- ===== src/Node/Spin/Takes/Answers.antt =====
-- What the handlers of src/clients.rs and src/action_clients.rs take from rcl.
use r2r.Prelude.{
  ℕ, zero, suc, ◌≡◌, refl, ◌∙◌, List, [], ◌∷◌, none, some, Bool, true, false, arith, pop, length,
}
use r2r.Errors.{Result, ok, err, panic}
use r2r.Polling.{Channel, notify_all, drop_all, poll_channels}
use r2r.Clients
use r2r.Clients.{take_response}
use r2r.ActionClient
use r2r.ActionClient.{
  take_goal_response, take_cancel_response, take_result_response, take_feedback, take_status,
}
use r2r.ActionClient.Requests
use r2r.ActionClient.Responses

-- The functions of rcl that take a message, by what they take.
pub data Take : Type 0 where
  response feedback status goal_response cancel_response result_response : Take
  goal_request cancel_request result_request : Take

-- What was taken, newest first.
abbrev pub response_takes : {Q R : Type 0} → List (Clients.Call Q R) → List Take
response_takes [] = []
response_takes (take_response ∷ calls) = response ∷ response_takes calls
response_takes (_ ∷ calls) = response_takes calls

abbrev pub action_takes : {G F O : Type 0} → List (ActionClient.Call G F O) → List Take
action_takes [] = []
action_takes (take_feedback ∷ calls) = feedback ∷ action_takes calls
action_takes (take_status ∷ calls) = status ∷ action_takes calls
action_takes (take_goal_response ∷ calls) = goal_response ∷ action_takes calls
action_takes (take_cancel_response ∷ calls) = cancel_response ∷ action_takes calls
action_takes (take_result_response ∷ calls) = result_response ∷ action_takes calls
action_takes (_ ∷ calls) = action_takes calls

-- Notifying and cancelling futures takes nothing.
module _ {C : Type 0} (notify drop : Channel → C) (takes : List C → List Take)
    (n : (ch : Channel) (calls : List C) → takes (notify ch ∷ calls) ≡ takes calls)
    (d : (ch : Channel) (calls : List C) → takes (drop ch ∷ calls) ≡ takes calls) where
  takes-notify_all :
      (fuel : ℕ) (channels : List Channel) (calls : List C)
      → takes (notify_all notify drop fuel channels calls).1 ≡ takes calls
  unfolding notify_all
  takes-notify_all zero channels calls = refl
  takes-notify_all (suc fuel) channels calls =
      elim (pop channels)
        as (λ p.
          takes
            (elim p as (λ _. List Channel × List C) [
              | none ↦ (channels, calls)
              | some (sender, rest) ↦ notify_all notify drop fuel rest (notify sender ∷ calls)
            ]).1
          ≡ takes calls) [
            | none ↦ refl
            | some (sender, rest) ↦
                takes-notify_all fuel rest (notify sender ∷ calls) ∙ n sender calls
          ]

  takes-drop_all :
      (channels : List Channel) (calls : List C)
      → takes (drop_all notify drop channels calls) ≡ takes calls
  unfolding drop_all
  takes-drop_all [] calls = refl
  takes-drop_all (ch ∷ chs) calls = takes-drop_all chs (drop ch ∷ calls) ∙ d ch calls

  takes-poll_channels :
      (available : Result Bool) (channels : List Channel) (calls : List C)
      → takes (poll_channels notify drop available channels calls).1 ≡ takes calls
  unfolding poll_channels
  takes-poll_channels (ok true) channels calls =
      takes-notify_all (suc (length channels)) channels calls
  takes-poll_channels (ok false) channels calls = refl
  takes-poll_channels (err e) channels calls = takes-drop_all channels calls
  takes-poll_channels panic channels calls = refl

module _ {Q R : Type 0} (env : Clients.Env Q R) where
  pub takes-client_poll_available :
      (c : Clients.TypedClient Q R)
      → response_takes (Clients.poll_available env c).calls ≡ response_takes c.calls
  unfolding Clients.poll_available
  takes-client_poll_available c = ground (
    arith,
    takes-poll_channels Clients.notify Clients.drop response_takes (λ ch calls. refl)
        (λ ch calls. refl) (Clients.service_available_helper env c.calls) c.poll_available_channels
        (Clients.server_is_available ∷ c.calls),
  )

  pub takes-handle_response :
      (c c' : Clients.TypedClient Q R)
      → Clients.handle_response env c ≡ ok c'
      → response_takes c'.calls ≡ response ∷ response_takes c.calls
  unfolding Clients.handle_response
  takes-handle_response c c' e = ground (arith, e)

module _ {G F O : Type 0} (env : ActionClient.Env G F O) where
  pub takes-poll_available :
      (c : ActionClient.WrappedActionClient G F O)
      → action_takes (Requests.poll_available env c).calls ≡ action_takes c.calls
  unfolding Requests.poll_available
  takes-poll_available c = ground (
    arith,
    takes-poll_channels ActionClient.notify ActionClient.drop action_takes (λ ch calls. refl)
        (λ ch calls. refl) (Requests.action_server_available_helper env c.calls)
        c.poll_available_channels (ActionClient.server_is_available ∷ c.calls),
  )

  pub takes-handle_feedback_msg :
      (c : ActionClient.WrappedActionClient G F O)
      → action_takes (Responses.handle_feedback_msg env c).calls ≡ feedback ∷ action_takes c.calls
  unfolding Responses.handle_feedback_msg
  takes-handle_feedback_msg c = ground arith

  pub takes-handle_status_msg :
      (c c' : ActionClient.WrappedActionClient G F O)
      → Responses.handle_status_msg env c ≡ ok c'
      → action_takes c'.calls ≡ status ∷ action_takes c.calls
  unfolding Responses.handle_status_msg
  takes-handle_status_msg c c' e = ground (arith, e)

  pub takes-handle_goal_response :
      (c c' : ActionClient.WrappedActionClient G F O)
      → Responses.handle_goal_response env c ≡ ok c'
      → action_takes c'.calls ≡ goal_response ∷ action_takes c.calls
  unfolding Responses.handle_goal_response
  takes-handle_goal_response c c' e = ground (arith, e)

  pub takes-handle_cancel_response :
      (c c' : ActionClient.WrappedActionClient G F O)
      → Responses.handle_cancel_response env c ≡ ok c'
      → action_takes c'.calls ≡ cancel_response ∷ action_takes c.calls
  unfolding Responses.handle_cancel_response
  takes-handle_cancel_response c c' e = ground (arith, e)

  pub takes-handle_result_response :
      (c c' : ActionClient.WrappedActionClient G F O)
      → Responses.handle_result_response env c ≡ ok c'
      → action_takes c'.calls ≡ result_response ∷ action_takes c.calls
  unfolding Responses.handle_result_response Responses.deliver_result
  takes-handle_result_response c c' e = ground (arith, e)
