-- ===== src/Node/Spin/Takes/Requests.antt =====
-- What the handlers of src/action_servers.rs take from rcl.
use r2r.Prelude.{suc, ◌≡◌, refl, List, [], ◌∷◌, arith, Option-cases, inl, inr}
use r2r.ActionMsgs.{Uuid, RequestId, GoalInfo, CancelResponse}
use r2r.ActionServer.{
  Call, take_goal_request, take_cancel_request, take_result_request, offer_cancel, poll_answers,
  send_cancel_response, ActiveCancel, Env, WrappedActionServer,
}
use r2r.ActionServer.Goals.{handle_goal_request, publish_statuses, cancel_goal}
use r2r.ActionServer.Cancels.{
  sweep, send_responses, cancel_goals, send_completed_cancel_requests, offer_cancels,
  handle_cancel_request,
}
use r2r.ActionServer.Cancels.Sweeping.{processing, rcl_response}
use r2r.ActionServer.Results.{handle_result_request}
use r2r.Node.Spin.Takes.Answers.{Take, goal_request, cancel_request, result_request}

abbrev pub request_takes : {G F O : Type 0} → List (Call G F O) → List Take
request_takes [] = []
request_takes (take_goal_request ∷ calls) = goal_request ∷ request_takes calls
request_takes (take_cancel_request ∷ calls) = cancel_request ∷ request_takes calls
request_takes (take_result_request ∷ calls) = result_request ∷ request_takes calls
request_takes (_ ∷ calls) = request_takes calls

module _ {G F O : Type 0} (env : Env G F O) where
  takes-sweep :
      (active : List ActiveCancel) (calls : List (Call G F O))
      → request_takes (sweep env active calls).calls ≡ request_takes calls
  unfolding sweep
  takes-sweep [] calls = refl
  takes-sweep (a ∷ rest) calls = ground (arith, takes-sweep rest (poll_answers a.channels ∷ calls))

  takes-cancel_goals :
      (uuids : List Uuid) (s : WrappedActionServer G F O)
      → request_takes (cancel_goals env uuids s).calls ≡ request_takes s.calls
  unfolding cancel_goals cancel_goal
  takes-cancel_goals [] s = refl
  takes-cancel_goals (u ∷ us) s = ground (arith, takes-cancel_goals us (cancel_goal env u s))

  takes-send_responses :
      (responses : List (RequestId × CancelResponse)) (calls : List (Call G F O))
      → request_takes (send_responses env responses calls) ≡ request_takes calls
  unfolding send_responses
  takes-send_responses [] calls = refl
  takes-send_responses ((request_id, response) ∷ rest) calls =
      takes-send_responses rest (send_cancel_response request_id response ∷ calls)

  takes-publish_statuses :
      (s : WrappedActionServer G F O)
      → request_takes (publish_statuses env s).calls ≡ request_takes s.calls
  unfolding publish_statuses
  takes-publish_statuses s = ground arith

  takes-offer_cancels :
      (gs : List GoalInfo) (s : WrappedActionServer G F O)
      → request_takes (offer_cancels env gs s).1.calls ≡ request_takes s.calls
  unfolding offer_cancels
  takes-offer_cancels [] s = refl
  takes-offer_cancels (g ∷ gs) s = elim (Option-cases (s.cancel_senders g.goal_id)) [
    | inl e ↦ rw (e, offer_cancels) (takes-offer_cancels gs s)
    | inr (sender, e) ↦
        rw (e, offer_cancels)
          (takes-offer_cancels gs (record s {
            next_channel = suc s.next_channel;
            calls = offer_cancel sender g.goal_id s.next_channel ∷ s.calls;
          }))
  ]

  -- The cancel responses that are sent first in a round take nothing.
  pub takes-send_completed :
      (s : WrappedActionServer G F O)
      → request_takes (send_completed_cancel_requests env s).calls ≡ request_takes s.calls
  unfolding send_completed_cancel_requests
  takes-send_completed s =
      let swept = sweep env s.active_cancel_requests s.calls in
      let retained = record s { active_cancel_requests = swept.kept; calls = swept.calls } in
      let after = cancel_goals env swept.canceled retained in
      ground (
        arith,
        takes-sweep s.active_cancel_requests s.calls,
        takes-cancel_goals swept.canceled retained,
        takes-publish_statuses after,
        takes-send_responses swept.responses after.calls,
        takes-send_responses swept.responses (publish_statuses env after).calls,
      )

  pub takes-handle_goal_request :
      (s : WrappedActionServer G F O)
      → request_takes (handle_goal_request env s).calls ≡ goal_request ∷ request_takes s.calls
  unfolding handle_goal_request
  takes-handle_goal_request s = ground arith

  pub takes-handle_cancel_request :
      (s : WrappedActionServer G F O)
      → request_takes (handle_cancel_request env s).calls ≡ cancel_request ∷ request_takes s.calls
  unfolding handle_cancel_request
  takes-handle_cancel_request s =
      ground (arith, takes-offer_cancels (rcl_response env s).goals_canceling (processing env s))

  pub takes-handle_result_request :
      (s : WrappedActionServer G F O)
      → request_takes (handle_result_request env s).calls ≡ result_request ∷ request_takes s.calls
  unfolding handle_result_request
  takes-handle_result_request s = ground arith
