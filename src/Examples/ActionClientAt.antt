-- ===== src/Examples/ActionClientAt.antt =====
-- src/action_clients.rs at a client with a goal under way.
use r2r.Prelude.{ℕ, ◌+◌, ◌≡◌, refl, [], ◌∷◌, some, true, false, arith, length}
use r2r.Errors.{goal_cancel_rejected, rcl_ret_ok, ok, err, is_ok}
use r2r.GoalStatus.{from_rcl, succeeded}
use r2r.ActionMsgs.{Time, CancelResponse, goal_info_of}
use r2r.Pending.{find}
use r2r.ActionServer.Cancels.{settle}
use r2r.ActionServer.Cancels.Verdicts.{answered}
use r2r.ActionClient.{
  take_goal_response, take_result_response, answer_goal, answer_result, Env, WrappedActionClient,
  init,
}
use r2r.ActionClient.Requests.{
  GoalFuture, send_goal_locked, send_result_request, send_cancel_request, poll_available,
  register_poll_available, cancel_future,
}
use r2r.ActionClient.Requests.Goals.{goal_request_answered, result_request_answered}
use r2r.ActionClient.Requests.Canceling.{one_cancel_agrees, many_canceled_reported_rejected}
use r2r.ActionClient.Responses.{handle_goal_response, handle_result_response}
use r2r.ActionClient.Responses.Delivery.{
  IsConserved, Reach, goal_requested, cancel_requested, registered, polled, here, next,
  Reach-IsConserved,
}

abbrev stamp : Time
stamp = record { sec = 1; nanosec = 2 }

abbrev confirmed : CancelResponse
confirmed = record { return_code = 0; goals_canceling = goal_info_of 7 ∷ [] }

abbrev both : CancelResponse
both = record { return_code = 0; goals_canceling = goal_info_of 7 ∷ goal_info_of 8 ∷ [] }

-- An rcl_action for which every call works, that numbers the requests by the calls made so far,
-- and makes goal ids from them.
abbrev pub env : Env ℕ ℕ ℕ
env = record {
  ret = λ calls call. rcl_ret_ok;
  sequence_number = λ calls call. length calls + 10;
  new_uuid = λ calls. length calls + 70;
  goal_response = λ calls. (10, true, stamp);
  cancel_response = λ calls. (11, confirmed);
  result_response = λ calls. (10, 4, 99);
  feedback = λ calls. (70, 5);
  statuses = λ calls. (70, 2) ∷ [];
  available = λ calls. true;
}

-- Two goals, a cancel request, a future for the server, a poll and feedback.
abbrev pub busy : WrappedActionClient ℕ ℕ ℕ
busy =
    let c1 = (send_goal_locked env 1 (init ℕ ℕ ℕ)).1 in
    let c2 = (send_cancel_request env 70 c1).1 in poll_available env (register_poll_available c2)

pub busy-Reach : Reach env (init ℕ ℕ ℕ) busy
busy-Reach =
    next (next (next (next here (goal_requested 1)) (cancel_requested 70)) registered) polled

Reach-IsConserved_example : IsConserved busy
Reach-IsConserved_example = Reach-IsConserved env busy-Reach

abbrev future : GoalFuture
future = record { uuid = 70; response = 0; feedback = 1; result = 2 }

abbrev requested : WrappedActionClient ℕ ℕ ℕ
requested = (send_goal_locked env 1 (init ℕ ℕ ℕ)).1

goal_request_answered_example :
    (c2 : WrappedActionClient ℕ ℕ ℕ) × (handle_goal_response env requested ≡ ok c2)
    × (c2.calls ≡ answer_goal 0 true stamp ∷ take_goal_response ∷ requested.calls)
    × (find 70 c2.result_senders ≡ some 2)
unfolding send_goal_locked is_ok find
goal_request_answered_example =
    goal_request_answered env 1 (init ℕ ℕ ℕ) requested future true stamp refl refl refl refl refl

abbrev awaited : WrappedActionClient ℕ ℕ ℕ
awaited = record (init ℕ ℕ ℕ) { result_senders = (70, 2) ∷ [] }

result_request_answered_example :
    (c2 : WrappedActionClient ℕ ℕ ℕ) × (handle_result_response env
        (send_result_request env 70 awaited)
      ≡ ok c2)
    × (c2.calls
        ≡ answer_result 2 succeeded 99
          ∷ take_result_response
          ∷ (send_result_request env 70 awaited).calls)
unfolding send_result_request is_ok find from_rcl
result_request_answered_example =
    result_request_answered env 70 2 4 succeeded 99 awaited refl refl refl refl refl refl

one_cancel_agrees_example :
    ((settle (answered ((7, false) ∷ [])) confirmed).0 ≡ [])
    × (cancel_future (settle (answered ((7, false) ∷ [])) confirmed).1 ≡ err goal_cancel_rejected)
one_cancel_agrees_example = one_cancel_agrees confirmed (goal_info_of 7) false refl refl

many_canceled_reported_rejected_example :
    ((settle (answered ((7, true) ∷ (8, true) ∷ [])) both).0 ≡ 7 ∷ 8 ∷ [])
    × (cancel_future (settle (answered ((7, true) ∷ (8, true) ∷ [])) both).1
        ≡ err goal_cancel_rejected)
many_canceled_reported_rejected_example =
    many_canceled_reported_rejected both 7 8 [] (omega arith) (omega arith)
