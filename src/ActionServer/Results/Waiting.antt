-- ===== src/ActionServer/Results/Waiting.antt =====
-- What each operation of src/action_servers.rs does to the results of goals and to the requests
-- that wait for them.
use mathlib.Core.List.{reverse, reverse-cons, append_assoc}
use r2r.Polling.{Channel}
use r2r.Prelude.{
  ℕ, zero, suc, ◌≡◌, ◌⊎◌, inl, inr, refl, List, [], ◌∷◌, ◌++◌, map, none, some, arith, ◌==◌,
  Bool-cases,
}
use r2r.Errors.{Result}
use r2r.ActionMsgs.{Uuid, RequestId}
use r2r.ActionServer.{
  GoalEvent, ResultMsg, ActionServerGoalRequest, Call, Env, WrappedActionServer,
  send_result_response,
}
use r2r.ActionServer.Goals.{publish_statuses, handle_goal_request, accept, reject, set_goal_state}
use r2r.ActionServer.Goals.States.{publish_statuses_lem}
use r2r.ActionServer.Cancels.{
  cancel_goals, send_completed_cancel_requests, handle_cancel_request, sweep,
}
use r2r.ActionServer.Cancels.Frames.{offer_cancels_lem, cancel_goals_lem}
use r2r.ActionServer.Cancels.Sweeping.{processing, rcl_response}
use r2r.ActionServer.Results.{send_results, handle_result_request, handle_goal_expired}

module _ {G F O : Type 0} where
  -- The requests that wait for the result of a goal, oldest first.
  abbrev pub waiting : WrappedActionServer G F O → Uuid → List RequestId
  waiting s uuid = elim (s.result_requests uuid) [ none ↦ [] | some rr ↦ rr ]

  -- The results and the requests for them are as before.
  pub record SameResults (s t : WrappedActionServer G F O) : Type 0 where
    pub msgs : t.result_msgs ≡ s.result_msgs
    pub requests : t.result_requests ≡ s.result_requests

  -- Every waiting request is answered with the result, in the order of arrival.
  pub send_results_lem :
      (rr : List RequestId) (msg : ResultMsg O) (calls : List (Call G F O))
      → send_results rr msg calls ≡ reverse (map (λ req. send_result_response req msg) rr) ++ calls
  unfolding send_results
  send_results_lem [] msg calls = refl
  send_results_lem (req ∷ rr) msg calls =
      rw
        (send_results_lem rr msg (send_result_response req msg ∷ calls), reverse-cons, append_assoc)

module _ {G F O : Type 0} (env : Env G F O) where
  publish_statuses-SameResults :
      (s : WrappedActionServer G F O) → SameResults s (publish_statuses env s)
  unfolding publish_statuses
  publish_statuses-SameResults s = ground arith

  pub handle_goal_request-SameResults :
      (s : WrappedActionServer G F O) → SameResults s (handle_goal_request env s)
  unfolding handle_goal_request
  handle_goal_request-SameResults s = ground arith

  pub send_completed-SameResults :
      (s : WrappedActionServer G F O) → SameResults s (send_completed_cancel_requests env s)
  unfolding send_completed_cancel_requests
  send_completed-SameResults s =
      let swept = sweep env s.active_cancel_requests s.calls in
      let retained = record s { active_cancel_requests = swept.kept; calls = swept.calls } in
      let after = cancel_goals env swept.canceled retained in
      ground (arith, cancel_goals_lem env swept.canceled retained, publish_statuses_lem env after)

  pub handle_cancel_request-SameResults :
      (s : WrappedActionServer G F O) → SameResults s (handle_cancel_request env s)
  unfolding handle_cancel_request
  handle_cancel_request-SameResults s =
      ground (arith, offer_cancels_lem env (rcl_response env s).goals_canceling (processing env s))

  pub accept-SameResults :
      (request : ActionServerGoalRequest G) (s t : WrappedActionServer G F O)
      (r : Result (Uuid × Channel))
      → accept env request (some s) ≡ (r, some t)
      → SameResults s t
  unfolding accept
  accept-SameResults request s t r e = ground arith

  pub reject-SameResults :
      (request : ActionServerGoalRequest G) (s t : WrappedActionServer G F O)
      (r : Result (Unit {0}))
      → reject env request (some s) ≡ (r, some t)
      → SameResults s t
  unfolding reject
  reject-SameResults request s t r e = ground arith

  pub set_goal_state_lem :
      (uuid : Uuid) (event : GoalEvent) (s : WrappedActionServer G F O)
      → let t = (set_goal_state env uuid event s).1 in t ≡ record s { calls = t.calls }
  unfolding set_goal_state
  set_goal_state_lem uuid event s = ground arith

  -- `handle_goal_expired` runs to its end with any fuel but none, makes no call, and forgets nothing: its
  -- loop starts with one expired goal and runs while there is more than one.
  pub handle_goal_expired_lem :
      (fuel : ℕ) (s : WrappedActionServer G F O) → handle_goal_expired env (suc fuel) s ≡ some s
  unfolding handle_goal_expired
  handle_goal_expired_lem fuel s = refl

  pub expired-eq :
      (fuel : ℕ) (s t : WrappedActionServer G F O) → handle_goal_expired env fuel s ≡ some t → s ≡ t
  unfolding handle_goal_expired
  expired-eq zero s t e = cc
  expired-eq (suc fuel) s t e = cc (e, handle_goal_expired_lem fuel s)

  -- `handle_result_request` only adds to the requests that wait, behind those that wait already,
  -- and only for a goal without a result.
  pub handle_result_request-waiting :
      (s : WrappedActionServer G F O) (q : Uuid)
      → let t = handle_result_request env s in
        (t.result_msgs ≡ s.result_msgs)
        × ((t.result_requests q ≡ s.result_requests q)
            ⊎ ((s.result_msgs q ≡ none)
                × (waiting t q ≡ waiting s q ++ (env.result_request s.calls).0 ∷ [])))
  unfolding handle_result_request
  handle_result_request-waiting s q = (
    ground arith,
    elim (Bool-cases ((env.result_request s.calls).1 == q)) [
      | inl hit ↦ ground (arith, hit)
      | inr miss ↦ ground (arith, miss)
    ],
  )
