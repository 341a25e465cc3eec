-- ===== src/ActionServer/Cancels/Sweeping.antt =====
-- The cancel requests of an action server over `handle_cancel_request` and
-- `send_completed_cancel_requests` of src/action_servers.rs.
use r2r.Prelude.{
  ℕ, ◌≡◌, refl, ap, ◌∙◌, List, [], ◌∷◌, Option, none, some, true, arith, if◌then◌else◌, ◌==◌, any,
}
use r2r.Errors.{rcl_ret_action_goal_handle_invalid, rcl, err, is_ok}
use r2r.ActionMsgs.{Uuid, CancelResponse}
use r2r.ActionServer.{
  GoalEvent, Call, take_cancel_request, process_cancel_request, send_cancel_response, poll_answers,
  Env, WrappedActionServer,
}
use r2r.ActionServer.Goals.{cancel_goal, publish_statuses, is_cancelling, set_goal_state}
use r2r.ActionServer.Cancels.{
  sweep, cancel_goals, send_completed_cancel_requests, offer_cancels, handle_cancel_request,
}
use r2r.ActionServer.Cancels.Frames.{offer_cancels_lem}
use r2r.ActionServer.Cancels.Verdicts.{settle_none}

module _ {G F O : Type 0} (env : Env G F O) where
  goals-cancel_goals :
      (uuids : List Uuid) (s : WrappedActionServer G F O) (q : Uuid)
      → (cancel_goals env uuids s).goals q ≡ (if any (λ u. u == q) uuids then none else s.goals q)
  unfolding cancel_goals any
  goals-cancel_goals [] s q = refl
  goals-cancel_goals (u ∷ us) s q = goals-cancel_goals us (cancel_goal env u s) q ∙ ground arith

  goals-publish_statuses :
      (s : WrappedActionServer G F O) → (publish_statuses env s).goals ≡ s.goals
  unfolding publish_statuses
  goals-publish_statuses s = ground arith

  -- `send_completed_cancel_requests` takes exactly the goals that it cancels off the server's list
  -- of goals.
  pub goals-send_completed :
      (s : WrappedActionServer G F O) (q : Uuid)
      → (send_completed_cancel_requests env s).goals q ≡ (
          if any (λ u. u == q) (sweep env s.active_cancel_requests s.calls).canceled
          then none
          else s.goals q)
  unfolding send_completed_cancel_requests
  goals-send_completed s q =
      let swept = sweep env s.active_cancel_requests s.calls in
      let retained = record s { active_cancel_requests = swept.kept; calls = swept.calls } in
      let after = cancel_goals env swept.canceled retained in
      ground (
        arith,
        goals-cancel_goals swept.canceled retained q,
        ap (λ (gs : Uuid → Option ℕ). gs q) (goals-publish_statuses after),
      )

  -- Once a goal is canceled for its client, its owner can neither ask whether it is being canceled
  -- nor set its state: both fail as for a goal that never was.
  pub canceled_goal_untracked :
      (s : WrappedActionServer G F O) (q : Uuid)
      → any (λ u. u == q) (sweep env s.active_cancel_requests s.calls).canceled ≡ true
      → let t = send_completed_cancel_requests env s in
        (is_cancelling env q t ≡ (err (rcl rcl_ret_action_goal_handle_invalid), t))
        × ((event : GoalEvent)
            → (set_goal_state env q event t).0 ≡ err (rcl rcl_ret_action_goal_handle_invalid))
  unfolding is_cancelling set_goal_state
  canceled_goal_untracked s q h = (
    ground (arith, goals-send_completed s q, h),
    λ event. ground (arith, goals-send_completed s q, h),
  )

  -- The server when `handle_cancel_request` looks for the owners of the goals.
  abbrev pub processing : WrappedActionServer G F O → WrappedActionServer G F O
  processing s = record s {
    calls = process_cancel_request (env.cancel_request s.calls).1 ∷ take_cancel_request ∷ s.calls;
  }

  -- The response of rcl to the cancel request that is taken next.
  abbrev pub rcl_response : WrappedActionServer G F O → CancelResponse
  rcl_response s =
      env.cancel_response (take_cancel_request ∷ s.calls) (env.cancel_request s.calls).1

  -- A cancel request that rcl grants, but of whose goals no owner can be asked since no cancel
  -- stream takes the question, is confirmed to the client as rcl made it, at the next poll: no goal
  -- is canceled, and no goal is told.
  pub unasked_cancel_confirmed :
      (s : WrappedActionServer G F O)
      → s.active_cancel_requests ≡ []
      → is_ok (env.ret s.calls take_cancel_request) ≡ true
      → is_ok (
          env.ret
            (take_cancel_request ∷ s.calls)
            (process_cancel_request (env.cancel_request s.calls).1))
        ≡ true
      → (offer_cancels env (rcl_response s).goals_canceling (processing s)).0 ≡ []
      → ((calls : List (Call G F O)) → env.answers calls [] ≡ some [])
      → let h = handle_cancel_request env s in
        let t = send_completed_cancel_requests env h in
        (t.goals ≡ s.goals)
        × (t.active_cancel_requests ≡ [])
        × (t.calls
            ≡ send_cancel_response (env.cancel_request s.calls).0 (rcl_response s)
              ∷ poll_answers []
              ∷ h.calls)
  unfolding handle_cancel_request send_completed_cancel_requests
  unasked_cancel_confirmed s idle took processed unasked joined =
      let h = handle_cancel_request env s in
      ground (
        arith,
        offer_cancels_lem env (rcl_response s).goals_canceling (processing s),
        joined h.calls,
        settle_none (rcl_response s),
      )
