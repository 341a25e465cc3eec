-- ===== src/ActionServer/Goals/States.antt =====
-- What accepting a goal, rejecting it and moving it to another state come to: proofs about
-- src/action_servers.rs.
use r2r.Polling.{Channel}
use r2r.Prelude.{◌≡◌, ◌∷◌, true, arith, if◌then◌else◌}
use r2r.Prelude.Maps.{insert}
use r2r.Errors.{rcl, ok, err, is_ok}
use r2r.ActionMsgs.{Uuid, goal_info_of}
use r2r.ActionServer.{
  GoalEvent, goal_event_execute, ActionServerGoalRequest, accept_new_goal, send_goal_response,
  update_goal_state, server_goal_exists, notify_goal_done, Env, WrappedActionServer,
}
use r2r.ActionServer.Goals.{called, publish_statuses, accept_locked, set_goal_state}

module _ {G F O : Type 0} (env : Env G F O) where
  -- Publishing the statuses changes nothing of the server but the record of the calls.
  pub publish_statuses_lem :
      (s : WrappedActionServer G F O)
      → publish_statuses env s ≡ record s { calls = (publish_statuses env s).calls }
  unfolding publish_statuses
  publish_statuses_lem s = ground arith

  -- Accepting a goal tells rcl and the client first. If the response cannot be sent, the goal stays
  -- accepted in rcl, but the server keeps no handle of it; otherwise it goes to execution, the
  -- statuses are published, and the server keeps its handle.
  pub accept_locked_lem :
      (request : ActionServerGoalRequest G) (s : WrappedActionServer G F O)
      → let info = goal_info_of request.uuid in
        let response = send_goal_response request.request_id true in
        let responded = record s { calls = response ∷ accept_new_goal info ∷ s.calls } in
        let ret = env.ret (accept_new_goal info ∷ s.calls) response in
        let handle = env.new_goal_handle s.calls info in
        accept_locked env request s ≡ (
          if is_ok ret
          then (
            ok (request.uuid, request.cancel_requests),
            record s {
              goals = insert request.uuid handle s.goals;
              calls =
                  (publish_statuses env
                    (called (update_goal_state handle goal_event_execute) responded)).calls;
            },
          )
          else (err (rcl ret), responded))
  unfolding accept_locked
  accept_locked_lem request s = ground arith

  -- A goal whose acceptance was sent can be moved to another state as long as rcl knows it: its
  -- handle gets the event, rcl is told, and the statuses are published.
  pub set_goal_state-accept_locked :
      (request : ActionServerGoalRequest G) (s t : WrappedActionServer G F O) (event : GoalEvent)
      (r : Uuid × Channel)
      → accept_locked env request s ≡ (ok r, t)
      → env.goal_exists t.calls (goal_info_of request.uuid) ≡ true
      → let handle = env.new_goal_handle s.calls (goal_info_of request.uuid) in
        set_goal_state env request.uuid event t ≡ (
          ok tt,
          publish_statuses env (record t {
            calls =
                notify_goal_done
                ∷ update_goal_state handle event
                ∷ server_goal_exists (goal_info_of request.uuid)
                ∷ t.calls;
          }),
        )
  unfolding accept_locked set_goal_state
  set_goal_state-accept_locked request s t event r e x = ground arith
