-- ===== src/ActionServer/Goals.antt =====
-- src/action_servers.rs: goal requests, the states of goals and their status.
pub mod States
use r2r.Polling.{Channel}
use r2r.Prelude.{
  ℕ, suc, List, [], ◌∷◌, Option, none, some, Bool, true, false, if◌then◌else◌, ◌==◌, not,
}
use r2r.Prelude.Maps.{insert, remove}
use r2r.Errors.{
  Ret, rcl_ret_action_goal_handle_invalid, rcl_ret_action_server_invalid, Error, rcl, Result, ok,
  err, panic, is_ok,
}
use r2r.ActionMsgs.{Uuid, RequestId, goal_info_of}
use r2r.ActionServer.{
  GoalHandle, GoalEvent, goal_event_execute, goal_event_cancel_goal, ActionServerGoalRequest, Call,
  take_goal_request, accept_new_goal, send_goal_response, update_goal_state, goal_handle_get_status,
  server_goal_exists, notify_goal_done, get_goal_status_array, publish_status,
  goal_status_array_fini, publish_feedback, offer_goal, Env, WrappedActionServer,
}

module _ {G F O : Type 0} where
  -- One more call was made.
  abbrev pub called : Call G F O → WrappedActionServer G F O → WrappedActionServer G F O
  called call s = record s { calls = call ∷ s.calls }

module _ {G F O : Type 0} (env : Env G F O) where
  -- `handle_goal_request`.
  unfoldable pub handle_goal_request : WrappedActionServer G F O → WrappedActionServer G F O
  handle_goal_request s =
      let ret = env.ret s.calls take_goal_request in
      let (request_id, uuid, goal) = env.goal_request s.calls in
      let taken = called take_goal_request s in
      let channel : Channel = s.next_channel in
      let gr : ActionServerGoalRequest G = record {
        uuid = uuid;
        goal = goal;
        cancel_requests = channel;
        request_id = request_id;
      } in
      if is_ok ret
      then record taken {
        cancel_senders = insert uuid channel s.cancel_senders;
        next_channel = suc channel;
        calls = offer_goal gr ∷ taken.calls;
      }
      else taken

  -- `WrappedActionServer::publish_status`.
  unfoldable pub publish_statuses : WrappedActionServer G F O → WrappedActionServer G F O
  publish_statuses s =
      let got = called get_goal_status_array s in
      let published = called publish_status got in
      if not (is_ok (env.ret s.calls get_goal_status_array))
      then got
      else if not (is_ok (env.ret got.calls publish_status))
      then published
      else called goal_status_array_fini published

  -- `ActionServerGoalRequest::accept` once the server is locked: the uuid of the new goal and the
  -- stream of its cancel requests.
  unfoldable pub accept_locked :
      ActionServerGoalRequest G
      → WrappedActionServer G F O
      → Result (Uuid × Channel) × WrappedActionServer G F O
  unfolding publish_statuses
  accept_locked request s =
      let goal_info = goal_info_of request.uuid in
      let goal_handle = env.new_goal_handle s.calls goal_info in
      let accepted = called (accept_new_goal goal_info) s in
      let response = send_goal_response request.request_id true in
      let responded = called response accepted in
      let executing = called (update_goal_state goal_handle goal_event_execute) responded in
      let published = publish_statuses executing in
      let ret = env.ret accepted.calls response in
      if not (is_ok ret) then (err (rcl ret), responded) else (
        ok (request.uuid, request.cancel_requests),
        record published { goals = insert request.uuid goal_handle published.goals },
      )

  -- `ActionServerGoalRequest::accept`, through the `Weak` reference: `none` is a server whose node
  -- is gone.
  unfoldable pub accept :
      ActionServerGoalRequest G
      → Option (WrappedActionServer G F O)
      → Result (Uuid × Channel) × Option (WrappedActionServer G F O)
  unfolding accept_locked
  accept request none = (panic, none)
  accept request (some s) = let (r, s') = accept_locked request s in (r, some s')

  -- `ActionServerGoalRequest::reject`.
  unfoldable pub reject :
      ActionServerGoalRequest G
      → Option (WrappedActionServer G F O)
      → Result (Unit {0}) × Option (WrappedActionServer G F O)
  reject request none = (panic, none)
  reject request (some s) =
      let response = send_goal_response request.request_id false in
      let ret = env.ret s.calls response in
      let responded = called response s in
      if not (is_ok ret) then (err (rcl ret), some responded) else (ok tt, some responded)

  -- `WrappedActionServer::is_cancelling`; 3 is STATUS_CANCELING.
  unfoldable pub is_cancelling :
      Uuid → WrappedActionServer G F O → Result Bool × WrappedActionServer G F O
  is_cancelling uuid s = elim (s.goals uuid) [
    | none ↦ (err (rcl rcl_ret_action_goal_handle_invalid), s)
    | some handle ↦
        let ret = env.ret s.calls (goal_handle_get_status handle) in
        let asked = called (goal_handle_get_status handle) s in
        if not (is_ok ret)
        then (err (rcl ret), asked)
        else (ok (env.goal_handle_status s.calls handle == 3), asked)
  ]

  -- `WrappedActionServer::cancel_goal`; a failure of rcl is only printed.
  unfoldable pub cancel_goal : Uuid → WrappedActionServer G F O → WrappedActionServer G F O
  cancel_goal uuid s = elim (s.goals uuid) [
    | none ↦ s
    | some handle ↦ record s {
      goals = remove uuid s.goals;
      calls = update_goal_state handle goal_event_cancel_goal ∷ s.calls;
    }
  ]

  -- `WrappedActionServer::set_goal_state`.
  unfoldable pub set_goal_state :
      Uuid → GoalEvent → WrappedActionServer G F O → Result (Unit {0}) × WrappedActionServer G F O
  unfolding publish_statuses
  set_goal_state uuid new_state s =
      let goal_info = goal_info_of uuid in
      let goal_exists = env.goal_exists s.calls goal_info in
      let asked = called (server_goal_exists goal_info) s in
      if not goal_exists
      then (err (rcl rcl_ret_action_goal_handle_invalid), asked)
      else elim (s.goals uuid) [
        | none ↦ (err (rcl rcl_ret_action_goal_handle_invalid), asked)
        | some handle ↦
            let updated = called (update_goal_state handle new_state) asked in
            (ok tt, publish_statuses (called notify_goal_done updated))
      ]

  -- `ActionServerGoal::publish_feedback`: whatever rcl answers, the result is `Ok`.
  unfoldable pub publish_goal_feedback :
      Uuid
      → F
      → Option (WrappedActionServer G F O)
      → Result (Unit {0}) × Option (WrappedActionServer G F O)
  publish_goal_feedback uuid msg none = (err (rcl rcl_ret_action_server_invalid), none)
  publish_goal_feedback uuid msg (some s) = (ok tt, some (called (publish_feedback uuid msg) s))

  -- `ActionServerGoal::is_cancelling`.
  unfoldable pub goal_is_cancelling :
      Uuid → Option (WrappedActionServer G F O) → Result Bool × Option (WrappedActionServer G F O)
  unfolding is_cancelling
  goal_is_cancelling uuid none = (err (rcl rcl_ret_action_server_invalid), none)
  goal_is_cancelling uuid (some s) = let (r, s') = is_cancelling uuid s in (r, some s')
