-- ===== src/ActionClient/Requests.antt =====
-- src/action_clients.rs: the requests of an action client, and the futures that they return.
pub mod Goals
pub mod Canceling
use r2r.Prelude.{
  ℕ, suc, List, [], ◌∷◌, ◌++◌, Option, none, some, Bool, true, false, if◌then◌else◌, ◌==◌, is_empty,
  not,
}
use r2r.Errors.{
  rcl_ret_action_client_invalid, rcl_ret_action_goal_rejected, rcl_ret_client_invalid, Error, rcl,
  goal_cancel_rejected, goal_cancel_unknown_goal_id, goal_cancel_already_terminated, Result, ok,
  err, panic, is_ok,
}
use r2r.GoalStatus.{GoalStatus, unknown}
use r2r.ActionMsgs.{Uuid, Time, GoalInfo, CancelResponse, goal_info_of}
use r2r.Polling.{Channel, poll_channels}
use r2r.ActionClient.{
  Call, send_goal, send_cancel, send_result, server_is_available, notify, drop, Env,
  WrappedActionClient,
}

-- What `send_goal_request` captures for its future: the goal, and the channels of the response to
-- the request, of the feedback and of the result.
pub record GoalFuture : Type 0 where
  pub uuid : Uuid
  pub response : Channel
  pub feedback : Channel
  pub result : Channel

module _ {G F O : Type 0} where
  -- `get_goal_status`.
  unfoldable pub get_goal_status : WrappedActionClient G F O → Uuid → GoalStatus
  get_goal_status c uuid = elim (c.goal_status uuid) [ none ↦ unknown | some s ↦ s ]

  -- `ActionClientGoal::get_status`.
  unfoldable pub get_status : Option (WrappedActionClient G F O) → Uuid → Result GoalStatus
  unfolding get_goal_status
  get_status none uuid = err (rcl rcl_ret_action_client_invalid)
  get_status (some c) uuid = ok (get_goal_status c uuid)

  unfoldable pub register_poll_available : WrappedActionClient G F O → WrappedActionClient G F O
  register_poll_available c = record c {
    poll_available_channels = c.poll_available_channels ++ c.next_channel ∷ [];
    next_channel = suc c.next_channel;
  }

  -- `IsAvailablePollable::register_poll_available`.
  unfoldable pub register_available :
      Option (WrappedActionClient G F O) → Result (Unit {0}) × Option (WrappedActionClient G F O)
  unfolding register_poll_available
  register_available none = (err (rcl rcl_ret_action_client_invalid), none)
  register_available (some c) = (ok tt, some (register_poll_available c))

module _ {G F O : Type 0} (env : Env G F O) where
  -- `ActionClient::send_goal_request` once the client is locked.
  unfoldable pub send_goal_locked :
      G → WrappedActionClient G F O → Result GoalFuture × WrappedActionClient G F O
  send_goal_locked goal c =
      let uuid = env.new_uuid c.calls in
      let request = send_goal uuid goal in
      let result = env.ret c.calls request in
      let seq_no = env.sequence_number c.calls request in
      let future : GoalFuture = record {
        uuid = uuid;
        response = c.next_channel;
        feedback = suc c.next_channel;
        result = suc (suc c.next_channel);
      } in
      let sent = record c {
        feedback_senders = c.feedback_senders ++ (uuid, future.feedback) ∷ [];
        result_senders = c.result_senders ++ (uuid, future.result) ∷ [];
        next_channel = suc (suc (suc c.next_channel));
        calls = request ∷ c.calls;
      } in
      if is_ok result
      then (
        ok future,
        record sent {
          goal_response_channels = c.goal_response_channels ++ (seq_no, future.response) ∷ [];
        },
      )
      else (err (rcl result), record sent { calls = drop future.response ∷ sent.calls })

  -- `ActionClient::send_goal_request`.
  unfoldable pub send_goal_request :
      G
      → Option (WrappedActionClient G F O)
      → Result GoalFuture × Option (WrappedActionClient G F O)
  unfolding send_goal_locked
  send_goal_request goal none = (err (rcl rcl_ret_action_client_invalid), none)
  send_goal_request goal (some c) = let (r, c') = send_goal_locked goal c in (r, some c')

  -- `send_result_request`; a failure of rcl is only printed.
  unfoldable pub send_result_request : Uuid → WrappedActionClient G F O → WrappedActionClient G F O
  send_result_request uuid c =
      let result = env.ret c.calls (send_result uuid) in
      let seq_no = env.sequence_number c.calls (send_result uuid) in
      let sent = record c { calls = send_result uuid ∷ c.calls } in
      if is_ok result
      then record sent { result_requests = c.result_requests ++ (seq_no, uuid) ∷ [] }
      else sent

  -- The future of `send_goal_request`, when its receiver is resolved: `none` is a cancelled one.
  unfoldable pub goal_future :
      GoalFuture
      → Option (Bool × Time)
      → Option (WrappedActionClient G F O)
      → Result GoalFuture × Option (WrappedActionClient G F O)
  unfolding send_result_request
  goal_future future none c = (err (rcl rcl_ret_action_client_invalid), c)
  goal_future future (some (true, stamp)) none = (err (rcl rcl_ret_action_client_invalid), none)
  goal_future future (some (true, stamp)) (some c) =
      (ok future, some (send_result_request future.uuid c))
  goal_future future (some (false, stamp)) c = (err (rcl rcl_ret_action_goal_rejected), c)

  -- `send_cancel_request`: the channel of the response.
  unfoldable pub send_cancel_request :
      Uuid → WrappedActionClient G F O → Result Channel × WrappedActionClient G F O
  send_cancel_request goal c =
      let request = send_cancel (goal_info_of goal) in
      let result = env.ret c.calls request in
      let seq_no = env.sequence_number c.calls request in
      let sent = record c { calls = request ∷ c.calls } in
      if is_ok result
      then (
        ok c.next_channel,
        record sent {
          cancel_response_channels = c.cancel_response_channels ++ (seq_no, c.next_channel) ∷ [];
          next_channel = suc c.next_channel;
        },
      )
      else (err (rcl result), sent)

  -- `ActionClientGoal::cancel`.
  unfoldable pub cancel :
      Uuid
      → Option (WrappedActionClient G F O)
      → Result Channel × Option (WrappedActionClient G F O)
  unfolding send_cancel_request
  cancel uuid none = (err (rcl rcl_ret_action_client_invalid), none)
  cancel uuid (some c) = let (r, c') = send_cancel_request uuid c in (r, some c')

  -- `action_server_available_helper`.
  unfoldable pub action_server_available_helper : List (Call G F O) → Result Bool
  action_server_available_helper calls =
      let result = env.ret calls server_is_available in
      if is_ok result then ok (env.available calls) else err (rcl result)

  -- `poll_available`.
  unfoldable pub poll_available : WrappedActionClient G F O → WrappedActionClient G F O
  unfolding action_server_available_helper poll_channels
  poll_available c =
      let (left, calls) =
        poll_channels notify drop (action_server_available_helper c.calls) c.poll_available_channels
          (server_is_available ∷ c.calls) in
      if is_empty c.poll_available_channels
      then c
      else record c { poll_available_channels = left; calls = calls }

-- The future of `send_cancel_request`, when its receiver is resolved.
unfoldable pub cancel_future : Option CancelResponse → Result (Unit {0})
cancel_future none = err (rcl rcl_ret_client_invalid)
cancel_future (some r) =
    if r.return_code == 0
    then ok tt
    else if r.return_code == 1
    then err goal_cancel_rejected
    else if r.return_code == 2
    then err goal_cancel_unknown_goal_id
    else if r.return_code == 3
    then err goal_cancel_already_terminated
    else panic
