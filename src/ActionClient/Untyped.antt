-- ===== src/ActionClient/Untyped.antt =====
-- src/action_clients_untyped.rs: the action client whose goals, feedback and results are JSON
-- values. Its state is that of the typed client, for goals in native memory; it takes native
-- messages from rcl and reads them by the closures of `UntypedActionSupport`.
pub mod Histories
use r2r.Prelude.{ℕ, List, Option, none, some, Bool, true, false}
use r2r.Errors.{
  Ret, rcl_ret_action_client_invalid, rcl_ret_action_goal_rejected, rcl, Result, ok, err, panic,
}
use r2r.GoalStatus.{GoalStatus}
use r2r.ActionMsgs.{Uuid, Time, CancelResponse}
use r2r.Polling.{Channel}
use r2r.MsgTypes.{WrappedNativeMsgUntyped}
use r2r.MsgTypes.Actions.{
  ActionTypes, untyped_goal_request, untyped_goal_response, untyped_feedback,
  untyped_result_request, untyped_result_response,
}
use r2r.ActionClient.{Call, Env, WrappedActionClient}
use r2r.ActionClient.Requests.{
  GoalFuture, get_status, register_poll_available, register_available, send_goal_locked,
  send_result_request, send_cancel_request, cancel, poll_available,
}
use r2r.ActionClient.Responses.{
  handle_goal_response, handle_cancel_response, handle_feedback_msg, handle_status_msg,
  handle_result_response,
}

module _ (Native Json : Type 0) where
  abbrev pub UntypedCall : Type 0
  UntypedCall = Call Native (Result Json) (Result Json)

  abbrev pub WrappedActionClientUntyped : Type 0
  WrappedActionClientUntyped = WrappedActionClient Native (Result Json) (Result Json)

  -- As `Env` of the typed client; what the calls that take a message write is in native memory.
  pub record UntypedEnv : Type 0 where
    pub ret : List UntypedCall → UntypedCall → Ret
    pub sequence_number : List UntypedCall → UntypedCall → ℕ
    pub new_uuid : List UntypedCall → Uuid
    pub goal_response : List UntypedCall → ℕ × Native
    pub cancel_response : List UntypedCall → ℕ × CancelResponse
    pub result_response : List UntypedCall → ℕ × Native
    pub feedback : List UntypedCall → Native
    pub statuses : List UntypedCall → List (Uuid × ℕ)
    pub available : List UntypedCall → Bool

module _ {Native Json Goal Feedback Outcome : Type 0}
    (t : ActionTypes Native Json Goal Feedback Outcome) (raw : UntypedEnv Native Json) where
  -- What the handlers read from the messages that they take.
  unfoldable pub env : Env Native (Result Json) (Result Json)
  unfolding untyped_goal_response untyped_feedback untyped_result_response
  env = record {
    ret = raw.ret;
    sequence_number = raw.sequence_number;
    new_uuid = raw.new_uuid;
    goal_response = λ calls.
        let (seq_no, msg) = raw.goal_response calls in
        let (accepted, stamp) = untyped_goal_response t msg in (seq_no, accepted, stamp);
    cancel_response = raw.cancel_response;
    result_response = λ calls.
        let (seq_no, msg) = raw.result_response calls in
        let (status, result) = untyped_result_response t msg in (seq_no, status, result);
    feedback = λ calls. untyped_feedback t (raw.feedback calls);
    statuses = raw.statuses;
    available = raw.available;
  }

  -- `ActionClientUntyped::send_goal_request` once the client is locked and the goal converted.
  unfoldable pub send_native_goal :
      Result (WrappedNativeMsgUntyped Native Json)
      → WrappedActionClientUntyped Native Json
      → Result GoalFuture × WrappedActionClientUntyped Native Json
  unfolding send_goal_locked
  send_native_goal (ok native_msg) c = send_goal_locked env native_msg.msg c
  send_native_goal (err e) c = (err e, c)
  send_native_goal panic c = (panic, c)

  -- `ActionClientUntyped::send_goal_request` once the client is locked; a value that is no goal is
  -- a panic.
  unfoldable pub untyped_send_goal_locked :
      Json
      → WrappedActionClientUntyped Native Json
      → Result GoalFuture × WrappedActionClientUntyped Native Json
  unfolding send_native_goal untyped_goal_request
  untyped_send_goal_locked goal c =
      send_native_goal (untyped_goal_request t (raw.new_uuid c.calls) goal) c

  -- `ActionClientUntyped::send_goal_request`.
  unfoldable pub untyped_send_goal_request :
      Json
      → Option (WrappedActionClientUntyped Native Json)
      → Result GoalFuture × Option (WrappedActionClientUntyped Native Json)
  unfolding untyped_send_goal_locked
  untyped_send_goal_request goal none = (err (rcl rcl_ret_action_client_invalid), none)
  untyped_send_goal_request goal (some c) =
      let (r, c') = untyped_send_goal_locked goal c in (r, some c')

  -- `WrappedActionClientUntyped::send_result_request` once the request is converted. The call is
  -- recorded by its goal, which is all that the native message holds.
  unfoldable pub send_native_result_request :
      Uuid
      → Result (WrappedNativeMsgUntyped Native Json)
      → WrappedActionClientUntyped Native Json
      → Result (WrappedActionClientUntyped Native Json)
  unfolding send_result_request
  send_native_result_request uuid (ok native_msg) c = ok (send_result_request env uuid c)
  send_native_result_request uuid (err e) c = err e
  send_native_result_request uuid panic c = panic

  -- `WrappedActionClientUntyped::send_result_request`.
  unfoldable pub untyped_send_result_request :
      Uuid
      → WrappedActionClientUntyped Native Json
      → Result (WrappedActionClientUntyped Native Json)
  unfolding send_native_result_request untyped_result_request
  untyped_send_result_request uuid c =
      send_native_result_request uuid (untyped_result_request t uuid) c

  -- The end of the future of an accepted goal, once the result was requested.
  unfoldable pub accepted_future :
      GoalFuture
      → Result (WrappedActionClientUntyped Native Json)
      → WrappedActionClientUntyped Native Json
      → Result GoalFuture × Option (WrappedActionClientUntyped Native Json)
  accepted_future future (ok c') c = (ok future, some c')
  accepted_future future (err e) c = (err e, some c)
  accepted_future future panic c = (panic, some c)

  -- The future of `ActionClientUntyped::send_goal_request`, when its receiver is resolved.
  unfoldable pub untyped_goal_future :
      GoalFuture
      → Option (Bool × Time)
      → Option (WrappedActionClientUntyped Native Json)
      → Result GoalFuture × Option (WrappedActionClientUntyped Native Json)
  unfolding accepted_future untyped_send_result_request
  untyped_goal_future future none c = (err (rcl rcl_ret_action_client_invalid), c)
  untyped_goal_future future (some (true, stamp)) none =
      (err (rcl rcl_ret_action_client_invalid), none)
  untyped_goal_future future (some (true, stamp)) (some c) =
      accepted_future future (untyped_send_result_request future.uuid c) c
  untyped_goal_future future (some (false, stamp)) c = (err (rcl rcl_ret_action_goal_rejected), c)

  -- The operations that do not convert a message themselves.
  unfoldable pub untyped_handle_goal_response :
      WrappedActionClientUntyped Native Json → Result (WrappedActionClientUntyped Native Json)
  unfolding handle_goal_response env
  untyped_handle_goal_response c = handle_goal_response env c

  unfoldable pub untyped_handle_cancel_response :
      WrappedActionClientUntyped Native Json → Result (WrappedActionClientUntyped Native Json)
  unfolding handle_cancel_response env
  untyped_handle_cancel_response c = handle_cancel_response env c

  unfoldable pub untyped_handle_feedback_msg :
      WrappedActionClientUntyped Native Json → WrappedActionClientUntyped Native Json
  unfolding handle_feedback_msg env
  untyped_handle_feedback_msg c = handle_feedback_msg env c

  unfoldable pub untyped_handle_status_msg :
      WrappedActionClientUntyped Native Json → Result (WrappedActionClientUntyped Native Json)
  unfolding handle_status_msg env
  untyped_handle_status_msg c = handle_status_msg env c

  unfoldable pub untyped_handle_result_response :
      WrappedActionClientUntyped Native Json → Result (WrappedActionClientUntyped Native Json)
  unfolding handle_result_response env
  untyped_handle_result_response c = handle_result_response env c

  unfoldable pub untyped_send_cancel_request :
      Uuid
      → WrappedActionClientUntyped Native Json
      → Result Channel × WrappedActionClientUntyped Native Json
  unfolding send_cancel_request env
  untyped_send_cancel_request uuid c = send_cancel_request env uuid c

  unfoldable pub untyped_poll_available :
      WrappedActionClientUntyped Native Json → WrappedActionClientUntyped Native Json
  unfolding poll_available env
  untyped_poll_available c = poll_available env c
