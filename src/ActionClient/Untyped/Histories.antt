-- ===== src/ActionClient/Untyped/Histories.antt =====
-- The untyped action client of src/action_clients_untyped.rs over a whole history, and what a
-- result of a typed server is to it.
use r2r.Prelude.{ℕ, ◌≡◌, ap, ◌∙◌, ◌∷◌, Option, none, some, Bool, true, false, arith}
use mathlib.Core.Path.{subst}
use r2r.Errors.{Result, ok, err, panic, is_ok}
use r2r.GoalStatus.{GoalStatus, from_rcl}
use r2r.ActionMsgs.{Uuid, Time}
use r2r.Polling.{Channel}
use r2r.Pending.{find}
use r2r.MsgTypes.{parsed, IsFaithful, Stands, WrappedNativeMsgUntyped, native_from}
use r2r.MsgTypes.Actions.{
  ActionTypes, make_goal_request_msg, make_result_response_msg, untyped_result_request,
  untyped_result_response,
}
use r2r.MsgTypes.Views.{untyped_goal_request_lem, untyped_result_response_lem}
use r2r.ActionClient.{send_result, take_result_response, answer_result, init}
use r2r.ActionClient.Requests.{
  GoalFuture, goal_future, register_poll_available, send_goal_locked, send_result_request,
}
use r2r.ActionClient.Requests.Goals.{result_request_answered}
use r2r.ActionClient.Responses.Delivery.{
  IsConserved, Reach, here, next, goal_requested, goal_resolved, cancel_requested, registered,
  polled, goal_response, cancel_response, result_response, feedback_msg, status_msg,
  Reach-IsConserved,
}
use r2r.ActionClient.Untyped.{
  WrappedActionClientUntyped, UntypedEnv, env, send_native_goal, untyped_send_goal_locked,
  send_native_result_request, accepted_future, untyped_goal_future, untyped_handle_goal_response,
  untyped_handle_cancel_response, untyped_handle_feedback_msg, untyped_handle_status_msg,
  untyped_handle_result_response, untyped_send_cancel_request, untyped_poll_available,
}

module _ {Native Json Goal Feedback Outcome : Type 0}
    (t : ActionTypes Native Json Goal Feedback Outcome) (raw : UntypedEnv Native Json) where
  pub data UntypedStep (c : WrappedActionClientUntyped Native Json)
      : WrappedActionClientUntyped Native Json → Type 0 where
    goal_sent : (goal : Json) → UntypedStep c (untyped_send_goal_locked t raw goal c).1
    goal_settled :
        {c' : WrappedActionClientUntyped Native Json} (future : GoalFuture)
        (outcome : Option (Bool × Time)) (r : Result GoalFuture)
        → untyped_goal_future t raw future outcome (some c) ≡ (r, some c')
        → UntypedStep c c'
    cancel_sent : (uuid : Uuid) → UntypedStep c (untyped_send_cancel_request t raw uuid c).1
    poll_registered : UntypedStep c (register_poll_available c)
    server_polled : UntypedStep c (untyped_poll_available t raw c)
    goal_answered :
        {c' : WrappedActionClientUntyped Native Json}
        → untyped_handle_goal_response t raw c ≡ ok c'
        → UntypedStep c c'
    cancel_answered :
        {c' : WrappedActionClientUntyped Native Json}
        → untyped_handle_cancel_response t raw c ≡ ok c'
        → UntypedStep c c'
    result_answered :
        {c' : WrappedActionClientUntyped Native Json}
        → untyped_handle_result_response t raw c ≡ ok c'
        → UntypedStep c c'
    feedback_taken : UntypedStep c (untyped_handle_feedback_msg t raw c)
    statuses_taken :
        {c' : WrappedActionClientUntyped Native Json}
        → untyped_handle_status_msg t raw c ≡ ok c'
        → UntypedStep c c'

  pub data UntypedReach (c : WrappedActionClientUntyped Native Json)
      : WrappedActionClientUntyped Native Json → Type 0 where
    start : UntypedReach c c
    step :
        {d e : WrappedActionClientUntyped Native Json}
        → UntypedReach c d
        → UntypedStep d e
        → UntypedReach c e

  -- The states that the typed client, over native goals, reaches.
  abbrev Reachable : WrappedActionClientUntyped Native Json → Type 0
  Reachable = Reach (env t raw) (init Native (Result Json) (Result Json))

  native-Reachable :
      (native : Result (WrappedNativeMsgUntyped Native Json))
      (c : WrappedActionClientUntyped Native Json)
      → Reachable c
      → Reachable (send_native_goal t raw native c).1
  unfolding send_native_goal
  native-Reachable (ok native_msg) c r = next r (goal_requested native_msg.msg)
  native-Reachable (err e) c r = r
  native-Reachable panic c r = r

  accepted-Reachable :
      (future : GoalFuture) (stamp : Time) (native : Result (WrappedNativeMsgUntyped Native Json))
      (c c' : WrappedActionClientUntyped Native Json) (r : Result GoalFuture)
      → accepted_future t raw future (send_native_result_request t raw future.uuid native c) c
        ≡ (r, some c')
      → Reachable c
      → Reachable c'
  unfolding accepted_future send_native_result_request goal_future
  accepted-Reachable future stamp (ok native_msg) c c' r e reached =
      next reached (goal_resolved future (some (true, stamp)) (ok future) (ground (arith, e)))
  accepted-Reachable future stamp (err x) c c' r e reached =
      subst Reachable (ground (arith, e)) reached
  accepted-Reachable future stamp panic c c' r e reached =
      subst Reachable (ground (arith, e)) reached

  settled-Reachable :
      (future : GoalFuture) (outcome : Option (Bool × Time)) (r : Result GoalFuture)
      (c c' : WrappedActionClientUntyped Native Json)
      → untyped_goal_future t raw future outcome (some c) ≡ (r, some c')
      → Reachable c
      → Reachable c'
  unfolding untyped_goal_future
  settled-Reachable future none r c c' e reached = subst Reachable (ground (arith, e)) reached
  settled-Reachable future (some (true, stamp)) r c c' e reached =
      accepted-Reachable future stamp (untyped_result_request t future.uuid) c c' r e reached
  settled-Reachable future (some (false, stamp)) r c c' e reached =
      subst Reachable (ground (arith, e)) reached

  UntypedReach-Reachable :
      {c : WrappedActionClientUntyped Native Json}
      → UntypedReach (init Native (Result Json) (Result Json)) c
      → Reachable c
  unfolding untyped_send_goal_locked untyped_send_cancel_request untyped_poll_available
      untyped_handle_goal_response untyped_handle_cancel_response untyped_handle_result_response
      untyped_handle_feedback_msg untyped_handle_status_msg
  UntypedReach-Reachable start = here
  UntypedReach-Reachable (step r (goal_sent goal)) = native-Reachable _ _ (UntypedReach-Reachable r)
  UntypedReach-Reachable (step r (goal_settled future outcome result e)) =
      settled-Reachable future outcome result _ _ e (UntypedReach-Reachable r)
  UntypedReach-Reachable (step r (cancel_sent uuid)) =
      next (UntypedReach-Reachable r) (cancel_requested uuid)
  UntypedReach-Reachable (step r poll_registered) = next (UntypedReach-Reachable r) registered
  UntypedReach-Reachable (step r server_polled) = next (UntypedReach-Reachable r) polled
  UntypedReach-Reachable (step r (goal_answered e)) =
      next (UntypedReach-Reachable r) (goal_response e)
  UntypedReach-Reachable (step r (cancel_answered e)) =
      next (UntypedReach-Reachable r) (cancel_response e)
  UntypedReach-Reachable (step r (result_answered e)) =
      next (UntypedReach-Reachable r) (result_response e)
  UntypedReach-Reachable (step r feedback_taken) = next (UntypedReach-Reachable r) feedback_msg
  UntypedReach-Reachable (step r (statuses_taken e)) =
      next (UntypedReach-Reachable r) (status_msg e)

  -- In every history of an untyped action client, from its creation, each channel that it created
  -- is in exactly one place: among those of the goal requests, the cancel requests, the feedback
  -- streams, the results, or the polls for the server, or used up, once.
  pub action_UntypedReach-IsConserved :
      {c : WrappedActionClientUntyped Native Json}
      → UntypedReach (init Native (Result Json) (Result Json)) c
      → IsConserved c
  action_UntypedReach-IsConserved r = Reach-IsConserved (env t raw) (UntypedReach-Reachable r)

  -- If goal requests that are copied to native memory are read back from it, and serde reads back what
  -- it writes for this one, a goal whose JSON value is parsed goes to rcl as the native message that a
  -- typed client sends for the goal, under the same id.
  pub untyped_goal_sent :
      (goal : Goal) (value request : Json) (c : WrappedActionClientUntyped Native Json)
      → let uuid = raw.new_uuid c.calls in
        IsFaithful t.send_goal_request
        → t.goal.from_value value ≡ parsed goal
        → Stands t.send_goal_request (make_goal_request_msg uuid goal) request
        → untyped_send_goal_locked t raw value c
          ≡ send_goal_locked
              (env t raw)
              (native_from t.send_goal_request (make_goal_request_msg uuid goal))
              c
  unfolding untyped_send_goal_locked send_native_goal
  untyped_goal_sent goal value request c faithful e s =
      let uuid = raw.new_uuid c.calls in
      let (w, made, native, back) =
        untyped_goal_request_lem t uuid goal value request faithful e s in
      ap (λ (x : Result (WrappedNativeMsgUntyped Native Json)). send_native_goal t raw x c) made
      ∙ ap (λ (n : Native). send_goal_locked (env t raw) n c) native

  -- After an untyped client requested the result of a goal that it awaits, under a free sequence
  -- number, the response that a server wrote for a result is sent, with the server's status, to the
  -- channel of the goal, as the JSON that stands for the result; given that results copied to native
  -- memory are read back from it, and that rcl sends the request and takes the response.
  pub untyped_result_answered :
      (uuid : Uuid) (sender : Channel) (number : ℕ) (status : GoalStatus) (result : Outcome)
      (json : Json) (old : Native) (c : WrappedActionClientUntyped Native Json)
      → let seq_no = raw.sequence_number c.calls (send_result uuid) in
        let c1 = send_result_request (env t raw) uuid c in
        find uuid c.result_senders ≡ some sender
        → is_ok (raw.ret c.calls (send_result uuid)) ≡ true
        → find seq_no c.result_requests ≡ none
        → is_ok (raw.ret c1.calls take_result_response) ≡ true
        → raw.result_response c1.calls ≡ (
          seq_no,
          t.get_result_response.copy_to_native (make_result_response_msg number result) old,
        )
        → from_rcl number ≡ some status
        → IsFaithful t.get_result_response
        → Stands t.outcome result json
        → (c2 : WrappedActionClientUntyped Native Json) × (untyped_handle_result_response t raw c1
            ≡ ok c2)
          × (c2.calls ≡ answer_result sender status (ok json) ∷ take_result_response ∷ c1.calls)
  unfolding untyped_handle_result_response env
  untyped_result_answered uuid sender number status result json old c awaited sent free took
        response good faithful s =
      let read : untyped_result_response t
            (raw.result_response (send_result_request (env t raw) uuid c).calls).1
          ≡ (number, ok json) =
        ap (λ (r : ℕ × Native). untyped_result_response t r.1) response
        ∙ untyped_result_response_lem t number result json old faithful s in
      result_request_answered (env t raw) uuid sender number status (ok json) c awaited sent free
        took (ground (arith, read, response)) good
