-- ===== src/MsgTypes/Actions.antt =====
-- The messages of an action: the parts of `WrappedActionTypeSupport` that r2r_msg_gen/src/lib.rs
-- generates for every action, and `UntypedActionSupport` of src/msg_types.rs.
use r2r.Prelude.{ℕ, Bool}
use r2r.Errors.{Result, ok, panic, ◌>>=◌}
use r2r.ActionMsgs.{Uuid, Time}
use r2r.MsgTypes.{
  parsed, malformed, Typesupport, WrappedNativeMsgUntyped, new_untyped, serde_result, expect_serde,
}

pub record SendGoalRequest (Goal : Type 0) : Type 0 where
  pub goal_id : Uuid
  pub goal : Goal

pub record SendGoalResponse : Type 0 where
  pub accepted : Bool
  pub stamp : Time

pub record FeedbackMessage (Feedback : Type 0) : Type 0 where
  pub goal_id : Uuid
  pub feedback : Feedback

pub record GetResultRequest : Type 0 where
  pub goal_id : Uuid

pub record GetResultResponse (Outcome : Type 0) : Type 0 where
  pub status : ℕ
  pub result : Outcome

-- The methods of `WrappedActionTypeSupport`, as `generate_rust_action` writes them.
abbrev pub make_goal_request_msg : {Goal : Type 0} → Uuid → Goal → SendGoalRequest Goal
make_goal_request_msg goal_id goal = record { goal_id = goal_id; goal = goal }

abbrev pub make_goal_response_msg : Bool → Time → SendGoalResponse
make_goal_response_msg accepted stamp = record { accepted = accepted; stamp = stamp }

abbrev pub make_feedback_msg : {Feedback : Type 0} → Uuid → Feedback → FeedbackMessage Feedback
make_feedback_msg goal_id feedback = record { goal_id = goal_id; feedback = feedback }

abbrev pub make_result_request_msg : Uuid → GetResultRequest
make_result_request_msg goal_id = record { goal_id = goal_id }

abbrev pub make_result_response_msg : {Outcome : Type 0} → ℕ → Outcome → GetResultResponse Outcome
make_result_response_msg status result = record { status = status; result = result }

abbrev pub destructure_goal_request_msg : {Goal : Type 0} → SendGoalRequest Goal → Uuid × Goal
destructure_goal_request_msg msg = (msg.goal_id, msg.goal)

abbrev pub destructure_goal_response_msg : SendGoalResponse → Bool × Time
destructure_goal_response_msg msg = (msg.accepted, msg.stamp)

abbrev pub destructure_feedback_msg :
    {Feedback : Type 0} → FeedbackMessage Feedback → Uuid × Feedback
destructure_feedback_msg msg = (msg.goal_id, msg.feedback)

abbrev pub destructure_result_response_msg :
    {Outcome : Type 0} → GetResultResponse Outcome → ℕ × Outcome
destructure_result_response_msg msg = (msg.status, msg.result)

abbrev pub destructure_result_request_msg : GetResultRequest → Uuid
destructure_result_request_msg msg = msg.goal_id

-- The generated types of an action.
pub record ActionTypes (Native Json Goal Feedback Outcome : Type 0) : Type 0 where
  pub goal : Typesupport Native Json Goal
  pub feedback : Typesupport Native Json Feedback
  pub outcome : Typesupport Native Json Outcome
  pub send_goal_request : Typesupport Native Json (SendGoalRequest Goal)
  pub send_goal_response : Typesupport Native Json SendGoalResponse
  pub feedback_message : Typesupport Native Json (FeedbackMessage Feedback)
  pub get_result_request : Typesupport Native Json GetResultRequest
  pub get_result_response : Typesupport Native Json (GetResultResponse Outcome)

module _ {Native Json : Type 0} where
  -- `native_untyped.from_json(json).expect(..)`.
  abbrev pub expect_from_json :
      Json → WrappedNativeMsgUntyped Native Json → Result (WrappedNativeMsgUntyped Native Json)
  expect_from_json json w = elim (w.msg_from_json w.msg json) [
    | parsed native ↦ ok (record w { msg = native })
    | malformed text ↦ panic
  ]

module _ {Native Json Goal Feedback Outcome : Type 0}
    (t : ActionTypes Native Json Goal Feedback Outcome) where
  -- The closures of `UntypedActionSupport::new`. A value that does not fit is a panic.
  unfoldable pub untyped_goal_request : Uuid → Json → Result (WrappedNativeMsgUntyped Native Json)
  unfolding new_untyped
  untyped_goal_request goal_id goal = do
    goal_msg ← expect_serde (t.goal.from_value goal)
    json ← expect_serde (t.send_goal_request.to_value (make_goal_request_msg goal_id goal_msg))
    expect_from_json json (new_untyped t.send_goal_request)

  unfoldable pub untyped_goal_response : Native → Bool × Time
  untyped_goal_response msg = destructure_goal_response_msg (t.send_goal_response.from_native msg)

  unfoldable pub untyped_feedback : Native → Uuid × Result Json
  untyped_feedback msg =
      let (uuid, feedback) = destructure_feedback_msg (t.feedback_message.from_native msg) in
      (uuid, serde_result (t.feedback.to_value feedback))

  unfoldable pub untyped_result_request : Uuid → Result (WrappedNativeMsgUntyped Native Json)
  unfolding new_untyped
  untyped_result_request goal_id = do
    json ← expect_serde (t.get_result_request.to_value (make_result_request_msg goal_id))
    expect_from_json json (new_untyped t.get_result_request)

  unfoldable pub untyped_result_response : Native → ℕ × Result Json
  untyped_result_response msg =
      let (status, result) =
        destructure_result_response_msg (t.get_result_response.from_native msg) in
      (status, serde_result (t.outcome.to_value result))
