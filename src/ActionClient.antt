-- ===== src/ActionClient.antt =====
-- src/action_clients.rs: the state of an action client, `WrappedActionClient`, and its environment.
-- The operations are in the modules below. The rcl_action library and the channels of the futures
-- crate are the environment: what a call of them answers may depend in any way on the calls made
-- before it, newest first.
pub mod Requests
pub mod Responses
pub mod Untyped
use r2r.Prelude.{ℕ, List, [], Bool}
use r2r.Prelude.Maps.{HashMap, empty}
use r2r.Errors.{Ret}
use r2r.GoalStatus.{GoalStatus}
use r2r.ActionMsgs.{Uuid, Time, GoalInfo, CancelResponse}
use r2r.Polling.{Channel}
use r2r.Pending.{Pending}

module _ (Goal Feedback Outcome : Type 0) where
  pub data Call : Type 0 where
    send_goal : Uuid → Goal → Call
    send_cancel : GoalInfo → Call
    send_result : Uuid → Call
    take_goal_response take_cancel_response take_result_response take_feedback take_status : Call
    server_is_available : Call
    -- `Sender::send` on the channels of the three kinds of requests
    answer_goal : Channel → Bool → Time → Call
    answer_cancel : Channel → CancelResponse → Call
    answer_result : Channel → GoalStatus → Outcome → Call
    -- `try_send` on the feedback stream of a goal
    offer_feedback : Channel → Feedback → Call
    -- `Sender::send` of `()`, to a future of `Node::is_available`
    notify : Channel → Call
    -- a sender that goes out of scope unused: its receiver is cancelled
    drop : Channel → Call

  pub record Env : Type 0 where
    pub ret : List Call → Call → Ret
    -- the number that the call for a request writes
    pub sequence_number : List Call → Call → ℕ
    -- `Uuid::new_v4()`
    pub new_uuid : List Call → Uuid
    -- what the calls that take a message write, the sequence number of the request first
    pub goal_response : List Call → ℕ × Bool × Time
    pub cancel_response : List Call → ℕ × CancelResponse
    pub result_response : List Call → ℕ × ℕ × Outcome
    pub feedback : List Call → Uuid × Feedback
    pub statuses : List Call → List (Uuid × ℕ)
    pub available : List Call → Bool

  -- `next_channel` and `calls` stand for the world: the channel that is created next, and the
  -- calls that were made.
  pub record WrappedActionClient : Type 0 where
    pub goal_response_channels : Pending Channel
    pub cancel_response_channels : Pending Channel
    pub feedback_senders : Pending Channel
    pub result_requests : Pending Uuid
    pub result_senders : Pending Channel
    pub goal_status : HashMap GoalStatus
    pub poll_available_channels : List Channel
    pub next_channel : Channel
    pub calls : List Call

  -- A client as `Node::create_action_client` makes it.
  abbrev pub init : WrappedActionClient
  init = record {
    goal_response_channels = [];
    cancel_response_channels = [];
    feedback_senders = [];
    result_requests = [];
    result_senders = [];
    goal_status = empty;
    poll_available_channels = [];
    next_channel = 0;
    calls = [];
  }
