-- ===== src/ActionServer.antt =====
-- src/action_servers.rs: the state of an action server, `WrappedActionServer`, and its environment.
-- The operations are in the modules below. The rcl_action library and the channels of the futures
-- crate are the environment: what a call of them answers may depend in any way on the calls made
-- before it, newest first.
pub mod Goals
pub mod Cancels
pub mod Results
pub mod History
use r2r.Prelude.{ℕ, List, Option, Bool, []}
use r2r.Prelude.Maps.{HashMap, empty}
use r2r.Errors.{Ret}
use r2r.Polling.{Channel}
use r2r.ActionMsgs.{Uuid, RequestId, GoalInfo, CancelResponse}

-- `*mut rcl_action_goal_handle_t`.
abbrev pub GoalHandle : Type 0
GoalHandle = ℕ

-- The members of `rcl_action_goal_event_t` that the server uses.
pub data GoalEvent : Type 0 where
  goal_event_execute goal_event_cancel_goal goal_event_succeed goal_event_abort : GoalEvent

-- The response of the GetResult service: a status, and the result.
pub record ResultMsg (Outcome : Type 0) : Type 0 where
  pub status : ℕ
  pub result : Outcome

-- `ActionServerGoalRequest`, without its reference to the server.
pub record ActionServerGoalRequest (Goal : Type 0) : Type 0 where
  pub uuid : Uuid
  pub goal : Goal
  pub cancel_requests : Channel
  pub request_id : RequestId

-- A cancel request whose answers are awaited.
pub record ActiveCancel : Type 0 where
  pub request_id : RequestId
  pub response : CancelResponse
  pub channels : List Channel

module _ (Goal Feedback Outcome : Type 0) where
  pub data Call : Type 0 where
    take_goal_request take_cancel_request take_result_request : Call
    accept_new_goal : GoalInfo → Call
    send_goal_response : RequestId → Bool → Call
    update_goal_state : GoalHandle → GoalEvent → Call
    goal_handle_get_status : GoalHandle → Call
    server_goal_exists : GoalInfo → Call
    notify_goal_done get_goal_status_array publish_status goal_status_array_fini : Call
    publish_feedback : Uuid → Feedback → Call
    process_cancel_request : GoalInfo → Call
    send_cancel_response : RequestId → CancelResponse → Call
    send_result_response : RequestId → ResultMsg Outcome → Call
    expire_goals : Call
    -- `try_send` on the stream of goal requests
    offer_goal : ActionServerGoalRequest Goal → Call
    -- `try_send` on the cancel stream of a goal: the stream, the goal, the channel for the answer
    offer_cancel : Channel → Uuid → Channel → Call
    -- `now_or_never` on the joined answers to a cancel request
    poll_answers : List Channel → Call

  pub record Env : Type 0 where
    pub ret : List Call → Call → Ret
    pub goal_request : List Call → RequestId × Uuid × Goal
    pub cancel_request : List Call → RequestId × GoalInfo
    pub cancel_response : List Call → GoalInfo → CancelResponse
    pub result_request : List Call → RequestId × Uuid
    pub new_goal_handle : List Call → GoalInfo → GoalHandle
    pub goal_exists : List Call → GoalInfo → Bool
    pub goal_handle_status : List Call → GoalHandle → ℕ
    -- the goal that expired, and how many did
    pub expired : List Call → Uuid × ℕ
    -- whether a `try_send` succeeds
    pub delivers : List Call → Call → Bool
    -- the answers, if all are there: a goal and whether to cancel it, or `none` for a request that
    -- was dropped
    pub answers : List Call → List Channel → Option (List (Option (Uuid × Bool)))
    -- `T::Result::default()`
    pub default_outcome : Outcome
    -- what rcl reads where a message was that is freed already
    pub freed : List Call → ResultMsg Outcome → ResultMsg Outcome

  -- `next_channel` and `calls` stand for the world: the channel that is created next, and the
  -- calls that were made.
  pub record WrappedActionServer : Type 0 where
    pub cancel_senders : HashMap Channel
    pub active_cancel_requests : List ActiveCancel
    pub goals : HashMap GoalHandle
    pub result_msgs : HashMap (ResultMsg Outcome)
    pub result_requests : HashMap (List RequestId)
    pub next_channel : Channel
    pub calls : List Call

  -- A server as `Node::create_action_server` makes it.
  abbrev pub init : WrappedActionServer
  init = record {
    cancel_senders = empty;
    active_cancel_requests = [];
    goals = empty;
    result_msgs = empty;
    result_requests = empty;
    next_channel = 0;
    calls = [];
  }
