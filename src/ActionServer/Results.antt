-- ===== src/ActionServer/Results.antt =====
-- src/action_servers.rs: the results of goals, and the requests for them.
pub mod Waiting
pub mod Finishing
pub mod Served
use r2r.Prelude.{
  ℕ, zero, suc, List, [], ◌∷◌, ◌++◌, Option, none, some, Bool, true, false, if◌then◌else◌, ltb, not,
}
use r2r.Prelude.Maps.{insert, remove}
use r2r.Errors.{
  rcl_ret_action_goal_handle_invalid, rcl_ret_action_server_invalid, rcl, Result, ok, err, panic,
  is_ok,
}
use r2r.GoalStatus.{unknown, to_rcl}
use r2r.ActionMsgs.{Uuid, RequestId, goal_info_of}
use r2r.ActionServer.{
  GoalEvent, goal_event_succeed, goal_event_abort, ResultMsg, Call, take_result_request,
  server_goal_exists, notify_goal_done, send_result_response, expire_goals, Env,
  WrappedActionServer,
}
use r2r.ActionServer.Goals.{called, publish_statuses, set_goal_state}

-- `.entry(uuid).or_insert(vec![]).push(request_id)`.
abbrev pub enqueue : Option (List RequestId) → RequestId → List RequestId
enqueue none request_id = request_id ∷ []
enqueue (some rr) request_id = rr ++ request_id ∷ []

module _ {G F O : Type 0} where
  -- `for mut req in rr`: a failure of rcl is only printed.
  unfoldable pub send_results : List RequestId → ResultMsg O → List (Call G F O) → List (Call G F O)
  send_results [] msg calls = calls
  send_results (req ∷ rr) msg calls = send_results rr msg (send_result_response req msg ∷ calls)

  -- `WrappedActionServer::add_result`.
  unfoldable pub add_result :
      Uuid → ResultMsg O → WrappedActionServer G F O → WrappedActionServer G F O
  unfolding send_results
  add_result uuid msg s = elim (s.result_requests uuid) [
    | none ↦ record s { result_msgs = insert uuid msg s.result_msgs }
    | some rr ↦ record s {
      result_requests = remove uuid s.result_requests;
      calls = send_results rr msg s.calls;
      result_msgs = insert uuid msg s.result_msgs;
    }
  ]

module _ {G F O : Type 0} (env : Env G F O) where
  -- The message that a result request is answered with, if there is one already. The response for a
  -- goal that does not exist is dropped before rcl reads it, so what rcl reads is a parameter.
  unfoldable pub available_result : Uuid → WrappedActionServer G F O → Option (ResultMsg O)
  unfolding to_rcl
  available_result uuid s =
      if not (env.goal_exists (take_result_request ∷ s.calls) (goal_info_of uuid))
      then some
          (env.freed s.calls (record { status = to_rcl unknown; result = env.default_outcome }))
      else s.result_msgs uuid

  -- `handle_result_request`.
  unfoldable pub handle_result_request : WrappedActionServer G F O → WrappedActionServer G F O
  unfolding available_result
  handle_result_request s =
      let ret = env.ret s.calls take_result_request in
      let (request_id, uuid) = env.result_request s.calls in
      let taken = called take_result_request s in
      let asked = called (server_goal_exists (goal_info_of uuid)) taken in
      if not (is_ok ret) then taken else elim (available_result uuid s) [
        | some msg ↦ called (send_result_response request_id msg) asked
        | none ↦ record asked {
          result_requests =
              insert uuid (enqueue (asked.result_requests uuid) request_id) asked.result_requests;
        }
      ]

  -- `while num_expired > 1` of `handle_goal_expired`, on fuel; `none` says that it ran out.
  unfoldable pub expire_loop :
      ℕ → ℕ → WrappedActionServer G F O → Option (WrappedActionServer G F O)
  expire_loop zero num_expired s = none
  expire_loop (suc fuel) num_expired s =
      let ret = env.ret s.calls expire_goals in
      let (uuid, left) = env.expired s.calls in
      let asked = called expire_goals s in
      let rest = expire_loop fuel left (record asked {
        result_msgs = remove uuid asked.result_msgs;
        result_requests = remove uuid asked.result_requests;
      }) in
      if ltb 1 num_expired then (if not (is_ok ret) then some asked else rest) else some s

  -- `handle_goal_expired`.
  unfoldable pub handle_goal_expired :
      ℕ → WrappedActionServer G F O → Option (WrappedActionServer G F O)
  unfolding expire_loop
  handle_goal_expired fuel s = expire_loop fuel 1 s

  -- What `succeed` and `abort` of `ActionServerGoal` have in common: they differ in the event and
  -- in the status of the result.
  unfoldable pub finish :
      GoalEvent
      → ℕ
      → Uuid
      → O
      → Option (WrappedActionServer G F O)
      → Result (Unit {0}) × Option (WrappedActionServer G F O)
  unfolding set_goal_state add_result
  finish event status uuid msg none = (err (rcl rcl_ret_action_server_invalid), none)
  finish event status uuid msg (some s) =
      let (r, s') = set_goal_state env uuid event s in
      elim r [
        | ok _ ↦ (ok tt, some (add_result uuid (record { status = status; result = msg }) s'))
        | err e ↦ (err e, some s')
        | panic ↦ (panic, some s')
      ]

  -- `ActionServerGoal::succeed`.
  unfoldable pub succeed :
      Uuid
      → O
      → Option (WrappedActionServer G F O)
      → Result (Unit {0}) × Option (WrappedActionServer G F O)
  unfolding finish
  succeed = finish goal_event_succeed 4

  -- `ActionServerGoal::abort`.
  unfoldable pub abort :
      Uuid
      → O
      → Option (WrappedActionServer G F O)
      → Result (Unit {0}) × Option (WrappedActionServer G F O)
  unfolding finish
  abort = finish goal_event_abort 6

  -- `ActionServerGoal::cancel`: no event; 5 is STATUS_CANCELED.
  unfoldable pub cancel :
      Uuid
      → O
      → Option (WrappedActionServer G F O)
      → Result (Unit {0}) × Option (WrappedActionServer G F O)
  unfolding publish_statuses add_result
  cancel uuid msg none = (err (rcl rcl_ret_action_server_invalid), none)
  cancel uuid msg (some s) =
      let goal_info = goal_info_of uuid in
      let asked = called (server_goal_exists goal_info) s in
      let published = publish_statuses env (called notify_goal_done asked) in
      if not (env.goal_exists s.calls goal_info)
      then (err (rcl rcl_ret_action_goal_handle_invalid), some asked)
      else (ok tt, some (add_result uuid (record { status = 5; result = msg }) published))
