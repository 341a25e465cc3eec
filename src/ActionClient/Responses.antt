-- ===== src/ActionClient/Responses.antt =====
-- src/action_clients.rs: what an action client does with the messages that come in.
pub mod Handling
pub mod Statuses
pub mod Delivery
use r2r.Prelude.{ℕ, List, [], ◌∷◌, Option, none, some, Bool, true, false, if◌then◌else◌, ◌==◌, any}
use r2r.Prelude.Maps.{HashMap, insert}
use r2r.Errors.{Result, ok, panic, is_ok}
use r2r.GoalStatus.{GoalStatus, from_rcl}
use r2r.ActionMsgs.{Uuid}
use r2r.Polling.{Channel}
use r2r.Pending.{Pending, take_key, find, has_key}
use r2r.ActionClient.{
  take_goal_response, take_cancel_response, take_result_response, take_feedback, take_status,
  answer_goal, answer_cancel, answer_result, offer_feedback, Env, WrappedActionClient,
}

-- The loop of `handle_status_msg`: only goals whose result is awaited count; `none` is the panic on
-- an unknown status.
unfoldable pub record_statuses :
    Pending Channel → List (Uuid × ℕ) → HashMap GoalStatus → Option (HashMap GoalStatus)
record_statuses senders [] known = some known
record_statuses senders ((uuid, number) ∷ rest) known = elim (any (has_key uuid) senders) [
  | false ↦ record_statuses senders rest known
  | true ↦ elim (from_rcl number) [
    | none ↦ none
    | some status ↦ record_statuses senders rest (insert uuid status known)
  ]
]

module _ {G F O : Type 0} (env : Env G F O) where
  -- `handle_goal_response`.
  unfoldable pub handle_goal_response :
      WrappedActionClient G F O → Result (WrappedActionClient G F O)
  handle_goal_response c =
      let (sequence_number, accept, stamp) = env.goal_response c.calls in
      let taken = record c { calls = take_goal_response ∷ c.calls } in
      if is_ok (env.ret c.calls take_goal_response)
      then elim (take_key sequence_number c.goal_response_channels) [
        | none ↦ panic
        | some none ↦ ok taken
        | some (some (sender, rest)) ↦ ok (record taken {
          goal_response_channels = rest;
          calls = answer_goal sender accept stamp ∷ taken.calls;
        })
      ]
      else ok taken

  -- `handle_cancel_response`.
  unfoldable pub handle_cancel_response :
      WrappedActionClient G F O → Result (WrappedActionClient G F O)
  handle_cancel_response c =
      let (sequence_number, response) = env.cancel_response c.calls in
      let taken = record c { calls = take_cancel_response ∷ c.calls } in
      if is_ok (env.ret c.calls take_cancel_response)
      then elim (take_key sequence_number c.cancel_response_channels) [
        | none ↦ panic
        | some none ↦ ok taken
        | some (some (sender, rest)) ↦ ok (record taken {
          cancel_response_channels = rest;
          calls = answer_cancel sender response ∷ taken.calls;
        })
      ]
      else ok taken

  -- `handle_feedback_msg`; feedback for a goal that is not known is dropped.
  unfoldable pub handle_feedback_msg : WrappedActionClient G F O → WrappedActionClient G F O
  unfolding find
  handle_feedback_msg c =
      let (uuid, feedback) = env.feedback c.calls in
      let taken = record c { calls = take_feedback ∷ c.calls } in
      if is_ok (env.ret c.calls take_feedback)
      then elim (find uuid c.feedback_senders) [
        | none ↦ taken
        | some sender ↦ record taken { calls = offer_feedback sender feedback ∷ taken.calls }
      ]
      else taken

  -- `handle_status_msg`.
  unfoldable pub handle_status_msg : WrappedActionClient G F O → Result (WrappedActionClient G F O)
  unfolding record_statuses
  handle_status_msg c =
      let taken = record c { calls = take_status ∷ c.calls } in
      if is_ok (env.ret c.calls take_status)
      then elim (record_statuses c.result_senders (env.statuses c.calls) c.goal_status) [
        | none ↦ panic
        | some goal_status ↦ ok (record taken { goal_status = goal_status })
      ]
      else ok taken

  -- The end of `handle_result_response`: the goal's sender is taken out, and gets the result.
  unfoldable pub deliver_result :
      Uuid → ℕ → O → WrappedActionClient G F O → Result (WrappedActionClient G F O)
  deliver_result uuid number result c = elim (take_key uuid c.result_senders) [
    | none ↦ panic
    | some none ↦ ok c
    | some (some (sender, rest)) ↦ elim (from_rcl number) [
      | none ↦ panic
      | some status ↦
          ok (record c {
            result_senders = rest;
            calls = answer_result sender status result ∷ c.calls;
          })
    ]
  ]

  -- `handle_result_response`.
  unfoldable pub handle_result_response :
      WrappedActionClient G F O → Result (WrappedActionClient G F O)
  unfolding deliver_result
  handle_result_response c =
      let (sequence_number, number, result) = env.result_response c.calls in
      let taken = record c { calls = take_result_response ∷ c.calls } in
      if is_ok (env.ret c.calls take_result_response)
      then elim (take_key sequence_number c.result_requests) [
        | none ↦ panic
        | some none ↦ ok taken
        | some (some (uuid, rest)) ↦
            deliver_result uuid number result (record taken { result_requests = rest })
      ]
      else ok taken
