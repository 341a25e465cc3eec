-- ===== src/ActionClient/Responses/Handling.antt =====
-- What an action client of src/action_clients.rs does with each response and status message.
use mathlib.Core.List.{Perm}
use r2r.Prelude.{◌≡◌, inl, inr, ◌⊎◌, ◌∷◌, none, some, true, false, Bool-cases, Option-cases}
use r2r.Errors.{Result, ok, panic, is_ok}
use r2r.GoalStatus.{GoalStatus, from_rcl}
use r2r.ActionMsgs.{Uuid}
use r2r.Polling.{Channel}
use r2r.Pending.{Pending, find}
use r2r.Pending.Taking.{missing, taken, take_key-Takes}
use r2r.ActionClient.{
  take_goal_response, take_cancel_response, take_result_response, answer_goal, answer_cancel,
  answer_result, Env, WrappedActionClient,
}
use r2r.ActionClient.Responses.{
  handle_goal_response, handle_cancel_response, deliver_result, handle_result_response,
}

module _ {G F O : Type 0} (env : Env G F O) where
  -- The client after `handle_goal_response`: `ignored` if nothing could be taken or nobody waits
  -- under the sequence number, `answered` if somebody does.
  pub data HandlesGoal (c : WrappedActionClient G F O) : WrappedActionClient G F O → Type 0 where
    ignored :
        (is_ok (env.ret c.calls take_goal_response) ≡ false)
          ⊎ (find (env.goal_response c.calls).0 c.goal_response_channels ≡ none)
        → HandlesGoal c (record c { calls = take_goal_response ∷ c.calls })
    answered :
        (sender : Channel) (rest : Pending Channel)
        → is_ok (env.ret c.calls take_goal_response) ≡ true
        → find (env.goal_response c.calls).0 c.goal_response_channels ≡ some sender
        → Perm c.goal_response_channels (((env.goal_response c.calls).0, sender) ∷ rest)
        → HandlesGoal c (record c {
          goal_response_channels = rest;
          calls =
              answer_goal sender (env.goal_response c.calls).1 (env.goal_response c.calls).2
              ∷ take_goal_response
              ∷ c.calls;
        })

  -- `handle_goal_response` never panics. A response goes, once, to the channel of the first goal
  -- request that waits under its sequence number, and that request alone leaves the vector. A
  -- response that nobody waits for, and a failure to take one, change nothing but the record of the
  -- call.
  pub handle_goal_response-HandlesGoal :
      (c : WrappedActionClient G F O)
      → (c' : WrappedActionClient G F O) × (handle_goal_response env c ≡ ok c') × HandlesGoal c c'
  unfolding handle_goal_response
  handle_goal_response-HandlesGoal c =
      elim (Bool-cases (is_ok (env.ret c.calls take_goal_response))) [
        | inl took ↦ elim (take_key-Takes (env.goal_response c.calls).0 c.goal_response_channels) [
          | missing f e ↦ (_, rw (took, e, handle_goal_response), HandlesGoal.ignored (inr f))
          | taken sender rest f e p ↦
              (_, rw (took, e, handle_goal_response), HandlesGoal.answered sender rest took f p)
        ]
        | inr nothing ↦ (_, rw (nothing, handle_goal_response), HandlesGoal.ignored (inl nothing))
      ]

  pub data HandlesCancel (c : WrappedActionClient G F O) : WrappedActionClient G F O → Type 0 where
    ignored :
        (is_ok (env.ret c.calls take_cancel_response) ≡ false)
          ⊎ (find (env.cancel_response c.calls).0 c.cancel_response_channels ≡ none)
        → HandlesCancel c (record c { calls = take_cancel_response ∷ c.calls })
    answered :
        (sender : Channel) (rest : Pending Channel)
        → find (env.cancel_response c.calls).0 c.cancel_response_channels ≡ some sender
        → Perm c.cancel_response_channels (((env.cancel_response c.calls).0, sender) ∷ rest)
        → HandlesCancel c (record c {
          cancel_response_channels = rest;
          calls =
              answer_cancel sender (env.cancel_response c.calls).1 ∷ take_cancel_response ∷ c.calls;
        })

  -- `handle_cancel_response` never panics. A response goes, once, to the channel of the first cancel
  -- request that waits under its sequence number, and that request alone leaves the vector. A
  -- response that nobody waits for, and a failure to take one, change nothing but the record of the
  -- call.
  pub handle_cancel_response-HandlesCancel :
      (c : WrappedActionClient G F O)
      → (c' : WrappedActionClient G F O) × (handle_cancel_response env c ≡ ok c')
        × HandlesCancel c c'
  unfolding handle_cancel_response
  handle_cancel_response-HandlesCancel c =
      elim (Bool-cases (is_ok (env.ret c.calls take_cancel_response))) [
        | inl took ↦
            elim (take_key-Takes (env.cancel_response c.calls).0 c.cancel_response_channels) [
              | missing f e ↦
                  (_, rw (took, e, handle_cancel_response), HandlesCancel.ignored (inr f))
              | taken sender rest f e p ↦
                  (_, rw (took, e, handle_cancel_response), HandlesCancel.answered sender rest f p)
            ]
        | inr nothing ↦
            (_, rw (nothing, handle_cancel_response), HandlesCancel.ignored (inl nothing))
      ]

  -- The outcome of `handle_result_response`. `ignored`: nothing could be taken, or nobody waits
  -- under the sequence number. `orphaned`: the goal of the request has no sender any more.
  -- `unreadable`: the status is no goal status. `answered`: the goal's sender gets the result.
  pub data HandlesResult (c : WrappedActionClient G F O)
      : Result (WrappedActionClient G F O) → Type 0 where
    ignored :
        (is_ok (env.ret c.calls take_result_response) ≡ false)
          ⊎ (find (env.result_response c.calls).0 c.result_requests ≡ none)
        → HandlesResult c (ok (record c { calls = take_result_response ∷ c.calls }))
    orphaned :
        (uuid : Uuid) (rest : Pending Uuid)
        → find (env.result_response c.calls).0 c.result_requests ≡ some uuid
        → Perm c.result_requests (((env.result_response c.calls).0, uuid) ∷ rest)
        → find uuid c.result_senders ≡ none
        → HandlesResult c
            (ok (record c { result_requests = rest; calls = take_result_response ∷ c.calls }))
    unreadable : from_rcl (env.result_response c.calls).1 ≡ none → HandlesResult c panic
    answered :
        (uuid : Uuid) (sender : Channel) (status : GoalStatus) (requests : Pending Uuid)
        (senders : Pending Channel)
        → find (env.result_response c.calls).0 c.result_requests ≡ some uuid
        → Perm c.result_requests (((env.result_response c.calls).0, uuid) ∷ requests)
        → find uuid c.result_senders ≡ some sender
        → Perm c.result_senders ((uuid, sender) ∷ senders)
        → from_rcl (env.result_response c.calls).1 ≡ some status
        → HandlesResult c (
            ok (record c {
              result_requests = requests;
              result_senders = senders;
              calls =
                  answer_result sender status (env.result_response c.calls).2
                  ∷ take_result_response
                  ∷ c.calls;
            }))

  deliver_result-HandlesResult :
      (c : WrappedActionClient G F O) (uuid : Uuid) (rest : Pending Uuid)
      → is_ok (env.ret c.calls take_result_response) ≡ true
      → find (env.result_response c.calls).0 c.result_requests ≡ some uuid
      → Perm c.result_requests (((env.result_response c.calls).0, uuid) ∷ rest)
      → HandlesResult c (
          deliver_result env uuid
            (env.result_response c.calls).1
            (env.result_response c.calls).2
            (record c { result_requests = rest; calls = take_result_response ∷ c.calls }))
  unfolding deliver_result
  deliver_result-HandlesResult c uuid rest took f p = elim (take_key-Takes uuid c.result_senders) [
    | missing g e ↦ rw (e, deliver_result) (orphaned uuid rest f p g)
    | taken sender senders g e q ↦ elim (Option-cases (from_rcl (env.result_response c.calls).1)) [
      | inl bad ↦ rw (e, bad, deliver_result) (unreadable bad)
      | inr (status, good) ↦
          rw (e, good, deliver_result)
            (HandlesResult.answered uuid sender status rest senders f p g q good)
    ]
  ]

  -- A result goes, once, to the sender of the goal whose request has the sequence number, with the
  -- status that the number stands for, and request and sender leave their vectors; the only panic
  -- is on a number that is no goal status.
  pub handle_result_response-HandlesResult :
      (c : WrappedActionClient G F O) → HandlesResult c (handle_result_response env c)
  unfolding handle_result_response
  handle_result_response-HandlesResult c =
      elim (Bool-cases (is_ok (env.ret c.calls take_result_response))) [
        | inl took ↦ elim (take_key-Takes (env.result_response c.calls).0 c.result_requests) [
          | missing f e ↦ rw (took, e, handle_result_response) (HandlesResult.ignored (inr f))
          | taken uuid rest f e p ↦
              rw (took, e, handle_result_response)
                (deliver_result-HandlesResult c uuid rest took f p)
        ]
        | inr nothing ↦ rw (nothing, handle_result_response) (HandlesResult.ignored (inl nothing))
      ]
