-- ===== src/ActionClient/Requests/Goals.antt =====
-- A goal of an action client of src/action_clients.rs, from the request to the result.
use r2r.Prelude.{
  ℕ, suc, Bool-cases, inl, inr, ◌≡◌, refl, [], ◌∷◌, ◌++◌, none, some, Bool, true, arith,
}
use r2r.Errors.{ok, is_ok}
use r2r.GoalStatus.{GoalStatus, from_rcl}
use r2r.ActionMsgs.{Uuid, Time}
use r2r.Polling.{Channel}
use r2r.Pending.{find}
use r2r.Pending.Taking.{find_new, take_found}
use r2r.ActionClient.{
  send_goal, send_result, take_goal_response, take_result_response, answer_goal, answer_result, Env,
  WrappedActionClient,
}
use r2r.ActionClient.Requests.{GoalFuture, send_goal_locked, send_result_request}
use r2r.ActionClient.Responses.{handle_goal_response, deliver_result, handle_result_response}

module _ {G F O : Type 0} (env : Env G F O) where
  -- After a goal request was sent, under a sequence number and a goal id that were free, the
  -- response with that number resolves the channel of its own future, and the result of its goal
  -- is awaited on the channel of that future.
  pub goal_request_answered :
      (goal : G) (c c1 : WrappedActionClient G F O) (future : GoalFuture) (accept : Bool)
      (stamp : Time)
      → let seq_no = env.sequence_number c.calls (send_goal (env.new_uuid c.calls) goal) in
        send_goal_locked env goal c ≡ (ok future, c1)
        → find seq_no c.goal_response_channels ≡ none
        → find (env.new_uuid c.calls) c.result_senders ≡ none
        → is_ok (env.ret c1.calls take_goal_response) ≡ true
        → env.goal_response c1.calls ≡ (seq_no, accept, stamp)
        → (c2 : WrappedActionClient G F O) × (handle_goal_response env c1 ≡ ok c2)
          × (c2.calls ≡ answer_goal future.response accept stamp ∷ take_goal_response ∷ c1.calls)
          × (find future.uuid c2.result_senders ≡ some future.result)
  unfolding send_goal_locked handle_goal_response
  goal_request_answered goal c c1 future accept stamp e free fresh took response =
      let uuid = env.new_uuid c.calls in
      let seq_no = env.sequence_number c.calls (send_goal uuid goal) in
      let (rest, found) =
        take_found seq_no (c.goal_response_channels ++ (seq_no, c.next_channel) ∷ []) c.next_channel
          (find_new seq_no c.next_channel c.goal_response_channels free) in
      let awaited = find_new uuid (suc (suc c.next_channel)) c.result_senders fresh in
      elim (Bool-cases (is_ok (env.ret c.calls (send_goal uuid goal)))) [
        | inr failed ↦ ground (arith, failed, e)
        | inl sent ↦
            let waiting : c1.goal_response_channels
                ≡ c.goal_response_channels ++ (seq_no, c.next_channel) ∷ [] =
              ground (arith, sent, e) in
            let senders : c1.result_senders
                ≡ c.result_senders ++ (uuid, suc (suc c.next_channel)) ∷ [] =
              ground (arith, sent, e) in
            let ids : (future.uuid ≡ uuid)
                × (future.response ≡ c.next_channel)
                × (future.result ≡ suc (suc c.next_channel)) =
              ground (arith, sent, e) in
            (
              record c1 {
                goal_response_channels = rest;
                calls = answer_goal future.response accept stamp ∷ take_goal_response ∷ c1.calls;
              },
              ground (arith, took, response, waiting, found, ids.1),
              refl,
              ground (arith, senders, ids.0, ids.2, awaited),
            )
      ]

  -- After a result request was sent for a goal whose result is awaited, under a sequence number
  -- that was free, the response with that number, if its status is a goal status, sends the result
  -- to the channel of that goal.
  pub result_request_answered :
      (uuid : Uuid) (sender : Channel) (number : ℕ) (status : GoalStatus) (result : O)
      (c : WrappedActionClient G F O)
      → let seq_no = env.sequence_number c.calls (send_result uuid) in
        let c1 = send_result_request env uuid c in
        find uuid c.result_senders ≡ some sender
        → is_ok (env.ret c.calls (send_result uuid)) ≡ true
        → find seq_no c.result_requests ≡ none
        → is_ok (env.ret c1.calls take_result_response) ≡ true
        → env.result_response c1.calls ≡ (seq_no, number, result)
        → from_rcl number ≡ some status
        → (c2 : WrappedActionClient G F O) × (handle_result_response env c1 ≡ ok c2)
          × (c2.calls ≡ answer_result sender status result ∷ take_result_response ∷ c1.calls)
  unfolding send_result_request handle_result_response deliver_result
  result_request_answered uuid sender number status result c awaited sent free took response good =
      let seq_no = env.sequence_number c.calls (send_result uuid) in
      let (requests, found) =
        take_found seq_no (c.result_requests ++ (seq_no, uuid) ∷ []) uuid
          (find_new seq_no uuid c.result_requests free) in
      let (senders, own) = take_found uuid c.result_senders sender awaited in
      (
        record c {
          result_requests = requests;
          result_senders = senders;
          calls =
              answer_result sender status result
              ∷ take_result_response
              ∷ send_result uuid
              ∷ c.calls;
        },
        ground (arith, sent, took, response, found, own, good),
        ground (arith, sent),
      )
