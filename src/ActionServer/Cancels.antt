-- ===== src/ActionServer/Cancels.antt =====
-- src/action_servers.rs: cancel requests, from their arrival to the response.
pub mod Frames
pub mod Verdicts
pub mod Sweeping
use mathlib.Core.List.{foldl}
use r2r.Polling.{Channel}
use r2r.Prelude.{
  ℕ, suc, List, [], ◌∷◌, ◌++◌, Option, none, some, Bool, true, false, if◌then◌else◌, ◌==◌, ◌&&◌,
  not, leb, length, is_empty, retain,
}
use r2r.Errors.{is_ok}
use r2r.ActionMsgs.{Uuid, RequestId, GoalInfo, CancelResponse}
use r2r.ActionServer.{
  Call, take_cancel_request, process_cancel_request, send_cancel_response, offer_cancel,
  poll_answers, Env, ActiveCancel, WrappedActionServer,
}
use r2r.ActionServer.Goals.{called, publish_statuses, cancel_goal}

-- The loop over the answers of one cancel request: the goals to cancel, and what is left of the
-- response, or `none` from the first dropped request on.
unfoldable pub tally :
    List (Option (Uuid × Bool)) → CancelResponse → List Uuid × Option CancelResponse
tally [] response = ([], some response)
tally (none ∷ results) response = ([], none)
tally (some (uuid, do_cancel) ∷ results) response =
    let (canceled, left) = tally results (record response {
      goals_canceling =
          retain (λ (goal_info : GoalInfo). do_cancel && goal_info.goal_id == uuid)
            response.goals_canceling;
    }) in
    ((if do_cancel then uuid ∷ canceled else canceled), left)

-- `check if all cancels were rejected`; 1 is ERROR_REJECTED.
unfoldable pub conclude : ℕ → CancelResponse → CancelResponse
conclude requested_cancels response =
    if leb 1 requested_cancels && is_empty response.goals_canceling
    then record response { return_code = 1 }
    else response

-- What the answers to one cancel request come to: the goals to cancel, and the response.
unfoldable pub settle :
    List (Option (Uuid × Bool)) → CancelResponse → List Uuid × Option CancelResponse
unfolding tally conclude
settle results response =
    let (canceled, left) = tally results response in
    (
      canceled,
      elim left [ none ↦ none | some r ↦ some (conclude (length response.goals_canceling) r) ],
    )

module _ (G F O : Type 0) where
  -- What `retain_mut` over the active cancel requests collects.
  pub record Sweep : Type 0 where
    pub kept : List ActiveCancel
    pub canceled : List Uuid
    pub responses : List (RequestId × CancelResponse)
    pub calls : List (Call G F O)

module _ {G F O : Type 0} (env : Env G F O) where
  -- `active_cancel_requests.retain_mut(..)`: a request is kept until all its answers are there.
  unfoldable pub sweep : List ActiveCancel → List (Call G F O) → Sweep G F O
  unfolding settle
  sweep [] calls = record { kept = []; canceled = []; responses = []; calls = calls }
  sweep (active ∷ rest) calls =
      let later = sweep rest (poll_answers active.channels ∷ calls) in
      elim (env.answers calls active.channels) [
        | none ↦ record later { kept = active ∷ later.kept }
        | some results ↦
            let (canceled, response) = settle results active.response in
            record later {
              canceled = canceled ++ later.canceled;
              responses = elim response [
                | none ↦ later.responses
                | some r ↦ (active.request_id, r) ∷ later.responses
              ];
            }
      ]

  -- `for (mut request_id, response_msg) in responses`: a failure of rcl is only printed.
  unfoldable pub send_responses :
      List (RequestId × CancelResponse) → List (Call G F O) → List (Call G F O)
  send_responses [] calls = calls
  send_responses ((request_id, response) ∷ rest) calls =
      send_responses rest (send_cancel_response request_id response ∷ calls)

  -- `canceled.iter().for_each(|uuid| self.cancel_goal(&uuid))`.
  unfoldable pub cancel_goals : List Uuid → WrappedActionServer G F O → WrappedActionServer G F O
  unfolding cancel_goal
  cancel_goals [] s = s
  cancel_goals (uuid ∷ uuids) s = cancel_goals uuids (cancel_goal env uuid s)

  -- `send_completed_cancel_requests`.
  unfoldable pub send_completed_cancel_requests :
      WrappedActionServer G F O → WrappedActionServer G F O
  unfolding sweep cancel_goals publish_statuses send_responses
  send_completed_cancel_requests s =
      let swept = sweep s.active_cancel_requests s.calls in
      let retained = record s { active_cancel_requests = swept.kept; calls = swept.calls } in
      let canceled = cancel_goals swept.canceled retained in
      let published = if is_empty swept.canceled then canceled else publish_statuses env canceled in
      record published { calls = send_responses swept.responses published.calls }

  -- The closure of `flat_map` in `handle_cancel_request`: the channels for the answers of the goals
  -- whose cancel stream takes the request.
  unfoldable pub offer_cancels :
      List GoalInfo → WrappedActionServer G F O → List Channel × WrappedActionServer G F O
  offer_cancels [] s = ([], s)
  offer_cancels (goal_info ∷ rest) s = elim (s.cancel_senders goal_info.goal_id) [
    | none ↦ offer_cancels rest s
    | some cancel_sender ↦
        let r : Channel = s.next_channel in
        let offer = offer_cancel cancel_sender goal_info.goal_id r in
        let (rs, s') =
          offer_cancels rest (record s { next_channel = suc r; calls = offer ∷ s.calls }) in
        ((if env.delivers s.calls offer then r ∷ rs else rs), s')
  ]

  -- `handle_cancel_request`.
  unfoldable pub handle_cancel_request : WrappedActionServer G F O → WrappedActionServer G F O
  unfolding offer_cancels
  handle_cancel_request s =
      let ret = env.ret s.calls take_cancel_request in
      let (request_id, request) = env.cancel_request s.calls in
      let taken = called take_cancel_request s in
      let processed = called (process_cancel_request request) taken in
      let response = env.cancel_response taken.calls request in
      let (channels, offered) = offer_cancels response.goals_canceling processed in
      let active : ActiveCancel = record {
        request_id = request_id;
        response = response;
        channels = channels;
      } in
      if not (is_ok ret)
      then taken
      else if not (is_ok (env.ret taken.calls (process_cancel_request request)))
      then processed
      else record offered { active_cancel_requests = offered.active_cancel_requests ++ active ∷ [] }
