-- ===== src/ActionClient/Requests/Canceling.antt =====
-- How the future of a cancel request of src/action_clients.rs reads the response that an action
-- server of src/action_servers.rs makes of the answers of its goals.
use r2r.Prelude.{◌≡◌, ◌≢◌, ◌<◌, List, [], ◌∷◌, Bool, true, false, arith, if◌then◌else◌, length}
use r2r.Errors.{goal_cancel_rejected, ok, err}
use r2r.ActionMsgs.{Uuid, GoalInfo, CancelResponse}
use r2r.ActionServer.Cancels.{settle}
use r2r.ActionServer.Cancels.Verdicts.{answered, accepted, settle_one, settle_many}
use r2r.ActionClient.Requests.{cancel_future}

-- A request to cancel one goal, which rcl found cancelable: the future is `Ok` exactly when the
-- goal's owner accepts, and the goal is among those to cancel exactly then; if the owner refuses,
-- the future says so.
pub one_cancel_agrees :
    (m : CancelResponse) (goal_info : GoalInfo) (do_cancel : Bool)
    → m.goals_canceling ≡ goal_info ∷ []
    → m.return_code ≡ 0
    → let answers = answered ((goal_info.goal_id, do_cancel) ∷ []) in
      ((settle answers m).0 ≡ (if do_cancel then goal_info.goal_id ∷ [] else []))
      × (cancel_future (settle answers m).1
          ≡ (if do_cancel then ok tt else err goal_cancel_rejected))
unfolding cancel_future
one_cancel_agrees m g true one code = ground (arith, settle_one m g true one, code)
one_cancel_agrees m g false one code = ground (arith, settle_one m g false one, code)

-- A request to cancel several goals, of which the first two to be answered are different and both
-- accepted: they are canceled, but the future says that the request was rejected.
pub many_canceled_reported_rejected :
    (m : CancelResponse) (u v : Uuid) (results : List (Uuid × Bool))
    → u ≢ v
    → 0 < length m.goals_canceling
    → let answers = answered ((u, true) ∷ (v, true) ∷ results) in
      ((settle answers m).0 ≡ u ∷ v ∷ accepted results)
      × (cancel_future (settle answers m).1 ≡ err goal_cancel_rejected)
unfolding cancel_future
many_canceled_reported_rejected m u v results ne some_goal =
    ground (arith, settle_many m u v results ne some_goal)
