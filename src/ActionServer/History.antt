-- ===== src/ActionServer/History.antt =====
-- The histories of an action server, src/action_servers.rs, as a step relation: what `spin_once`
-- of src/nodes.rs makes the server do, and what the owners of its goals do, in any order.
use r2r.Polling.{Channel}
use r2r.Prelude.{ℕ, ◌≡◌, some, Bool}
use r2r.Errors.{Result}
use r2r.ActionMsgs.{Uuid}
use r2r.ActionServer.{ActionServerGoalRequest, Env, WrappedActionServer}
use r2r.ActionServer.Goals.{
  handle_goal_request, accept, reject, goal_is_cancelling, publish_goal_feedback,
}
use r2r.ActionServer.Cancels.{handle_cancel_request, send_completed_cancel_requests}
use r2r.ActionServer.Results.{handle_result_request, handle_goal_expired, succeed, abort, cancel}

module _ {G F O : Type 0} (env : Env G F O) where
  pub data Step (s : WrappedActionServer G F O) : WrappedActionServer G F O → Type 0 where
    goal_requested : Step s (handle_goal_request env s)
    cancel_requested : Step s (handle_cancel_request env s)
    result_requested : Step s (handle_result_request env s)
    cancels_completed : Step s (send_completed_cancel_requests env s)
    goals_expired :
        {t : WrappedActionServer G F O} (fuel : ℕ)
        → handle_goal_expired env fuel s ≡ some t
        → Step s t
    goal_accepted :
        {t : WrappedActionServer G F O} (request : ActionServerGoalRequest G)
        (r : Result (Uuid × Channel))
        → accept env request (some s) ≡ (r, some t)
        → Step s t
    goal_rejected :
        {t : WrappedActionServer G F O} (request : ActionServerGoalRequest G)
        (r : Result (Unit {0}))
        → reject env request (some s) ≡ (r, some t)
        → Step s t
    feedback_published :
        {t : WrappedActionServer G F O} (uuid : Uuid) (msg : F) (r : Result (Unit {0}))
        → publish_goal_feedback env uuid msg (some s) ≡ (r, some t)
        → Step s t
    cancelling_asked :
        {t : WrappedActionServer G F O} (uuid : Uuid) (r : Result Bool)
        → goal_is_cancelling env uuid (some s) ≡ (r, some t)
        → Step s t
    goal_succeeded :
        {t : WrappedActionServer G F O} (uuid : Uuid) (msg : O) (r : Result (Unit {0}))
        → succeed env uuid msg (some s) ≡ (r, some t)
        → Step s t
    goal_aborted :
        {t : WrappedActionServer G F O} (uuid : Uuid) (msg : O) (r : Result (Unit {0}))
        → abort env uuid msg (some s) ≡ (r, some t)
        → Step s t
    goal_canceled :
        {t : WrappedActionServer G F O} (uuid : Uuid) (msg : O) (r : Result (Unit {0}))
        → cancel env uuid msg (some s) ≡ (r, some t)
        → Step s t

  pub data Reach (s : WrappedActionServer G F O) : WrappedActionServer G F O → Type 0 where
    here : Reach s s
    next : {t u : WrappedActionServer G F O} → Reach s t → Step t u → Reach s u
