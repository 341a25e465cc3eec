-- ===== src/ActionServer/Results/Finishing.antt =====
-- Requests for results over a whole history of an action server, src/action_servers.rs.
use mathlib.Core.List.{reverse, append-nil}
use mathlib.Core.Path.{subst}
use r2r.Prelude.{
  ℕ, ◌≡◌, inl, inr, refl, sym, ap, List, [], ◌∷◌, ◌++◌, map, none, some, arith, ◌==◌, Bool-cases,
}
use r2r.Errors.{Result, ok, err, panic}
use r2r.ActionMsgs.{Uuid, RequestId, goal_info_of}
use r2r.ActionServer.{
  GoalEvent, ResultMsg, Call, Env, WrappedActionServer, send_result_response, server_goal_exists,
  notify_goal_done,
}
use r2r.ActionServer.Goals.{
  called, publish_statuses, set_goal_state, goal_is_cancelling, publish_goal_feedback,
}
use r2r.ActionServer.Goals.States.{publish_statuses_lem}
use r2r.ActionServer.Results.{add_result, handle_result_request, finish, succeed, abort, cancel}
use r2r.ActionServer.Results.Waiting.{
  waiting, SameResults, send_results_lem, handle_goal_request-SameResults,
  handle_cancel_request-SameResults, send_completed-SameResults, accept-SameResults,
  reject-SameResults, set_goal_state_lem, expired-eq, handle_result_request-waiting,
}
use r2r.ActionServer.History.{
  Step, goal_requested, cancel_requested, result_requested, cancels_completed, goals_expired,
  goal_accepted, goal_rejected, feedback_published, cancelling_asked, goal_succeeded, goal_aborted,
  goal_canceled,
}

module _ {G F O : Type 0} where
  -- What one step does to the requests that wait for the result of a goal. `kept`: all of them go
  -- on waiting, perhaps with later ones behind them. `answered`: each is sent the result that is
  -- stored, in the order of arrival, and none waits any longer.
  pub data Fate (uuid : Uuid) (s t : WrappedActionServer G F O) : Type 0 where
    kept : (more : List RequestId) → waiting t uuid ≡ waiting s uuid ++ more → Fate uuid s t
    answered :
        (msg : ResultMsg O) (earlier : List (Call G F O))
        → t.result_msgs uuid ≡ some msg
        → t.result_requests uuid ≡ none
        → t.calls ≡ reverse (map (λ req. send_result_response req msg) (waiting s uuid)) ++ earlier
        → Fate uuid s t

  same-Fate : (uuid : Uuid) (s t : WrappedActionServer G F O) → SameResults s t → Fate uuid s t
  same-Fate uuid s t v = kept [] (rw append-nil (ground (arith, v.requests)))

  add_result-Fate :
      (q uuid : Uuid) (msg : ResultMsg O) (s t : WrappedActionServer G F O)
      → t.result_requests ≡ s.result_requests
      → Fate q s (add_result uuid msg t)
  unfolding add_result
  add_result-Fate q uuid msg s t same = elim (Bool-cases (uuid == q)) [
    | inl hit ↦
        answered msg t.calls (ground (arith, hit)) (ground (arith, hit))
          (ground (arith, hit, same, send_results_lem (waiting s q) msg t.calls))
    | inr miss ↦ kept [] (rw append-nil (ground (arith, miss, same)))
  ]

module _ {G F O : Type 0} (env : Env G F O) where
  -- Finishing a goal, in any of the three ways, stores its result if it succeeds, and otherwise
  -- touches no result.
  pub data Finishes (uuid : Uuid) (s t : WrappedActionServer G F O) : Type 0 where
    stores :
        (msg : ResultMsg O) (before : WrappedActionServer G F O)
        → before ≡ record s { calls = before.calls }
        → t ≡ add_result uuid msg before
        → Finishes uuid s t
    refused : SameResults s t → Finishes uuid s t

  set_goal_state-SameResults :
      (uuid : Uuid) (event : GoalEvent) (s : WrappedActionServer G F O)
      → SameResults s (set_goal_state env uuid event s).1
  set_goal_state-SameResults uuid event s = ground (arith, set_goal_state_lem env uuid event s)

  pub finish-Finishes :
      (event : GoalEvent) (status : ℕ) (uuid : Uuid) (msg : O) (s t : WrappedActionServer G F O)
      (r result : Result (Unit {0}))
      → (set_goal_state env uuid event s).0 ≡ result
      → finish env event status uuid msg (some s) ≡ (r, some t)
      → Finishes uuid s t
  unfolding finish
  finish-Finishes event status uuid msg s t r (ok _) e f =
      stores (record { status = status; result = msg }) (set_goal_state env uuid event s).1
        (set_goal_state_lem env uuid event s) (ground arith)
  finish-Finishes event status uuid msg s t r (err x) e f =
      let same : (set_goal_state env uuid event s).1 ≡ t = ground arith in
      refused (subst (SameResults s) same (set_goal_state-SameResults uuid event s))
  finish-Finishes event status uuid msg s t r panic e f =
      let same : (set_goal_state env uuid event s).1 ≡ t = ground arith in
      refused (subst (SameResults s) same (set_goal_state-SameResults uuid event s))

  pub cancel-Finishes :
      (uuid : Uuid) (msg : O) (s t : WrappedActionServer G F O) (r : Result (Unit {0}))
      → cancel env uuid msg (some s) ≡ (r, some t)
      → Finishes uuid s t
  unfolding cancel
  cancel-Finishes uuid msg s t r e =
      let info = goal_info_of uuid in
      let told = called notify_goal_done (called (server_goal_exists info) s) in
      elim (Bool-cases (env.goal_exists s.calls info)) [
        | inl known ↦
            stores (record { status = 5; result = msg }) (publish_statuses env told)
              (publish_statuses_lem env told) (ground (arith, known))
        | inr missing ↦ refused (ground (arith, missing))
      ]

  Finishes-Fate : (q uuid : Uuid) (s t : WrappedActionServer G F O) → Finishes uuid s t → Fate q s t
  Finishes-Fate q uuid s t (stores msg before frame e) =
      subst (Fate q s) (sym e)
        (add_result-Fate q uuid msg s before (ap (λ u. u.result_requests) frame))
  Finishes-Fate q uuid s t (refused v) = same-Fate q s t v

  requested-Fate :
      (q : Uuid) (s : WrappedActionServer G F O) → Fate q s (handle_result_request env s)
  requested-Fate q s = elim (handle_result_request-waiting env s q).1 [
    | inl same ↦ kept [] (rw append-nil (ground (arith, same)))
    | inr (_, longer) ↦ kept ((env.result_request s.calls).0 ∷ []) longer
  ]

  -- In every step of an action server, the requests that wait for the result of a goal all go on
  -- waiting, in their order, or the goal gets its result in this step and each of them is sent it,
  -- in the order of arrival, so that none waits any longer.
  pub Step-Fate : (q : Uuid) {s t : WrappedActionServer G F O} → Step env s t → Fate q s t
  unfolding publish_goal_feedback goal_is_cancelling succeed abort
  Step-Fate q {s} goal_requested = same-Fate q s _ (handle_goal_request-SameResults env s)
  Step-Fate q {s} cancel_requested = same-Fate q s _ (handle_cancel_request-SameResults env s)
  Step-Fate q {s} result_requested = requested-Fate q s
  Step-Fate q {s} cancels_completed = same-Fate q s _ (send_completed-SameResults env s)
  Step-Fate q {s} {t} (goals_expired fuel e) =
      subst (Fate q s) (expired-eq env fuel s t e)
        (same-Fate q s s (record { msgs = refl; requests = refl }))
  Step-Fate q {s} {t} (goal_accepted request r e) =
      same-Fate q s t (accept-SameResults env request s t r e)
  Step-Fate q {s} {t} (goal_rejected request r e) =
      same-Fate q s t (reject-SameResults env request s t r e)
  Step-Fate q {s} {t} (feedback_published uuid msg r e) = same-Fate q s t (ground arith)
  Step-Fate q {s} {t} (cancelling_asked uuid r e) = same-Fate q s t (ground arith)
  Step-Fate q {s} {t} (goal_succeeded uuid msg r e) =
      Finishes-Fate q uuid s t (finish-Finishes _ 4 uuid msg s t r _ refl e)
  Step-Fate q {s} {t} (goal_aborted uuid msg r e) =
      Finishes-Fate q uuid s t (finish-Finishes _ 6 uuid msg s t r _ refl e)
  Step-Fate q {s} {t} (goal_canceled uuid msg r e) =
      Finishes-Fate q uuid s t (cancel-Finishes uuid msg s t r e)
