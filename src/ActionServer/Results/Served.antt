-- ===== src/ActionServer/Results/Served.antt =====
-- No request waits for a result that is there: src/action_servers.rs.
use mathlib.Core.Path.{subst}
use r2r.Prelude.{
  ◌≡◌, inl, inr, refl, sym, ap, ◌++◌, map, Option, none, some, true, arith, ◌==◌, Bool-cases,
}
use mathlib.Core.List.{reverse}
use r2r.Errors.{ok}
use r2r.ActionMsgs.{Uuid, goal_info_of}
use r2r.ActionServer.{
  GoalHandle, goal_event_succeed, ResultMsg, Env, WrappedActionServer, init, send_result_response,
}
use r2r.ActionServer.Goals.{publish_goal_feedback, goal_is_cancelling, set_goal_state}
use r2r.ActionServer.Results.{add_result, handle_result_request, succeed, abort}
use r2r.ActionServer.Results.Waiting.{
  waiting, SameResults, handle_goal_request-SameResults, handle_cancel_request-SameResults,
  send_completed-SameResults, accept-SameResults, reject-SameResults, expired-eq,
  handle_result_request-waiting, send_results_lem, set_goal_state_lem,
}
use r2r.ActionServer.Results.Finishing.{Finishes, stores, refused, finish-Finishes, cancel-Finishes}
use r2r.ActionServer.History.{
  Step, goal_requested, cancel_requested, result_requested, cancels_completed, goals_expired,
  goal_accepted, goal_rejected, feedback_published, cancelling_asked, goal_succeeded, goal_aborted,
  goal_canceled, Reach, here, next,
}

module _ {G F O : Type 0} where
  -- Nobody waits for the result of a goal whose result is stored.
  abbrev pub IsServed : WrappedActionServer G F O → Type 0
  IsServed s =
      (uuid : Uuid) (msg : ResultMsg O)
      → s.result_msgs uuid ≡ some msg
      → s.result_requests uuid ≡ none

  same-IsServed : (s t : WrappedActionServer G F O) → SameResults s t → IsServed s → IsServed t
  same-IsServed s t v h uuid msg e = ground (arith, v.msgs, v.requests, h uuid msg)

  add_result-IsServed :
      (uuid : Uuid) (msg : ResultMsg O) (s : WrappedActionServer G F O)
      → IsServed s
      → IsServed (add_result uuid msg s)
  unfolding add_result
  add_result-IsServed uuid msg s h q m e = elim (Bool-cases (uuid == q)) [
    | inl hit ↦ ground (arith, hit)
    | inr miss ↦ ground (arith, miss, h q m)
  ]

module _ {G F O : Type 0} (env : Env G F O) where
  Finishes-IsServed :
      (uuid : Uuid) (s t : WrappedActionServer G F O)
      → Finishes env uuid s t
      → IsServed s
      → IsServed t
  Finishes-IsServed uuid s t (stores msg before frame e) h =
      subst IsServed (sym e) (add_result-IsServed uuid msg before (subst IsServed (sym frame) h))
  Finishes-IsServed uuid s t (refused v) h = same-IsServed s t v h

  requested-IsServed :
      (s : WrappedActionServer G F O) → IsServed s → IsServed (handle_result_request env s)
  requested-IsServed s h q msg e =
      let (msgs, cases) = handle_result_request-waiting env s q in
      elim cases [
        | inl same ↦ ground (arith, msgs, same, h q msg)
        | inr (absent, _) ↦ cc (absent, e, ap (λ (ms : Uuid → Option (ResultMsg O)). ms q) msgs)
      ]

  Step-IsServed : {s t : WrappedActionServer G F O} → Step env s t → IsServed s → IsServed t
  unfolding publish_goal_feedback goal_is_cancelling succeed abort
  Step-IsServed {s} goal_requested = same-IsServed s _ (handle_goal_request-SameResults env s)
  Step-IsServed {s} cancel_requested = same-IsServed s _ (handle_cancel_request-SameResults env s)
  Step-IsServed {s} result_requested = requested-IsServed s
  Step-IsServed {s} cancels_completed = same-IsServed s _ (send_completed-SameResults env s)
  Step-IsServed {s} {t} (goals_expired fuel e) = subst IsServed (expired-eq env fuel s t e)
  Step-IsServed {s} {t} (goal_accepted request r e) =
      same-IsServed s t (accept-SameResults env request s t r e)
  Step-IsServed {s} {t} (goal_rejected request r e) =
      same-IsServed s t (reject-SameResults env request s t r e)
  Step-IsServed {s} {t} (feedback_published uuid msg r e) = same-IsServed s t (ground arith)
  Step-IsServed {s} {t} (cancelling_asked uuid r e) = same-IsServed s t (ground arith)
  Step-IsServed {s} {t} (goal_succeeded uuid msg r e) =
      Finishes-IsServed uuid s t (finish-Finishes env _ 4 uuid msg s t r _ refl e)
  Step-IsServed {s} {t} (goal_aborted uuid msg r e) =
      Finishes-IsServed uuid s t (finish-Finishes env _ 6 uuid msg s t r _ refl e)
  Step-IsServed {s} {t} (goal_canceled uuid msg r e) =
      Finishes-IsServed uuid s t (cancel-Finishes env uuid msg s t r e)

  -- In every history of an action server, from its creation, no request waits for the result of a
  -- goal whose result is stored.
  pub Reach-IsServed : {s : WrappedActionServer G F O} → Reach env (init G F O) s → IsServed s
  Reach-IsServed here = λ uuid msg e. cc
  Reach-IsServed (next r st) = Step-IsServed st (Reach-IsServed r)

  -- `succeed` on a goal that rcl knows and whose handle the server keeps returns `Ok`, stores the
  -- result with status 4, and sends it to everybody who waits for it, in the order of arrival.
  pub succeed_lem :
      (uuid : Uuid) (result : O) (s : WrappedActionServer G F O) (handle : GoalHandle)
      → env.goal_exists s.calls (goal_info_of uuid) ≡ true
      → s.goals uuid ≡ some handle
      → let msg : ResultMsg O = record { status = 4; result = result } in
        let before = (set_goal_state env uuid goal_event_succeed s).1 in
        let t = add_result uuid msg before in
        (succeed env uuid result (some s) ≡ (ok tt, some t))
        × (t.result_msgs uuid ≡ some msg)
        × (t.calls
            ≡ reverse (map (λ req. send_result_response req msg) (waiting s uuid)) ++ before.calls)
  unfolding succeed set_goal_state add_result
  succeed_lem uuid result s handle known kept = (
    ground (arith, known, kept),
    ground (arith, known, kept),
    ground (
      arith,
      known,
      kept,
      set_goal_state_lem env uuid goal_event_succeed s,
      send_results_lem (waiting s uuid) (record { status = 4; result = result })
          (set_goal_state env uuid goal_event_succeed s).1.calls,
    ),
  )
