-- ===== src/Examples/ServerAt.antt =====
-- src/action_servers.rs at servers with a few goals.
use r2r.Prelude.{ℕ, ◌≡◌, refl, [], ◌∷◌, some, true, false, arith, retain, any}
use r2r.Prelude.Maps.{insert, empty}
use r2r.Errors.{rcl_ret_ok, rcl_ret_action_goal_handle_invalid, err, rcl, is_ok}
use r2r.ActionMsgs.{CancelResponse, goal_info_of}
use r2r.ActionServer.{
  GoalEvent, ActionServerGoalRequest, send_cancel_response, poll_answers, ActiveCancel, Env,
  WrappedActionServer, init,
}
use r2r.ActionServer.Goals.{accept_locked, set_goal_state, is_cancelling}
use r2r.ActionServer.Cancels.{
  settle, conclude, sweep, offer_cancels, handle_cancel_request, send_completed_cancel_requests,
}
use r2r.ActionServer.Cancels.Verdicts.{settle-answered, settle_one, settle_many, answered}
use r2r.ActionServer.Cancels.Sweeping.{canceled_goal_untracked, unasked_cancel_confirmed}
use r2r.ActionServer.Results.{handle_result_request, handle_goal_expired}
use r2r.ActionServer.Results.Waiting.{handle_goal_expired_lem}
use r2r.ActionServer.Results.Finishing.{Fate, Step-Fate}
use r2r.ActionServer.Results.Served.{IsServed, Reach-IsServed}
use r2r.ActionServer.History.{here, next, result_requested}

abbrev both : CancelResponse
both = record { return_code = 0; goals_canceling = goal_info_of 7 ∷ goal_info_of 8 ∷ [] }

-- An rcl_action for which every call works, goals 7 and 8 are known, and request 30 asks for the
-- result of goal 7.
abbrev pub env : Env ℕ ℕ ℕ
env = record {
  ret = λ calls call. rcl_ret_ok;
  goal_request = λ calls. (20, 7, 100);
  cancel_request = λ calls. (40, goal_info_of 0);
  cancel_response = λ calls info. both;
  result_request = λ calls. (30, 7);
  new_goal_handle = λ calls info. 1000;
  goal_exists = λ calls info. true;
  goal_handle_status = λ calls handle. 2;
  expired = λ calls. (7, 1);
  delivers = λ calls call. true;
  answers = λ calls channels. elim channels [ [] ↦ some [] | _ ∷ _ ↦ some (some (7, true) ∷ []) ];
  default_outcome = 0;
  freed = λ calls msg. record { status = 99; result = 99 };
}

abbrev executing : WrappedActionServer ℕ ℕ ℕ
executing = record (init ℕ ℕ ℕ) {
  goals = insert 7 1000 empty;
  result_requests = insert 7 (30 ∷ 31 ∷ []) empty;
}

abbrev one_cancel : ActiveCancel
one_cancel = record {
  request_id = 40;
  response = record { return_code = 0; goals_canceling = goal_info_of 7 ∷ [] };
  channels = 5 ∷ [];
}

abbrev canceling_7 : WrappedActionServer ℕ ℕ ℕ
canceling_7 = record executing { active_cancel_requests = one_cancel ∷ [] }

settle-answered_example :
    settle (answered ((7, true) ∷ (8, false) ∷ [])) both
    ≡ (7 ∷ [], some (record { return_code = 1; goals_canceling = [] }))
unfolding retain conclude
settle-answered_example = settle-answered ((7, true) ∷ (8, false) ∷ []) both

settle_one_example :
    settle (answered ((7, true) ∷ [])) one_cancel.response ≡ (7 ∷ [], some one_cancel.response)
settle_one_example = settle_one one_cancel.response (goal_info_of 7) true refl

settle_many_example :
    settle (answered ((7, true) ∷ (8, true) ∷ [])) both
    ≡ (7 ∷ 8 ∷ [], some (record { return_code = 1; goals_canceling = [] }))
settle_many_example = settle_many both 7 8 [] (omega arith) (omega arith)

canceled_goal_untracked_example :
    let t = send_completed_cancel_requests env canceling_7 in
    (is_cancelling env 7 t ≡ (err (rcl rcl_ret_action_goal_handle_invalid), t))
    × ((event : GoalEvent)
        → (set_goal_state env 7 event t).0 ≡ err (rcl rcl_ret_action_goal_handle_invalid))
unfolding sweep any
canceled_goal_untracked_example = canceled_goal_untracked env canceling_7 7 refl

unasked_cancel_confirmed_example :
    let h = handle_cancel_request env executing in
    let t = send_completed_cancel_requests env h in
    (t.goals ≡ executing.goals)
    × (t.active_cancel_requests ≡ [])
    × (t.calls ≡ send_cancel_response 40 both ∷ poll_answers [] ∷ h.calls)
unfolding is_ok offer_cancels
unasked_cancel_confirmed_example =
    unasked_cancel_confirmed env executing refl refl refl refl (λ calls. refl)

abbrev goal_request_7 : ActionServerGoalRequest ℕ
goal_request_7 = record { uuid = 7; goal = 100; cancel_requests = 3; request_id = 20 }

abbrev accepted_7 : WrappedActionServer ℕ ℕ ℕ
accepted_7 = (accept_locked env goal_request_7 executing).1

Step-Fate_example : Fate 7 executing (handle_result_request env executing)
Step-Fate_example = Step-Fate env 7 result_requested

Reach-IsServed_example :
    IsServed (handle_result_request env (handle_result_request env (init ℕ ℕ ℕ)))
Reach-IsServed_example = Reach-IsServed env (next (next here result_requested) result_requested)

handle_goal_expired_lem_example : handle_goal_expired env 5 executing ≡ some executing
handle_goal_expired_lem_example = handle_goal_expired_lem env 4 executing
