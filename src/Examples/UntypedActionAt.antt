-- ===== src/Examples/UntypedActionAt.antt =====
-- src/action_clients_untyped.rs, src/msg_types.rs and src/publishers.rs with messages that are one
-- number or a record of numbers, in native memory and in JSON alike.
use r2r.Prelude.{ℕ, ◌+◌, ◌≡◌, refl, [], ◌∷◌, Bool, true, false, length, ltb}
use r2r.Errors.{rcl_ret_ok, Result, ok, is_ok}
use r2r.GoalStatus.{from_rcl, succeeded}
use r2r.ActionMsgs.{Uuid, Time, default_time}
use r2r.Pending.{find}
use r2r.MsgTypes.{Serde, parsed, malformed, Typesupport, native_from, new_untyped}
use r2r.MsgTypes.Actions.{
  ActionTypes, SendGoalRequest, GetResultResponse, make_goal_request_msg, make_result_response_msg,
}
use r2r.ActionClient.{init, answer_result, take_result_response}
use r2r.ActionClient.Requests.{send_goal_locked, send_result_request, register_poll_available}
use r2r.ActionClient.Responses.Delivery.{IsConserved}
use r2r.ActionClient.Untyped.{
  WrappedActionClientUntyped, UntypedEnv, env, untyped_send_goal_locked, untyped_poll_available,
  untyped_handle_result_response,
}
use r2r.ActionClient.Untyped.Histories.{
  goal_sent, poll_registered, server_polled, start, step, action_UntypedReach-IsConserved,
  untyped_goal_sent, untyped_result_answered,
}
use r2r.Publishers
use r2r.Publishers.{publish_untyped, publish, publish_native, publish_agrees}

-- What native memory and a JSON value hold.
data Value : Type 0 where
  number : ℕ → Value
  goal_request : Uuid → ℕ → Value
  goal_response : Bool → Time → Value
  feedback_of : Uuid → ℕ → Value
  result_request : Uuid → Value
  result_response : ℕ → ℕ → Value

abbrev read_number : Value → Serde ℕ
read_number (number n) = parsed n
read_number _ = malformed "no number"

abbrev read_goal_request : Value → Serde (SendGoalRequest ℕ)
read_goal_request (goal_request u n) = parsed (make_goal_request_msg u n)
read_goal_request _ = malformed "no goal request"

abbrev read_result_response : Value → Serde (GetResultResponse ℕ)
read_result_response (result_response s n) = parsed (make_result_response_msg s n)
read_result_response _ = malformed "no result"

abbrev or_default : {A : Type 0} → A → Serde A → A
or_default a (parsed b) = b
or_default a (malformed text) = a

-- A type whose messages are written as values.
abbrev type_of :
    {T : Type 0} → (default : T) → (T → Value) → (Value → Serde T) → Typesupport Value Value T
type_of default write read = record {
  create_msg = write default;
  from_native = λ v. or_default default (read v);
  copy_to_native = λ m old. write m;
  to_value = λ m. parsed (write m);
  from_value = read;
}

abbrev numbers : Typesupport Value Value ℕ
numbers = type_of 0 number read_number

abbrev types : ActionTypes Value Value ℕ ℕ ℕ
types = record {
  goal = numbers;
  feedback = numbers;
  outcome = numbers;
  send_goal_request =
      type_of (make_goal_request_msg 0 0) (λ m. goal_request m.goal_id m.goal) read_goal_request;
  send_goal_response =
      type_of (record { accepted = false; stamp = default_time })
        (λ m. goal_response m.accepted m.stamp) (λ v. malformed "unread");
  feedback_message =
      type_of (record { goal_id = 0; feedback = 0 }) (λ m. feedback_of m.goal_id m.feedback)
        (λ v. malformed "unread");
  get_result_request =
      type_of (record { goal_id = 0 }) (λ m. result_request m.goal_id)
        (λ v. parsed (record { goal_id = 70 }));
  get_result_response =
      type_of (make_result_response_msg 0 0) (λ m. result_response m.status m.result)
        read_result_response;
}

-- An rcl_action for which every call works; the result of a goal is 99, and it succeeded.
abbrev raw : UntypedEnv Value Value
raw = record {
  ret = λ calls call. rcl_ret_ok;
  sequence_number = λ calls call. length calls + 10;
  new_uuid = λ calls. length calls + 70;
  goal_response = λ calls. (10, goal_response true default_time);
  cancel_response = λ calls. (11, record { return_code = 0; goals_canceling = [] });
  result_response = λ calls. (10, result_response 4 99);
  feedback = λ calls. feedback_of 70 5;
  statuses = λ calls. (70, 2) ∷ [];
  available = λ calls. true;
}

abbrev unused : WrappedActionClientUntyped Value Value
unused = init Value (Result Value) (Result Value)

action_UntypedReach-IsConserved_example : IsConserved (
    untyped_poll_available types raw
      (register_poll_available (untyped_send_goal_locked types raw (number 3) unused).1))
action_UntypedReach-IsConserved_example =
    action_UntypedReach-IsConserved types raw
      (step (step (step start (goal_sent (number 3))) poll_registered) server_polled)

untyped_goal_sent_example :
    untyped_send_goal_locked types raw (number 3) unused
    ≡ send_goal_locked (env types raw) (goal_request 70 3) unused
unfolding native_from
untyped_goal_sent_example =
    untyped_goal_sent types raw 3 (number 3) (goal_request 70 3) unused (λ m native. refl) refl
      (record { written = refl; read = refl })

abbrev awaiting : WrappedActionClientUntyped Value Value
awaiting = record unused { result_senders = (70, 2) ∷ [] }

abbrev asked : WrappedActionClientUntyped Value Value
asked = send_result_request (env types raw) 70 awaiting

untyped_result_answered_example :
    (c2 : WrappedActionClientUntyped Value Value) × (untyped_handle_result_response types raw asked
      ≡ ok c2)
    × (c2.calls ≡ answer_result 2 succeeded (ok (number 99)) ∷ take_result_response ∷ asked.calls)
unfolding env send_result_request is_ok find from_rcl
untyped_result_answered_example =
    untyped_result_answered types raw 70 2 4 succeeded 99 (number 99) (number 0) awaiting refl refl
      refl refl refl refl (λ m native. refl) (record { written = refl; read = refl })

-- A publisher of numbers whose node is there until two messages were published.
abbrev publishing : Publishers.Env Value Value
publishing = record { alive = λ sent. ltb (length sent) 2; ret = λ sent msg. rcl_ret_ok }

publish_agrees_example :
    (publish_untyped publishing (ok (new_untyped numbers)) (number 7) []
      ≡ publish publishing numbers 7 [])
    × (publish_native publishing (native_from numbers 7) [] ≡ publish publishing numbers 7 [])
publish_agrees_example =
    publish_agrees publishing numbers 7 (number 7) [] (λ m native. refl)
      (record { written = refl; read = refl })
