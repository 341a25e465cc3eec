-- ===== src/MsgTypes/Views.antt =====
-- The JSON view of a native message of src/msg_types.rs, and the requests of an untyped action
-- client, against the typed ones.
use Prim.Native.String.{String}
use r2r.Prelude.{ℕ, ◌≡◌, refl, ◌∙◌, ap}
use r2r.Errors.{ok, err, serde_error}
use r2r.ActionMsgs.{Uuid}
use r2r.MsgTypes.{
  parsed, malformed, Typesupport, IsFaithful, Stands, WrappedNativeMsgUntyped, native_from,
  new_untyped, to_json, from_json, serde_result,
}
use r2r.MsgTypes.Actions.{
  ActionTypes, make_goal_request_msg, untyped_goal_request, untyped_result_response,
  make_result_response_msg, destructure_goal_request_msg,
}

module _ {Native Json T : Type 0} (ts : Typesupport Native Json T) where
  -- A JSON value that stands for a message is written to a new native message as that message
  -- would be, and the same JSON value is read from it.
  pub to_json-from_json :
      (m : T) (json : Json)
      → IsFaithful ts
      → Stands ts m json
      → (w : WrappedNativeMsgUntyped Native Json) × (from_json json (new_untyped ts) ≡ ok w)
        × (w.msg ≡ native_from ts m)
        × (to_json w ≡ ok json)
  unfolding from_json to_json new_untyped native_from
  to_json-from_json m json faithful s = (
    record (new_untyped ts) { msg = native_from ts m },
    rw (s.read, from_json) refl,
    refl,
    ap serde_result (ap ts.to_value (faithful m ts.create_msg) ∙ s.written),
  )

  -- A JSON value that is none of the type is refused with the text of serde's error.
  pub from_json-malformed :
      (json : Json) (text : String)
      → ts.from_value json ≡ malformed text
      → from_json json (new_untyped ts) ≡ err (serde_error text)
  unfolding from_json new_untyped
  from_json-malformed json text e = rw e refl

module _ {Native Json Goal Feedback Outcome : Type 0}
    (t : ActionTypes Native Json Goal Feedback Outcome) where
  -- The goal request that an untyped client makes of a JSON value is, in native memory, the one
  -- that a typed client makes of the goal that the value is parsed to, and the server reads that
  -- goal from it.
  pub untyped_goal_request_lem :
      (uuid : Uuid) (goal : Goal) (value request : Json)
      → IsFaithful t.send_goal_request
      → t.goal.from_value value ≡ parsed goal
      → Stands t.send_goal_request (make_goal_request_msg uuid goal) request
      → (w : WrappedNativeMsgUntyped Native Json) × (untyped_goal_request t uuid value ≡ ok w)
        × (w.msg ≡ native_from t.send_goal_request (make_goal_request_msg uuid goal))
        × (destructure_goal_request_msg (t.send_goal_request.from_native w.msg) ≡ (uuid, goal))
  unfolding untyped_goal_request new_untyped native_from
  untyped_goal_request_lem uuid goal value request faithful e s = (
    record (new_untyped t.send_goal_request) {
      msg = native_from t.send_goal_request (make_goal_request_msg uuid goal);
    },
    rw (e, s.written, s.read, untyped_goal_request) refl,
    refl,
    rw (faithful (make_goal_request_msg uuid goal) t.send_goal_request.create_msg) refl,
  )

  -- A result that a server wrote in native memory reaches an untyped client as the
  -- JSON that stands for it.
  pub untyped_result_response_lem :
      (status : ℕ) (result : Outcome) (json : Json) (native : Native)
      → IsFaithful t.get_result_response
      → Stands t.outcome result json
      → untyped_result_response t
          (t.get_result_response.copy_to_native (make_result_response_msg status result) native)
        ≡ (status, ok json)
  unfolding untyped_result_response
  untyped_result_response_lem status result json native faithful s =
      rw (faithful (make_result_response_msg status result) native, s.written) refl
