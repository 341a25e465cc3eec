-- ===== src/Publishers.antt =====
-- src/publishers.rs: publishing a message of a generated type, in native memory, or as JSON.
use r2r.Prelude.{◌≡◌, refl, ap, List, ◌∷◌, Bool, true, false, if◌then◌else◌, Bool-cases, inl, inr}
use Prim.Native.String.{String}
use r2r.Errors.{
  Ret, rcl_ret_publisher_invalid, rcl, Result, ok, err, panic, serde_error, is_ok, ◌>>=◌,
}
use r2r.MsgTypes.{
  malformed, Typesupport, IsFaithful, Stands, native_from, WrappedNativeMsgUntyped, new_untyped,
  from_json,
}
use r2r.MsgTypes.Views.{to_json-from_json, from_json-malformed}

module _ (Native Json : Type 0) where
  pub record Env : Type 0 where
    -- whether the node still owns the publisher, after the messages that were handed to rcl
    pub alive : List Native → Bool
    -- what `rcl_publish` returns
    pub ret : List Native → Native → Ret

module _ {Native Json : Type 0} (env : Env Native Json) where
  -- `rcl_publish` of an upgraded publisher, and the test of its result. The messages that were handed
  -- to rcl are kept, newest first.
  unfoldable pub hand_over : Native → List Native → Result (Unit {0}) × List Native
  hand_over msg sent =
      let result = env.ret sent msg in
      if is_ok result then (ok tt, msg ∷ sent) else (err (rcl result), msg ∷ sent)

  -- `Publisher::publish`.
  unfoldable pub publish :
      {T : Type 0} → Typesupport Native Json T → T → List Native → Result (Unit {0}) × List Native
  unfolding hand_over native_from
  publish ts msg sent =
      if env.alive sent
      then hand_over (native_from ts msg) sent
      else (err (rcl rcl_ret_publisher_invalid), sent)

  -- `Publisher::publish_native`.
  unfoldable pub publish_native : Native → List Native → Result (Unit {0}) × List Native
  unfolding hand_over
  publish_native msg sent =
      if env.alive sent then hand_over msg sent else (err (rcl rcl_ret_publisher_invalid), sent)

  -- The end of `PublisherUntyped::publish`, once the value was written to native memory.
  unfoldable pub hand_over_converted :
      Result (WrappedNativeMsgUntyped Native Json) → List Native → Result (Unit {0}) × List Native
  unfolding hand_over
  hand_over_converted (ok native_msg) sent = hand_over native_msg.msg sent
  hand_over_converted (err e) sent = (err e, sent)
  hand_over_converted panic sent = (panic, sent)

  -- `PublisherUntyped::publish`; `native_msg` is what `new_from` returns for the publisher's type.
  unfoldable pub publish_untyped :
      (native_msg : Result (WrappedNativeMsgUntyped Native Json))
      → Json
      → List Native
      → Result (Unit {0}) × List Native
  unfolding hand_over_converted from_json
  publish_untyped native_msg msg sent =
      if env.alive sent
      then hand_over_converted (native_msg >>= from_json msg) sent
      else (err (rcl rcl_ret_publisher_invalid), sent)

module _ {Native Json T : Type 0} (env : Env Native Json) (ts : Typesupport Native Json T) where
  -- Given that messages copied to native memory are read back: publishing a JSON value that stands for
  -- a message, on an untyped publisher of its type, is publishing the message, and publishing its
  -- native form: the same native message is handed to rcl, or the same error returned, also when the
  -- node is gone.
  pub publish_agrees :
      (m : T) (json : Json) (sent : List Native)
      → IsFaithful ts
      → Stands ts m json
      → (publish_untyped env (ok (new_untyped ts)) json sent ≡ publish env ts m sent)
        × (publish_native env (native_from ts m) sent ≡ publish env ts m sent)
  unfolding publish_untyped publish publish_native hand_over_converted
  publish_agrees m json sent faithful s =
      let (w, e, f, g) = to_json-from_json ts m json faithful s in
      elim (Bool-cases (env.alive sent)) [
        | inl there ↦ rw there (rw e (ap (λ n. hand_over env n sent) f), refl)
        | inr dropped ↦ rw dropped (refl, refl)
      ]

  -- A JSON value that is none of the type is refused and nothing is handed to rcl; on a publisher
  -- whose node is gone every call is refused, and hands over nothing.
  pub publish_refused :
      (m : T) (json : Json) (text : String) (sent : List Native)
      → ts.from_value json ≡ malformed text
      → ((env.alive sent ≡ true)
          → publish_untyped env (ok (new_untyped ts)) json sent ≡ (err (serde_error text), sent))
        × ((env.alive sent ≡ false)
            → (publish_untyped env (ok (new_untyped ts)) json sent
                ≡ (err (rcl rcl_ret_publisher_invalid), sent))
              × (publish env ts m sent ≡ (err (rcl rcl_ret_publisher_invalid), sent)))
  unfolding publish_untyped publish hand_over_converted
  publish_refused m json text sent e = (
    (λ there. rw (there, from_json-malformed ts json text e) refl),
    λ dropped. (rw dropped refl, rw dropped refl),
  )
