-- ===== src/Clients/Untyped.antt =====
-- src/clients.rs: `UntypedClient_`, the client whose messages are JSON values. A request is first
-- put in a native message, which may fail, and a response is read as a value or an error. The
-- conversions are calls of serde_json and of the generated types: `from_json` is a parameter, and
-- the environment gives the responses as they are read.
use r2r.Prelude.{◌≡◌, Option, none, some}
use r2r.Errors.{rcl_ret_client_invalid, rcl, Result, ok, err, panic}
use r2r.Polling.{Channel}
use r2r.Clients.{
  Env, TypedClient, request, handle_response, register_poll_available, poll_available,
}
use r2r.Clients.Delivery.{
  IsConserved, Reach, here, next, requests, handles, registers, polls, init,
  TypedClient-IsConserved,
}

module _ (Native Json : Type 0) where
  -- The state is that of a typed client, with `Result` values for responses.
  abbrev pub UntypedClient_ : Type 0
  UntypedClient_ = TypedClient Native (Result Json)

module _ {Native Json : Type 0} (env : Env Native (Result Json))
    (from_json : Json → Result Native) where
  -- `UntypedClient_::request` once the value is converted; nothing is sent if it is not one of the
  -- message's type.
  unfoldable pub send_converted :
      UntypedClient_ Native Json → Result Native → Result Channel × UntypedClient_ Native Json
  unfolding request
  send_converted c (ok native_msg) = request env c native_msg
  send_converted c (err e) = (err e, c)
  send_converted c panic = (panic, c)

  -- `UntypedClient_::request`.
  unfoldable pub untyped_request :
      UntypedClient_ Native Json → Json → Result Channel × UntypedClient_ Native Json
  unfolding send_converted
  untyped_request c msg = send_converted c (from_json msg)

  -- `ClientUntyped::request`.
  unfoldable pub client_untyped_request :
      Option (UntypedClient_ Native Json)
      → Json
      → Result Channel × Option (UntypedClient_ Native Json)
  unfolding untyped_request
  client_untyped_request none msg = (err (rcl rcl_ret_client_invalid), none)
  client_untyped_request (some c) msg = let (r, c') = untyped_request c msg in (r, some c')

  -- The other operations are those of the typed client.
  pub data UntypedStep (c : UntypedClient_ Native Json) : UntypedClient_ Native Json → Type 0 where
    untyped_requests : (msg : Json) → UntypedStep c (untyped_request c msg).1
    untyped_handles :
        {c' : UntypedClient_ Native Json} → handle_response env c ≡ ok c' → UntypedStep c c'
    untyped_registers : UntypedStep c (register_poll_available env c)
    untyped_polls : UntypedStep c (poll_available env c)

  pub data UntypedReach (c : UntypedClient_ Native Json) : UntypedClient_ Native Json → Type 0 where
    start : UntypedReach c c
    step :
        {d e : UntypedClient_ Native Json} → UntypedReach c d → UntypedStep d e → UntypedReach c e

  converted-Reach :
      (c : UntypedClient_ Native Json) (native : Result Native)
      → Reach env init c
      → Reach env init (send_converted c native).1
  unfolding send_converted
  converted-Reach c (ok m) r = next r (requests m)
  converted-Reach c (err e) r = r
  converted-Reach c panic r = r

  UntypedReach-Reach : {c : UntypedClient_ Native Json} → UntypedReach init c → Reach env init c
  unfolding untyped_request
  UntypedReach-Reach start = here
  UntypedReach-Reach (step r (untyped_requests msg)) =
      converted-Reach _ (from_json msg) (UntypedReach-Reach r)
  UntypedReach-Reach (step r (untyped_handles e)) = next (UntypedReach-Reach r) (handles e)
  UntypedReach-Reach (step r untyped_registers) = next (UntypedReach-Reach r) registers
  UntypedReach-Reach (step r untyped_polls) = next (UntypedReach-Reach r) polls

  -- In every history of an untyped client, from its creation, each channel that it created is in
  -- exactly one place: among those that wait for a response, among those that wait for the
  -- service, or used up, once.
  pub UntypedReach-IsConserved :
      {c : UntypedClient_ Native Json} → UntypedReach init c → IsConserved c
  UntypedReach-IsConserved r = TypedClient-IsConserved env (UntypedReach-Reach r)
