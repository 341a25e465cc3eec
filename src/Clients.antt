-- ===== src/Clients.antt =====
-- src/clients.rs: service clients. A client keeps the requests that wait for a response, by their
-- sequence numbers, and the senders that wait for the service to become available.
-- The rcl client library and the `oneshot` channels of the futures crate are the environment: what
-- a call of them answers may depend in any way on the calls made before it, newest first.
pub mod Handling
pub mod Delivery
pub mod Answering
pub mod Untyped
use r2r.Prelude.{
  ℕ, zero, suc, List, [], ◌∷◌, ◌++◌, Option, none, some, Bool, true, false, if◌then◌else◌, is_empty,
  pop, length,
}
use r2r.Errors.{Ret, rcl_ret_client_invalid, Error, rcl, Result, ok, err, panic, is_ok, ◌>>=◌}
use r2r.Polling.{Channel, poll_channels}
use r2r.Pending.{Pending, take_key}

module _ (Request Response : Type 0) where
  pub data Call : Type 0 where
    send_request : Request → Call
    take_response server_is_available : Call
    -- `Sender::send` of a response
    send : Channel → Response → Call
    -- `Sender::send` of `()`, to a future of `Node::is_available`
    notify : Channel → Call
    -- a sender that goes out of scope unused: its receiver is cancelled
    drop : Channel → Call

  pub record Env : Type 0 where
    pub ret : List Call → Call → Ret
    -- the number that `rcl_send_request` writes
    pub sequence_number : List Call → ℕ
    -- what `rcl_take_response` writes: the sequence number of the request, and the response
    pub response : List Call → ℕ × Response
    pub available : List Call → Bool

  -- `TypedClient`. `next_channel` and `calls` stand for the world: the channel that is created
  -- next, and the calls that were made.
  pub record TypedClient : Type 0 where
    pub response_channels : Pending Channel
    pub poll_available_channels : List Channel
    pub next_channel : Channel
    pub calls : List Call

module _ {Request Response : Type 0} (env : Env Request Response) where
  -- `TypedClient::request`: the channel whose receiver the future waits on.
  unfoldable pub request :
      TypedClient Request Response → Request → Result Channel × TypedClient Request Response
  request c msg =
      let result = env.ret c.calls (send_request msg) in
      let seq_no = env.sequence_number c.calls in
      let sender : Channel = c.next_channel in
      let sent = record c { next_channel = suc sender; calls = send_request msg ∷ c.calls } in
      if is_ok result
      then (
        ok sender,
        record sent { response_channels = sent.response_channels ++ (seq_no, sender) ∷ [] },
      )
      else (err (rcl result), record sent { calls = drop sender ∷ sent.calls })

  -- The outcome of the future that `request` returns, from that of its receiver.
  unfoldable pub response_future : Option Response → Result Response
  response_future none = err (rcl rcl_ret_client_invalid)
  response_future (some r) = ok r

  -- `Client::request`, through the `Weak` reference: `none` is a client whose node is gone.
  unfoldable pub client_request :
      Option (TypedClient Request Response)
      → Request
      → Result Channel × Option (TypedClient Request Response)
  unfolding request
  client_request none msg = (err (rcl rcl_ret_client_invalid), none)
  client_request (some c) msg = let (r, c') = request c msg in (r, some c')

  -- `handle_response`; a response under an unknown sequence number is ignored.
  unfoldable pub handle_response :
      TypedClient Request Response → Result (TypedClient Request Response)
  handle_response c =
      let ret = env.ret c.calls take_response in
      let (sequence_number, response) = env.response c.calls in
      let taken = record c { calls = take_response ∷ c.calls } in
      if is_ok ret
      then (elim (take_key sequence_number c.response_channels) [
        | none ↦ panic
        | some none ↦ ok taken
        | some (some (sender, rest)) ↦
            ok (record taken {
              response_channels = rest;
              calls = send sender response ∷ taken.calls;
            })
      ])
      else ok taken

  unfoldable pub register_poll_available :
      TypedClient Request Response → TypedClient Request Response
  register_poll_available c = record c {
    poll_available_channels = c.poll_available_channels ++ c.next_channel ∷ [];
    next_channel = suc c.next_channel;
  }

  -- `service_available_helper`.
  unfoldable pub service_available_helper : List (Call Request Response) → Result Bool
  service_available_helper calls =
      let result = env.ret calls server_is_available in
      if is_ok result then ok (env.available calls) else err (rcl result)

module _ {Request Response : Type 0} (env : Env Request Response) where
  -- `poll_available`.
  unfoldable pub poll_available : TypedClient Request Response → TypedClient Request Response
  unfolding service_available_helper poll_channels
  poll_available c =
      let available = service_available_helper env c.calls in
      let (left, calls) =
        poll_channels notify drop available c.poll_available_channels
          (server_is_available ∷ c.calls) in
      if is_empty c.poll_available_channels
      then c
      else record c { poll_available_channels = left; calls = calls }
