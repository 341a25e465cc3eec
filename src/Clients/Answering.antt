-- ===== src/Clients/Answering.antt =====
-- A request of a client of src/clients.rs, from the call to the response.
use r2r.Prelude.{◌≡◌, refl, [], ◌∷◌, ◌++◌, none, true, arith, Bool-cases, inl, inr}
use r2r.Errors.{ok, is_ok}
use r2r.Polling.{Channel}
use r2r.Pending.{find}
use r2r.Pending.Taking.{find_new, take_found}
use r2r.Clients.{Env, TypedClient, send_request, take_response, send, request, handle_response}

module _ {Request Response : Type 0} (env : Env Request Response) where
  -- After a request was sent under a sequence number that was free, the response with that number
  -- is sent to the channel that the request returned, whoever else waits.
  pub request_answered :
      (msg : Request) (response : Response) (c c1 : TypedClient Request Response)
      (receiver : Channel)
      → request env c msg ≡ (ok receiver, c1)
      → find (env.sequence_number c.calls) c.response_channels ≡ none
      → is_ok (env.ret c1.calls take_response) ≡ true
      → env.response c1.calls ≡ (env.sequence_number c.calls, response)
      → (c2 : TypedClient Request Response) × (handle_response env c1 ≡ ok c2)
        × (c2.calls ≡ send receiver response ∷ take_response ∷ c1.calls)
  unfolding request handle_response
  request_answered msg response c c1 receiver e free took answer =
      let seq_no = env.sequence_number c.calls in
      let (rest, found) =
        take_found seq_no (c.response_channels ++ (seq_no, c.next_channel) ∷ []) c.next_channel
          (find_new seq_no c.next_channel c.response_channels free) in
      elim (Bool-cases (is_ok (env.ret c.calls (send_request msg)))) [
        | inr failed ↦ ground (arith, failed, e)
        | inl sent ↦
            let waiting : c1.response_channels
                ≡ c.response_channels ++ (seq_no, c.next_channel) ∷ [] =
              ground (arith, sent, e) in
            let own : receiver ≡ c.next_channel = ground (arith, sent, e) in
            (
              record c1 {
                response_channels = rest;
                calls = send receiver response ∷ take_response ∷ c1.calls;
              },
              ground (arith, took, answer, waiting, found, own),
              refl,
            )
      ]
