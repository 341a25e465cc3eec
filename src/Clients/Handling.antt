-- ===== src/Clients/Handling.antt =====
-- What `handle_response` of src/clients.rs does with each response.
use mathlib.Core.List.{Perm}
use r2r.Polling.{Channel}
use r2r.Prelude.{◌≡◌, inl, inr, ◌∷◌, none, some, true, false, Bool-cases}
use r2r.Errors.{ok, is_ok}
use r2r.Pending.{Pending}
use r2r.Pending.{find}
use r2r.Pending.Taking.{missing, taken, take_key-Takes}
use r2r.Clients.{Env, TypedClient, send, take_response, handle_response}

module _ {Request Response : Type 0} (env : Env Request Response) where
  -- The client after `handle_response`: `failed` if nothing could be taken, `unknown` if nobody
  -- waits under the sequence number, `answered` if somebody does.
  pub data Handles (c : TypedClient Request Response) : TypedClient Request Response → Type 0 where
    failed :
        is_ok (env.ret c.calls take_response) ≡ false
        → Handles c (record c { calls = take_response ∷ c.calls })
    unknown :
        is_ok (env.ret c.calls take_response) ≡ true
        → find (env.response c.calls).0 c.response_channels ≡ none
        → Handles c (record c { calls = take_response ∷ c.calls })
    answered :
        (sender : Channel) (rest : Pending Channel)
        → is_ok (env.ret c.calls take_response) ≡ true
        → find (env.response c.calls).0 c.response_channels ≡ some sender
        → Perm c.response_channels (((env.response c.calls).0, sender) ∷ rest)
        → Handles c (record c {
          response_channels = rest;
          calls = send sender (env.response c.calls).1 ∷ take_response ∷ c.calls;
        })

  -- `handle_response` never panics. A response goes, once, to the channel of the first request
  -- that waits under its sequence number; that request alone leaves the vector. A response that
  -- nobody waits for, and a failure to take one, change nothing but the record of the call.
  pub handle_response-Handles :
      (c : TypedClient Request Response)
      → (c' : TypedClient Request Response) × (handle_response env c ≡ ok c') × Handles c c'
  unfolding handle_response
  handle_response-Handles c = elim (Bool-cases (is_ok (env.ret c.calls take_response))) [
    | inl took ↦ elim (take_key-Takes (env.response c.calls).0 c.response_channels) [
      | missing f e ↦ (_, rw (took, e, handle_response), unknown took f)
      | taken sender rest f e p ↦ (_, rw (took, e, handle_response), answered sender rest took f p)
    ]
    | inr none_taken ↦ (_, rw (none_taken, handle_response), failed none_taken)
  ]
