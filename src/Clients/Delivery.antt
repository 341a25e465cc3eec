-- ===== src/Clients/Delivery.antt =====
-- The channels of a service client over a whole history: src/clients.rs seen as a step relation.
use mathlib.Core.List.{map-append}
use mathlib.Core.Path.{subst}
use mathlib.Core.List.Perm
use r2r.Prelude.{ℕ, ◌+◌, ◌≡◌, refl, List, [], ◌∷◌, map, arith, if◌then◌else◌, ltb}
use r2r.Prelude.Counting.{count, count-append, count-perm}
use r2r.Errors.{ok}
use r2r.Clients.{
  Call, Env, service_available_helper, TypedClient, send_request, take_response,
  server_is_available, send, notify, drop, request, handle_response, register_poll_available,
  poll_available,
}
use r2r.Clients.Handling.{Handles, failed, unknown, answered, handle_response-Handles}
use r2r.Polling.{Channel}
use r2r.Polling.Outcomes.{count-poll_channels}

module _ {Request Response : Type 0} where
  -- The channels whose senders were used up, or dropped.
  abbrev pub used : List (Call Request Response) → List Channel
  used [] = []
  used (send ch r ∷ calls) = ch ∷ used calls
  used (notify ch ∷ calls) = ch ∷ used calls
  used (drop ch ∷ calls) = ch ∷ used calls
  used (send_request r ∷ calls) = used calls
  used (take_response ∷ calls) = used calls
  used (server_is_available ∷ calls) = used calls

  abbrev pub waiting : TypedClient Request Response → List Channel
  waiting c = map (λ e. e.1) c.response_channels

  -- How often a channel is held or was used.
  abbrev pub occurrences : Channel → TypedClient Request Response → ℕ
  occurrences ch c =
      count ch (waiting c) + count ch c.poll_available_channels + count ch (used c.calls)

  -- Each channel that was created is in one place: it waits for a response, or for the service, or
  -- its sender was used, once.
  abbrev pub IsConserved : TypedClient Request Response → Type 0
  IsConserved c = (ch : Channel) → occurrences ch c ≡ (if ltb ch c.next_channel then 1 else 0)

  pub data Step (env : Env Request Response) (c : TypedClient Request Response)
      : TypedClient Request Response → Type 0 where
    requests : (msg : Request) → Step env c (request env c msg).1
    handles : {c' : TypedClient Request Response} → handle_response env c ≡ ok c' → Step env c c'
    registers : Step env c (register_poll_available env c)
    polls : Step env c (poll_available env c)

  pub data Reach (env : Env Request Response) (c : TypedClient Request Response)
      : TypedClient Request Response → Type 0 where
    here : Reach env c c
    next : {d e : TypedClient Request Response} → Reach env c d → Step env d e → Reach env c e

  -- A client as `Node::create_client` makes it.
  abbrev pub init : TypedClient Request Response
  init = record {
    response_channels = [];
    poll_available_channels = [];
    next_channel = 0;
    calls = [];
  }

module _ {Request Response : Type 0} (env : Env Request Response) where
  request-IsConserved :
      (c : TypedClient Request Response) (msg : Request)
      → IsConserved c
      → IsConserved (request env c msg).1
  unfolding request
  request-IsConserved c msg v ch = ground (
    arith,
    v ch,
    map-append (λ (e : ℕ × Channel). e.1) c.response_channels
        ((env.sequence_number c.calls, c.next_channel) ∷ []),
    count-append ch (waiting c) (c.next_channel ∷ []),
  )

  register-IsConserved :
      (c : TypedClient Request Response)
      → IsConserved c
      → IsConserved (register_poll_available env c)
  unfolding register_poll_available
  register-IsConserved c v ch =
      ground (arith, v ch, count-append ch c.poll_available_channels (c.next_channel ∷ []))

  Handles-IsConserved :
      {c c' : TypedClient Request Response} → Handles env c c' → IsConserved c → IsConserved c'
  Handles-IsConserved (failed n) v ch = v ch
  Handles-IsConserved (unknown t f) v ch = v ch
  Handles-IsConserved (answered sender rest t f p) v ch =
      omega (arith, v ch, count-perm ch (Perm.map (λ e. e.1) p))

  handles-IsConserved :
      (c c' : TypedClient Request Response)
      → handle_response env c ≡ ok c'
      → IsConserved c
      → IsConserved c'
  handles-IsConserved c c' e v =
      let (d, handled, h) = handle_response-Handles env c in
      let same : d ≡ c' = cc (e, handled) in subst IsConserved same (Handles-IsConserved h v)

  polled-IsConserved :
      (c : TypedClient Request Response) → IsConserved c → IsConserved (poll_available env c)
  unfolding poll_available
  polled-IsConserved c v ch = ground (
    arith,
    v ch,
    count-poll_channels notify drop used (λ ch calls. refl) (λ ch calls. refl) ch
        (service_available_helper env c.calls) c.poll_available_channels
        (server_is_available ∷ c.calls),
  )

  Step-IsConserved :
      {c c' : TypedClient Request Response} → Step env c c' → IsConserved c → IsConserved c'
  Step-IsConserved (requests msg) v = request-IsConserved _ msg v
  Step-IsConserved (handles e) v = handles-IsConserved _ _ e v
  Step-IsConserved registers v = register-IsConserved _ v
  Step-IsConserved polls v = polled-IsConserved _ v

  -- In every history of a client, from its creation, each channel that it created is in exactly
  -- one place: among those that wait for a response, among those that wait for the service, or
  -- used up, once.
  pub TypedClient-IsConserved :
      {c : TypedClient Request Response} → Reach env init c → IsConserved c
  TypedClient-IsConserved here = λ ch. ground arith
  TypedClient-IsConserved (next r s) = Step-IsConserved s (TypedClient-IsConserved r)
