-- ===== src/Examples/ClientsAt.antt =====
-- src/clients.rs at a client with two requests under way.
use r2r.Prelude.{ℕ, ◌+◌, ◌≡◌, refl, [], ◌∷◌, true, length}
use r2r.Polling.{poll_channels}
use r2r.Errors.{err, rcl, rcl_ret_timeout, rcl_ret_ok, ok, is_ok}
use r2r.Pending.{take_key, find}
use r2r.Clients.{
  take_response, server_is_available, send, notify, Env, TypedClient, request, handle_response,
  register_poll_available, poll_available,
}
use r2r.Clients.Answering.{request_answered}
use r2r.Polling.Outcomes.{poll_channels_lem}
use r2r.Clients.Delivery.{
  IsConserved, requests, polls, registers, Reach, here, next, init, TypedClient-IsConserved,
}

-- rcl numbers the requests by the calls made so far, and answers the second one first.
abbrev pub env : Env ℕ ℕ
env = record {
  ret = λ calls call. rcl_ret_ok;
  sequence_number = λ calls. length calls + 10;
  response = λ calls. (11, 42);
  available = λ calls. true;
}

abbrev busy : TypedClient ℕ ℕ
busy = record {
  response_channels = (10, 0) ∷ (11, 1) ∷ (12, 2) ∷ [];
  poll_available_channels = 3 ∷ 4 ∷ [];
  next_channel = 5;
  calls = [];
}

after_response :
    handle_response env busy
    ≡ ok (record busy {
      response_channels = (10, 0) ∷ (12, 2) ∷ [];
      calls = send 1 42 ∷ take_response ∷ [];
    })
unfolding handle_response take_key is_ok
after_response = refl

poll_channels_lem_example :
    (poll_channels (λ ch. ch) (λ ch. ch + 100) (ok true) (3 ∷ 4 ∷ []) [] ≡ ([], 3 ∷ 4 ∷ []))
    × (poll_channels (λ ch. ch) (λ ch. ch + 100) (err (rcl rcl_ret_timeout)) (3 ∷ 4 ∷ []) []
        ≡ ([], 104 ∷ 103 ∷ []))
poll_channels_lem_example =
    poll_channels_lem (λ ch. ch) (λ ch. ch + 100) true (rcl rcl_ret_timeout) (3 ∷ 4 ∷ []) []

after_poll : poll_available env busy ≡ record busy {
  poll_available_channels = [];
  calls = notify 3 ∷ notify 4 ∷ server_is_available ∷ [];
}
unfolding poll_available is_ok
after_poll = refl

-- Two requests, a future for the service, and a poll.
abbrev pub started : TypedClient ℕ ℕ
started = poll_available env (register_poll_available env (request env (request env init 1).1 2).1)

pub started-Reach : Reach env init started
started-Reach = next (next (next (next here (requests 1)) (requests 2)) registers) polls

TypedClient-IsConserved_example : IsConserved started
TypedClient-IsConserved_example = TypedClient-IsConserved env started-Reach

abbrev requested : TypedClient ℕ ℕ
requested = (request env (request env init 1).1 2).1

request_answered_example :
    (c : TypedClient ℕ ℕ) × (handle_response env requested ≡ ok c)
    × (c.calls ≡ send 1 42 ∷ take_response ∷ requested.calls)
unfolding request find is_ok
request_answered_example =
    request_answered env 2 42 (request env init 1).1 requested 1 refl refl refl refl
