-- ===== src/ActionClient/Responses/Delivery.antt =====
-- The channels of an action client over a whole history: src/action_clients.rs as a step relation.
use mathlib.Core.List.{map-append}
use mathlib.Core.List.Perm
use mathlib.Core.Path.{subst}
use r2r.Prelude.{
  ℕ, suc, ◌+◌, ◌≡◌, refl, sym, ◌∙◌, ap, List, [], ◌∷◌, ◌++◌, map, Option, none, some, Bool, true,
  false, arith, if◌then◌else◌, ltb,
}
use r2r.Prelude.Counting.{count, count-append, count-perm}
use r2r.Errors.{Result, ok, ok-injective}
use r2r.ActionMsgs.{Uuid, Time, goal_info_of}
use r2r.Polling.{Channel}
use r2r.Polling.Outcomes.{count-poll_channels}
use r2r.Pending.{Pending}
use r2r.ActionClient.{
  Call, send_goal, send_cancel, send_result, take_goal_response, take_cancel_response,
  take_result_response, take_feedback, take_status, server_is_available, answer_goal, answer_cancel,
  answer_result, offer_feedback, notify, drop, Env, WrappedActionClient, init,
}
use r2r.ActionClient.Requests.{
  GoalFuture, register_poll_available, send_goal_locked, goal_future, send_cancel_request,
  poll_available, action_server_available_helper,
}
use r2r.ActionClient.Responses.{
  handle_goal_response, handle_cancel_response, handle_feedback_msg, handle_status_msg,
  handle_result_response,
}
use r2r.ActionClient.Responses.Handling.{
  HandlesGoal, handle_goal_response-HandlesGoal, HandlesCancel,
  handle_cancel_response-HandlesCancel, HandlesResult, orphaned, unreadable,
  handle_result_response-HandlesResult,
}

abbrev pub channels : Pending Channel → List Channel
channels = map (λ (e : ℕ × Channel). e.1)

count-snoc :
    (q : Channel) (es : Pending Channel) (k : ℕ) (ch : Channel)
    → count q (channels (es ++ (k, ch) ∷ [])) ≡ count q (channels es) + count q (ch ∷ [])
count-snoc q es k ch = omega (
  arith,
  ap (count q) (map-append (λ (e : ℕ × Channel). e.1) es ((k, ch) ∷ [])),
  count-append q (channels es) (ch ∷ []),
)

module _ {G F O : Type 0} where
  -- The channels whose senders were used up, or dropped.
  abbrev pub used : List (Call G F O) → List Channel
  used [] = []
  used (answer_goal ch accept stamp ∷ calls) = ch ∷ used calls
  used (answer_cancel ch response ∷ calls) = ch ∷ used calls
  used (answer_result ch status result ∷ calls) = ch ∷ used calls
  used (notify ch ∷ calls) = ch ∷ used calls
  used (drop ch ∷ calls) = ch ∷ used calls
  used (send_goal uuid goal ∷ calls) = used calls
  used (send_cancel info ∷ calls) = used calls
  used (send_result uuid ∷ calls) = used calls
  used (take_goal_response ∷ calls) = used calls
  used (take_cancel_response ∷ calls) = used calls
  used (take_result_response ∷ calls) = used calls
  used (take_feedback ∷ calls) = used calls
  used (take_status ∷ calls) = used calls
  used (server_is_available ∷ calls) = used calls
  used (offer_feedback ch feedback ∷ calls) = used calls

  -- How often a channel is held or was used.
  abbrev pub occurrences : Channel → WrappedActionClient G F O → ℕ
  occurrences ch c =
      count ch (channels c.goal_response_channels)
      + count ch (channels c.cancel_response_channels)
      + count ch (channels c.feedback_senders)
      + count ch (channels c.result_senders)
      + count ch c.poll_available_channels
      + count ch (used c.calls)

  -- Each channel that was created is in one place: it is held once, or its sender was used, once.
  abbrev pub IsConserved : WrappedActionClient G F O → Type 0
  IsConserved c = (ch : Channel) → occurrences ch c ≡ (if ltb ch c.next_channel then 1 else 0)

module _ {G F O : Type 0} (env : Env G F O) where
  pub data Step (c : WrappedActionClient G F O) : WrappedActionClient G F O → Type 0 where
    goal_requested : (goal : G) → Step c (send_goal_locked env goal c).1
    goal_resolved :
        {c' : WrappedActionClient G F O} (future : GoalFuture) (outcome : Option (Bool × Time))
        (r : Result GoalFuture)
        → goal_future env future outcome (some c) ≡ (r, some c')
        → Step c c'
    cancel_requested : (uuid : Uuid) → Step c (send_cancel_request env uuid c).1
    registered : Step c (register_poll_available c)
    polled : Step c (poll_available env c)
    goal_response :
        {c' : WrappedActionClient G F O} → handle_goal_response env c ≡ ok c' → Step c c'
    cancel_response :
        {c' : WrappedActionClient G F O} → handle_cancel_response env c ≡ ok c' → Step c c'
    result_response :
        {c' : WrappedActionClient G F O} → handle_result_response env c ≡ ok c' → Step c c'
    feedback_msg : Step c (handle_feedback_msg env c)
    status_msg : {c' : WrappedActionClient G F O} → handle_status_msg env c ≡ ok c' → Step c c'

  pub data Reach (c : WrappedActionClient G F O) : WrappedActionClient G F O → Type 0 where
    here : Reach c c
    next : {d e : WrappedActionClient G F O} → Reach c d → Step d e → Reach c e

  goal-IsConserved :
      (goal : G) (c : WrappedActionClient G F O)
      → IsConserved c
      → IsConserved (send_goal_locked env goal c).1
  unfolding send_goal_locked
  goal-IsConserved goal c v q = ground (
    arith,
    v q,
    count-snoc q c.feedback_senders (env.new_uuid c.calls) (suc c.next_channel),
    count-snoc q c.result_senders (env.new_uuid c.calls) (suc (suc c.next_channel)),
    count-snoc q c.goal_response_channels
        (env.sequence_number c.calls (send_goal (env.new_uuid c.calls) goal)) c.next_channel,
  )

  resolved-IsConserved :
      (future : GoalFuture) (outcome : Option (Bool × Time)) (r : Result GoalFuture)
      (c c' : WrappedActionClient G F O)
      → goal_future env future outcome (some c) ≡ (r, some c')
      → IsConserved c
      → IsConserved c'
  unfolding goal_future
  resolved-IsConserved future none r c c' e v q = ground (arith, v q)
  resolved-IsConserved future (some (true, stamp)) r c c' e v q = ground (arith, v q)
  resolved-IsConserved future (some (false, stamp)) r c c' e v q = ground (arith, v q)

  cancel-IsConserved :
      (uuid : Uuid) (c : WrappedActionClient G F O)
      → IsConserved c
      → IsConserved (send_cancel_request env uuid c).1
  unfolding send_cancel_request
  cancel-IsConserved uuid c v q = ground (
    arith,
    v q,
    count-snoc q c.cancel_response_channels
        (env.sequence_number c.calls (send_cancel (goal_info_of uuid))) c.next_channel,
  )

  polled-IsConserved :
      (c : WrappedActionClient G F O) → IsConserved c → IsConserved (poll_available env c)
  unfolding poll_available
  polled-IsConserved c v q = ground (
    arith,
    v q,
    count-poll_channels notify drop used (λ ch calls. refl) (λ ch calls. refl) q
        (action_server_available_helper env c.calls) c.poll_available_channels
        (server_is_available ∷ c.calls),
  )

  registered-IsConserved :
      (c : WrappedActionClient G F O) → IsConserved c → IsConserved (register_poll_available c)
  unfolding register_poll_available
  registered-IsConserved c v q =
      ground (arith, v q, count-append q c.poll_available_channels (c.next_channel ∷ []))

  HandlesGoal-IsConserved :
      {c c' : WrappedActionClient G F O} → HandlesGoal env c c' → IsConserved c → IsConserved c'
  HandlesGoal-IsConserved (HandlesGoal.ignored w) v q = v q
  HandlesGoal-IsConserved (HandlesGoal.answered sender rest t f p) v q =
      omega (arith, v q, count-perm q (Perm.map (λ e. e.1) p))

  HandlesCancel-IsConserved :
      {c c' : WrappedActionClient G F O} → HandlesCancel env c c' → IsConserved c → IsConserved c'
  HandlesCancel-IsConserved (HandlesCancel.ignored w) v q = v q
  HandlesCancel-IsConserved (HandlesCancel.answered sender rest f p) v q =
      omega (arith, v q, count-perm q (Perm.map (λ e. e.1) p))

  HandlesResult-IsConserved :
      (c c' : WrappedActionClient G F O) (r : Result (WrappedActionClient G F O))
      → HandlesResult env c r
      → r ≡ ok c'
      → IsConserved c
      → IsConserved c'
  HandlesResult-IsConserved c c' _ (HandlesResult.ignored w) e v =
      subst IsConserved (ok-injective e) v
  HandlesResult-IsConserved c c' _ (orphaned uuid rest f p g) e v =
      subst IsConserved (ok-injective e) v
  HandlesResult-IsConserved c c' _ (unreadable bad) e v = cc
  HandlesResult-IsConserved c c' _ (HandlesResult.answered uuid sender status rs ss f p g q good) e
        v =
      subst IsConserved (ok-injective e)
        (λ ch. omega (arith, v ch, count-perm ch (Perm.map (λ e. e.1) q)))

  feedback-IsConserved :
      (c : WrappedActionClient G F O) → IsConserved c → IsConserved (handle_feedback_msg env c)
  unfolding handle_feedback_msg
  feedback-IsConserved c v q = ground (arith, v q)

  status-IsConserved :
      (c c' : WrappedActionClient G F O)
      → handle_status_msg env c ≡ ok c'
      → IsConserved c
      → IsConserved c'
  unfolding handle_status_msg
  status-IsConserved c c' e v q = ground (arith, v q)

  Step-IsConserved : {c c' : WrappedActionClient G F O} → Step c c' → IsConserved c → IsConserved c'
  Step-IsConserved (goal_requested goal) v = goal-IsConserved goal _ v
  Step-IsConserved (goal_resolved future outcome r e) v =
      resolved-IsConserved future outcome r _ _ e v
  Step-IsConserved (cancel_requested uuid) v = cancel-IsConserved uuid _ v
  Step-IsConserved registered v = registered-IsConserved _ v
  Step-IsConserved polled v = polled-IsConserved _ v
  Step-IsConserved {c} {c'} (goal_response e) v =
      let (d, handled, h) = handle_goal_response-HandlesGoal env c in
      subst IsConserved (ok-injective (sym handled ∙ e)) (HandlesGoal-IsConserved h v)
  Step-IsConserved {c} {c'} (cancel_response e) v =
      let (d, handled, h) = handle_cancel_response-HandlesCancel env c in
      subst IsConserved (ok-injective (sym handled ∙ e)) (HandlesCancel-IsConserved h v)
  Step-IsConserved {c} {c'} (result_response e) v =
      HandlesResult-IsConserved c c' _ (handle_result_response-HandlesResult env c) e v
  Step-IsConserved feedback_msg v = feedback-IsConserved _ v
  Step-IsConserved (status_msg e) v = status-IsConserved _ _ e v

  -- In every history of an action client, from its creation, each channel that it created is in
  -- exactly one place: among those of the goal requests, the cancel requests, the feedback streams,
  -- the results, or the polls for the server, or used up, once.
  pub Reach-IsConserved : {c : WrappedActionClient G F O} → Reach (init G F O) c → IsConserved c
  Reach-IsConserved here = λ ch. ground arith
  Reach-IsConserved (next r s) = Step-IsConserved s (Reach-IsConserved r)
