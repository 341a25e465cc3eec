-- ===== src/Node/Spin/Takes.antt =====
-- What a round of `spin_once` of src/nodes.rs takes from rcl, for a node whose clients, action clients
-- and action servers are those of src/clients.rs, src/action_clients.rs and src/action_servers.rs.
pub mod Answers
pub mod Requests
use mathlib.Core.Path.{subst}
use r2r.Prelude.{
  ℕ, ◌≡◌, refl, sym, ap, ◌∙◌, List, [], ◌∷◌, map, Bool, true, false, arith, if◌then◌else◌,
  Bool-cases, inl, inr,
}
use r2r.Errors.{Result, ok, is_ok, ok-injective, ok->>=, ◌>>=◌}
use r2r.Clients
use r2r.ActionClient
use r2r.ActionServer
use r2r.ActionServer.Results.{handle_goal_expired}
use r2r.ActionServer.Results.Waiting.{handle_goal_expired_lem}
use r2r.Node.{Stream, Waits, ClientReady, ServerReady, Woken, Traits, Node}
use r2r.Node.Spin.{
  as_i64, client_waits, server_waits, when_ready, handle_each, handle_action_client,
  handle_action_server, is_timeout, poll, dispatch, spin_once,
}
use r2r.Node.Spin.Rounds.{needed, spin_once_lem, dispatch_parts}
use r2r.Node.Spin.Preserving.Parts.{typed_client, action_client, action_server}
use r2r.Node.Spin.Takes.Answers.{
  Take, response, feedback, status, goal_response, cancel_response, result_response, goal_request,
  cancel_request, result_request, response_takes, action_takes, takes-client_poll_available,
  takes-handle_response, takes-poll_available, takes-handle_feedback_msg, takes-handle_status_msg,
  takes-handle_goal_response, takes-handle_cancel_response, takes-handle_result_response,
}
use r2r.Node.Spin.Takes.Requests.{
  request_takes, takes-send_completed, takes-handle_goal_request, takes-handle_cancel_request,
  takes-handle_result_request,
}

-- One more is taken if it is ready.
abbrev pub after : Bool → Take → List Take → List Take
after ready take taken = if ready then take ∷ taken else taken

-- What the wait set promises of an action client, newest first.
abbrev pub client_after : ClientReady → List Take → List Take
client_after ready taken =
    if is_ok ready.ret
    then after ready.result_response result_response (
        after ready.cancel_response cancel_response (
          after ready.goal_response goal_response
            (after ready.status status (after ready.feedback feedback taken))))
    else taken

abbrev pub server_after : ServerReady → List Take → List Take
server_after ready taken =
    if is_ok ready.ret
    then after ready.result_request result_request
        (after ready.cancel_request cancel_request (after ready.goal_request goal_request taken))
    else taken

-- The parts of a node, zipped with what the wait set says of them.
abbrev pub received :
    {R : Type 0} → (R → List Take → List Take) → List (List Take) → List R → List (List Take)
received f [] rs = []
received f (taken ∷ others) [] = taken ∷ others
received f (taken ∷ others) (r ∷ rs) = f r taken ∷ received f others rs

module _ {A : Type 0} (takes : A → List Take) where
  -- A handler takes one message.
  abbrev TakesOne : Take → (A → Result A) → Type 0
  TakesOne take handle = (a a' : A) → handle a ≡ ok a' → takes a' ≡ take ∷ takes a

  total-TakesOne :
      (take : Take) (f : A → A)
      → ((a : A) → takes (f a) ≡ take ∷ takes a)
      → TakesOne take (λ a. ok (f a))
  total-TakesOne take f h a a' e = subst (λ b. takes b ≡ take ∷ takes a) (ok-injective e) (h a)

  when_ready-takes :
      (ready : Bool) (take : Take) (handle : A → Result A)
      → TakesOne take handle
      → (a a' : A) → when_ready ready handle a ≡ ok a'
      → takes a' ≡ after ready take (takes a)
  when_ready-takes true take handle h a a' e = h a a' e
  when_ready-takes false take handle h a a' e = ap takes (sym (ok-injective e))

  handle_each-takes :
      {R : Type 0} (f : R → List Take → List Take) (handle : R → A → Result A)
      → ((r : R) (a a' : A) → handle r a ≡ ok a' → takes a' ≡ f r (takes a))
      → (as1 as2 : List A) (rs : List R) → handle_each handle as1 rs ≡ ok as2
      → map takes as2 ≡ received f (map takes as1) rs
  unfolding handle_each
  handle_each-takes f handle h [] as2 rs e = ap (map takes) (sym (ok-injective e))
  handle_each-takes f handle h (a ∷ others) as2 [] e = ap (map takes) (sym (ok-injective e))
  handle_each-takes f handle h (a ∷ others) as2 (r ∷ rs) e =
      let (a', e1, f1) = ok->>= (handle r a) _ as2 e in
      let (others', e2, f2) = ok->>= (handle_each handle others rs) _ as2 f1 in
      let rest = handle_each-takes f handle h others others' rs e2 in
      ap (map takes) (sym (ok-injective f2)) ∙ rw (h r a a' e1, rest) refl

  map-takes :
      (f : A → A) (as1 : List A)
      → ((a : A) → takes (f a) ≡ takes a)
      → map takes (map f as1) ≡ map takes as1
  map-takes f [] h = refl
  map-takes f (a ∷ others) h = rw (h a, map-takes f others h) refl

abbrev pub client_part : {G F O : Type 0} → ActionClient.WrappedActionClient G F O → List Take
client_part c = action_takes c.calls

abbrev pub server_part : {G F O : Type 0} → ActionServer.WrappedActionServer G F O → List Take
server_part s = request_takes s.calls

-- What the clients, the action clients and the action servers of a node took.
abbrev pub client_takes : {Q R : Type 0} → List (Clients.TypedClient Q R) → List (List Take)
client_takes = map (λ c. response_takes c.calls)

abbrev pub action_client_takes :
    {G F O : Type 0} → List (ActionClient.WrappedActionClient G F O) → List (List Take)
action_client_takes = map client_part

abbrev pub action_server_takes :
    {G F O : Type 0} → List (ActionServer.WrappedActionServer G F O) → List (List Take)
action_server_takes = map server_part

module _ {G F O : Type 0} (env : ActionClient.Env G F O) where
  action_client-takes :
      (waits : ActionClient.WrappedActionClient G F O → Result Waits) (ready : ClientReady)
      (c c' : ActionClient.WrappedActionClient G F O)
      → handle_action_client (action_client env waits) ready c ≡ ok c'
      → client_part c' ≡ client_after ready (client_part c)
  unfolding handle_action_client
  action_client-takes waits ready c c' e =
      let t = action_client env waits in
      elim (Bool-cases (is_ok ready.ret)) [
        | inr failed ↦
            let same : ok c ≡ ok c' = rw failed at e in
            rw failed (ap client_part (sym (ok-injective same)))
        | inl fine ↦
            let handled = rw fine at e in
            let (c1, e1, f1) =
              ok->>= (when_ready ready.feedback t.handle_feedback_msg c) _ c' handled in
            let (c2, e2, f2) = ok->>= (when_ready ready.status t.handle_status_msg c1) _ c' f1 in
            let (c3, e3, f3) =
              ok->>= (when_ready ready.goal_response t.handle_goal_response c2) _ c' f2 in
            let (c4, e4, e5) =
              ok->>= (when_ready ready.cancel_response t.handle_cancel_response c3) _ c' f3 in
            let one = when_ready-takes client_part in
            rw fine (
              one ready.result_response result_response t.handle_result_response
                (takes-handle_result_response env) c4 c' e5
              ∙ ap (after ready.result_response result_response) (
                  one ready.cancel_response cancel_response t.handle_cancel_response
                    (takes-handle_cancel_response env) c3 c4 e4
                  ∙ ap (after ready.cancel_response cancel_response) (
                      one ready.goal_response goal_response t.handle_goal_response
                        (takes-handle_goal_response env) c2 c3 e3
                      ∙ ap (after ready.goal_response goal_response) (
                          one ready.status status t.handle_status_msg (takes-handle_status_msg env)
                            c1 c2 e2
                          ∙ ap (after ready.status status) (
                              one ready.feedback feedback t.handle_feedback_msg
                                (total-TakesOne client_part feedback _
                                  (takes-handle_feedback_msg env))
                                c c1 e1)))))
      ]

module _ {G F O : Type 0} (env : ActionServer.Env G F O) where
  expired-takes :
      (waits : ActionServer.WrappedActionServer G F O → Result Waits) (ready : Bool)
      (s s' : ActionServer.WrappedActionServer G F O)
      → when_ready ready (action_server env waits).handle_goal_expired s ≡ ok s'
      → server_part s' ≡ server_part s
  expired-takes waits true s s' e = ground (arith, e, handle_goal_expired_lem env 0 s)
  expired-takes waits false s s' e = ap server_part (sym (ok-injective e))

  action_server-takes :
      (waits : ActionServer.WrappedActionServer G F O → Result Waits) (ready : ServerReady)
      (s s' : ActionServer.WrappedActionServer G F O)
      → handle_action_server (action_server env waits) ready s ≡ ok s'
      → server_part s' ≡ server_after ready (server_part s)
  unfolding handle_action_server
  action_server-takes waits ready s s' e =
      let t = action_server env waits in
      elim (Bool-cases (is_ok ready.ret)) [
        | inr failed ↦
            let same : ok s ≡ ok s' = rw failed at e in
            rw failed (ap server_part (sym (ok-injective same)))
        | inl fine ↦
            let handled = rw fine at e in
            let (s1, e1, f1) =
              ok->>= (when_ready ready.goal_request t.handle_goal_request s) _ s' handled in
            let (s2, e2, f2) =
              ok->>= (when_ready ready.cancel_request (λ b. ok (t.handle_cancel_request b)) s1) _ s'
                f1 in
            let (s3, e3, e4) =
              ok->>= (when_ready ready.result_request (λ b. ok (t.handle_result_request b)) s2) _ s'
                f2 in
            let one = when_ready-takes server_part in
            let total = total-TakesOne server_part in
            rw fine (
              expired-takes waits ready.goal_expired s3 s' e4
              ∙ (one ready.result_request result_request _
                    (total result_request _ (takes-handle_result_request env)) s2 s3 e3
                  ∙ ap (after ready.result_request result_request) (
                      one ready.cancel_request cancel_request _
                        (total cancel_request _ (takes-handle_cancel_request env)) s1 s2 e2
                      ∙ ap (after ready.cancel_request cancel_request) (
                          one ready.goal_request goal_request _
                            (total goal_request _ (takes-handle_goal_request env)) s s1 e1))))
      ]

module _ {S T V Request Response G1 F1 O1 G2 F2 O2 : Type 0}
    (client_env : Clients.Env Request Response) (action_client_env : ActionClient.Env G1 F1 O1)
    (action_server_env : ActionServer.Env G2 F2 O2) where
  -- A node with the clients of the source, for any streams and any behaviour of `rcl_wait`, where
  -- rcl_action needs what it documents.
  abbrev pub typed :
      Stream S
      → Stream T
      → Stream V
      → (List Waits → Waits → ℕ → Woken)
      → Traits S T
          (Clients.TypedClient Request Response)
          V
          (ActionClient.WrappedActionClient G1 F1 O1)
          (ActionServer.WrappedActionServer G2 F2 O2)
  typed subscriber timer service wait = record {
    subscriber = subscriber;
    timer = timer;
    client = typed_client client_env;
    service = service;
    action_client = action_client action_client_env (λ a. ok client_waits);
    action_server = action_server action_server_env (λ b. ok server_waits);
    wait = wait;
  }

  -- A round that ends takes, for each client, action client and action server of the node, exactly
  -- the messages that the wait set says are ready, each by the function of rcl for its kind: of an
  -- action client feedback, status, and then the responses to goal, cancel and result requests, of
  -- an action server the requests for goals, cancels and results. On a timeout it takes nothing.
  pub spin_once-takes :
      (subscriber : Stream S) (timer : Stream T) (service : Stream V)
      (wait : List Waits → Waits → ℕ → Woken)
      → let t = typed subscriber timer service wait in
        (timeout : ℕ)
        (n n' : Node S T
          (Clients.TypedClient Request Response)
          V
          (ActionClient.WrappedActionClient G1 F1 O1)
          (ActionServer.WrappedActionServer G2 F2 O2))
        → spin_once t timeout n ≡ ok n'
        → let woken = wait n.waits (needed t n) (as_i64 timeout) in
          let late = is_timeout woken.ret in
          (client_takes n'.clients ≡ (
            if late
            then client_takes n.clients
            else received (λ ready. after ready response) (client_takes n.clients) woken.clients))
          × (action_client_takes n'.action_clients ≡ (
              if late
              then action_client_takes n.action_clients
              else received client_after
                  (action_client_takes n.action_clients)
                  woken.action_clients))
          × (action_server_takes n'.action_servers ≡ (
              if late
              then action_server_takes n.action_servers
              else received server_after
                  (action_server_takes n.action_servers)
                  woken.action_servers))
  unfolding poll
  spin_once-takes subscriber timer service wait timeout n n' e =
      let t = typed subscriber timer service wait in
      let woken = wait n.waits (needed t n) (as_i64 timeout) in
      let waited = record (poll t n) { waits = needed t n ∷ n.waits } in
      let round = spin_once_lem t timeout n (λ a. refl) (λ b. refl) in
      let polled =
        map-takes (λ (c : Clients.TypedClient Request Response). response_takes c.calls)
          (Clients.poll_available client_env) n.clients (takes-client_poll_available client_env) in
      let action_polled =
        map-takes client_part t.action_client.poll_available n.action_clients
          (takes-poll_available action_client_env) in
      let completed =
        map-takes server_part t.action_server.send_completed_cancel_requests n.action_servers
          (takes-send_completed action_server_env) in
      elim (Bool-cases (is_timeout woken.ret)) [
        | inl late ↦
            let same : ok waited ≡ ok n' = rw (round, late) at e in
            let n-same = ok-injective same in
            rw late (
              ap (λ m. client_takes m.clients) (sym n-same) ∙ polled,
              ap (λ m. action_client_takes m.action_clients) (sym n-same) ∙ action_polled,
              ap (λ m. action_server_takes m.action_servers) (sym n-same) ∙ completed,
            )
        | inr woke ↦
            let dispatched : dispatch t woken waited ≡ ok n' = rw (round, woke) at e in
            let (_, _, _, clients, action_clients, action_servers) =
              dispatch_parts t woken waited n' dispatched in
            rw woke (
              handle_each-takes
                    (λ (c : Clients.TypedClient Request Response). response_takes c.calls)
                    (λ ready. after ready response) _
                    (λ ready.
                      when_ready-takes (λ c. response_takes c.calls) ready response _
                        (takes-handle_response client_env))
                    waited.clients n'.clients woken.clients clients
                  ∙ ap (λ l. received (λ ready. after ready response) l woken.clients) polled,
              handle_each-takes client_part client_after _
                    (action_client-takes action_client_env (λ a. ok client_waits))
                    waited.action_clients n'.action_clients woken.action_clients action_clients
                  ∙ ap (λ l. received client_after l woken.action_clients) action_polled,
              handle_each-takes server_part server_after _
                    (action_server-takes action_server_env (λ b. ok server_waits))
                    waited.action_servers n'.action_servers woken.action_servers action_servers
                  ∙ ap (λ l. received server_after l woken.action_servers) completed,
            )
      ]
