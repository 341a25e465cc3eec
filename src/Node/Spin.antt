-- ===== src/Node/Spin.antt =====
-- src/nodes.rs: `Node::spin_once`.
pub mod Rounds
pub mod Preserving
pub mod Takes
use r2r.Prelude.{
  ℕ, List, [], ◌∷◌, ◌+◌, Option, none, some, Bool, true, false, if◌then◌else◌, ◌==◌, ◌&&◌, map,
  length, ◌%◌, ◌^◌,
}
use r2r.Errors.{Ret, rcl_ret_timeout, Result, ok, err, panic, is_ok, ◌>>=◌}
use r2r.Node.{
  Waits, Client_, ActionClient_, ActionServer_, ClientReady, ServerReady, Woken, Traits, Node,
}
use r2r.Node.Streams.{serve}

abbrev pub no_waits : Waits
no_waits = record { subs = 0; gc = 0; timers = 0; clients = 0; services = 0 }

-- The loops that count what the action clients and the action servers need: `expected` is what the
-- assertions ask for, and `panic` that one fails.
unfoldable pub total_waits : {A : Type 0} → (A → Result Waits) → Waits → List A → Result Waits
total_waits get_num_waits expected [] = ok no_waits
total_waits get_num_waits expected (a ∷ others) =
    let rest = total_waits get_num_waits expected others in
    elim (get_num_waits a) [
      | ok w ↦
          if w.subs == expected.subs
            && w.clients == expected.clients
            && w.gc == expected.gc
            && w.timers == expected.timers
            && w.services == expected.services
          then (do
            total ← rest
            ok (record {
              subs = w.subs + total.subs;
              gc = w.gc + total.gc;
              timers = w.timers + total.timers;
              clients = w.clients + total.clients;
              services = w.services + total.services;
            }))
          else panic
      | err e ↦ panic
      | panic ↦ panic
    ]

abbrev pub client_waits : Waits
client_waits = record { subs = 2; gc = 0; timers = 0; clients = 3; services = 0 }

abbrev pub server_waits : Waits
server_waits = record { subs = 0; gc = 0; timers = 1; clients = 0; services = 3 }

-- `if ready { handler }`.
abbrev pub when_ready : {A : Type 0} → Bool → (A → Result A) → A → Result A
when_ready true handle a = handle a
when_ready false handle a = ok a

-- The loop over the clients that a wait set says are ready, or over the action clients and
-- servers.
unfoldable pub handle_each : {A R : Type 0} → (R → A → Result A) → List A → List R → Result (List A)
handle_each handle [] rs = ok []
handle_each handle (a ∷ others) [] = ok (a ∷ others)
handle_each handle (a ∷ others) (r ∷ rs) = do
  a' ← handle r a
  others' ← handle_each handle others rs
  ok (a' ∷ others')

-- One round of the loop over the action clients.
unfoldable pub handle_action_client : {A : Type 0} → ActionClient_ A → ClientReady → A → Result A
handle_action_client t ready a =
    let handled = (do
      a1 ← when_ready ready.feedback t.handle_feedback_msg a
      a2 ← when_ready ready.status t.handle_status_msg a1
      a3 ← when_ready ready.goal_response t.handle_goal_response a2
      a4 ← when_ready ready.cancel_response t.handle_cancel_response a3
      when_ready ready.result_response t.handle_result_response a4) in
    if is_ok ready.ret then handled else ok a

-- One round of the loop over the action servers.
unfoldable pub handle_action_server : {B : Type 0} → ActionServer_ B → ServerReady → B → Result B
handle_action_server t ready b =
    let handled = (do
      b1 ← when_ready ready.goal_request t.handle_goal_request b
      b2 ← when_ready ready.cancel_request (λ b. ok (t.handle_cancel_request b)) b1
      b3 ← when_ready ready.result_request (λ b. ok (t.handle_result_request b)) b2
      when_ready ready.goal_expired t.handle_goal_expired b3) in
    if is_ok ready.ret then handled else ok b

-- `timeout.as_nanos() as i64`, by its bits.
abbrev pub as_i64 : ℕ → ℕ
as_i64 n = n % 2 ^ 64

-- `ret == RCL_RET_TIMEOUT as i32`.
unfoldable pub is_timeout : Ret → Bool
is_timeout rcl_ret_timeout = true
is_timeout _ = false

module _ {S T C V A B : Type 0} (t : Traits S T C V A B) where
  -- The first loops of `spin_once`.
  unfoldable pub poll : Node S T C V A B → Node S T C V A B
  poll n = record n {
    action_servers = map t.action_server.send_completed_cancel_requests n.action_servers;
    clients = map t.client.poll_available n.clients;
    action_clients = map t.action_client.poll_available n.action_clients;
  }

  -- The arguments of `rcl_wait_set_init`.
  unfoldable pub wait_set_size : Node S T C V A B → Result Waits
  unfolding total_waits
  wait_set_size n = do
    total_action_clients ← total_waits t.action_client.get_num_waits client_waits n.action_clients
    total_action_servers ← total_waits t.action_server.get_num_waits server_waits n.action_servers
    ok (record {
      subs = length n.subscribers + total_action_clients.subs;
      gc = 0;
      timers = length n.timers + total_action_servers.timers;
      clients = length n.clients + total_action_clients.clients;
      services = length n.services + total_action_servers.services;
    })

  -- What `spin_once` does after `rcl_wait` without a timeout.
  unfoldable pub dispatch : Woken → Node S T C V A B → Result (Node S T C V A B)
  unfolding serve handle_each handle_action_client handle_action_server
  dispatch w n = do
    clients ← handle_each (λ ready. when_ready ready t.client.handle_response) n.clients w.clients
    action_clients ←
        handle_each (handle_action_client t.action_client) n.action_clients w.action_clients
    action_servers ←
        handle_each (handle_action_server t.action_server) n.action_servers w.action_servers
    ok (record n {
      subscribers = serve t.subscriber n.subscribers w.subscriptions;
      timers = serve t.timer n.timers w.timers;
      clients = clients;
      services = serve t.service n.services w.services;
      action_clients = action_clients;
      action_servers = action_servers;
    })

  -- `timeout` is the duration in nanoseconds.
  unfoldable pub spin_once : (timeout : ℕ) → Node S T C V A B → Result (Node S T C V A B)
  unfolding poll wait_set_size dispatch is_timeout
  spin_once timeout n = do
    size ← wait_set_size (poll n)
    let woken = t.wait n.waits size (as_i64 timeout)
    let waited = record (poll n) { waits = size ∷ n.waits }
    if is_timeout woken.ret then ok waited else dispatch woken waited
