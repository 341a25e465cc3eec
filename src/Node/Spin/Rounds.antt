-- ===== src/Node/Spin/Rounds.antt =====
-- What one round of `spin_once` of src/nodes.rs waits for, and what it does on a timeout.
use r2r.Prelude.{
  ℕ, ◌≡◌, ◌≢◌, ◌+◌, ◌*◌, List, [], ◌∷◌, false, arith, if◌then◌else◌, length, All, All-everywhere,
  length-map,
}
use r2r.Errors.{Result, ok, ok->>=}
use r2r.Node.{Waits, Woken, Traits, Node}
use r2r.Node.Streams.{serve}
use r2r.Node.Streams.Survivors.{survivors, serve_finalized}
use r2r.Node.Spin.{
  as_i64, client_waits, server_waits, total_waits, handle_each, is_timeout, poll, wait_set_size,
  dispatch, spin_once, when_ready, handle_action_client, handle_action_server,
}

-- `n` times what one needs.
abbrev pub times : ℕ → Waits → Waits
times n w = record {
  subs = n * w.subs;
  gc = n * w.gc;
  timers = n * w.timers;
  clients = n * w.clients;
  services = n * w.services;
}

total_waits_expected :
    {A : Type 0} (get_num_waits : A → Result Waits) (expected : Waits) (as1 : List A)
    → All (λ a. get_num_waits a ≡ ok expected) as1
    → total_waits get_num_waits expected as1 ≡ ok (times (length as1) expected)
unfolding total_waits
total_waits_expected get_num_waits expected [] all = ground arith
total_waits_expected get_num_waits expected (a ∷ others) (e, all) =
    ground (arith, e, total_waits_expected get_num_waits expected others all)

module _ {S T C V A B : Type 0} (t : Traits S T C V A B) where
  -- What the wait set of a node needs.
  abbrev pub needed : Node S T C V A B → Waits
  needed n = record {
    subs = length n.subscribers + 2 * length n.action_clients;
    gc = 0;
    timers = length n.timers + length n.action_servers;
    clients = length n.clients + 3 * length n.action_clients;
    services = length n.services + 3 * length n.action_servers;
  }

  wait_set_size_lem :
      (n : Node S T C V A B)
      → All (λ a. t.action_client.get_num_waits a ≡ ok client_waits) n.action_clients
      → All (λ b. t.action_server.get_num_waits b ≡ ok server_waits) n.action_servers
      → wait_set_size t n ≡ ok (needed n)
  unfolding wait_set_size
  wait_set_size_lem n cs ss = ground (
    arith,
    total_waits_expected t.action_client.get_num_waits client_waits n.action_clients cs,
    total_waits_expected t.action_server.get_num_waits server_waits n.action_servers ss,
  )

  -- If the action clients and servers need what rcl_action documents, a round waits on a wait set
  -- with a place for every stream, client and service of the node and for all that its action
  -- clients and servers add; on a timeout it only polled, and otherwise it handles what woke it.
  pub spin_once_lem :
      (timeout : ℕ) (n : Node S T C V A B)
      → ((a : A) → t.action_client.get_num_waits a ≡ ok client_waits)
      → ((b : B) → t.action_server.get_num_waits b ≡ ok server_waits)
      → let woken = t.wait n.waits (needed n) (as_i64 timeout) in
        let waited = record (poll t n) { waits = needed n ∷ n.waits } in
        spin_once t timeout n
        ≡ (if is_timeout woken.ret then ok waited else dispatch t woken waited)
  unfolding spin_once poll
  spin_once_lem timeout n cs ss = ground (
    arith,
    wait_set_size_lem (poll t n) (All-everywhere _ cs) (All-everywhere _ ss),
    length-map t.action_client.poll_available n.action_clients,
    length-map t.client.poll_available n.clients,
    length-map t.action_server.send_completed_cancel_requests n.action_servers,
  )

  -- A dispatch that succeeds serves the streams, and every handler of the other parts succeeds.
  pub dispatch_parts :
      (w : Woken) (n n' : Node S T C V A B)
      → dispatch t w n ≡ ok n'
      → (n'.subscribers ≡ serve t.subscriber n.subscribers w.subscriptions)
        × (n'.timers ≡ serve t.timer n.timers w.timers)
        × (n'.services ≡ serve t.service n.services w.services)
        × (handle_each (λ ready. when_ready ready t.client.handle_response) n.clients w.clients
            ≡ ok n'.clients)
        × (handle_each (handle_action_client t.action_client) n.action_clients w.action_clients
            ≡ ok n'.action_clients)
        × (handle_each (handle_action_server t.action_server) n.action_servers w.action_servers
            ≡ ok n'.action_servers)
  unfolding dispatch
  dispatch_parts w n n' e =
      let clients =
        handle_each (λ ready. when_ready ready t.client.handle_response) n.clients w.clients in
      let action_clients =
        handle_each (handle_action_client t.action_client) n.action_clients w.action_clients in
      let action_servers =
        handle_each (handle_action_server t.action_server) n.action_servers w.action_servers in
      let (cs, e1, f1) = ok->>= clients _ n' e in
      let (acs, e2, f2) = ok->>= action_clients _ n' f1 in
      let (ass, e3, f3) = ok->>= action_servers _ n' f2 in ground (arith, e1, e2, e3, f3)

  -- A round that is not a timeout leaves the subscribers, in order, without exactly those that
  -- were ready and whose receiver is gone, if a destroyed subscriber has the null handle and no
  -- other has.
  pub subscribers-spin_once :
      (timeout : ℕ) (n n' : Node S T C V A B)
      → ((a : A) → t.action_client.get_num_waits a ≡ ok client_waits)
      → ((b : B) → t.action_server.get_num_waits b ≡ ok server_waits)
      → ((s : S) → t.subscriber.handle (t.subscriber.handle_incoming s).1 ≡ t.subscriber.handle s)
      → ((s : S) → t.subscriber.handle (t.subscriber.destroy s) ≡ 0)
      → All (λ s. t.subscriber.handle s ≢ 0) n.subscribers
      → is_timeout (t.wait n.waits (needed n) (as_i64 timeout)).ret ≡ false
      → spin_once t timeout n ≡ ok n'
      → n'.subscribers
        ≡ survivors t.subscriber n.subscribers
            (t.wait n.waits (needed n) (as_i64 timeout)).subscriptions
  unfolding dispatch poll
  subscribers-spin_once timeout n n' cs ss keeps null live woke e =
      let woken = t.wait n.waits (needed n) (as_i64 timeout) in
      let served = serve_finalized t.subscriber keeps n.subscribers woken.subscriptions null live in
      let dispatched : dispatch t woken (record (poll t n) { waits = needed n ∷ n.waits }) ≡ ok n' =
        ground (arith, spin_once_lem timeout n cs ss, woke, e) in
      ground (arith, dispatch_parts woken _ n' dispatched, served)
