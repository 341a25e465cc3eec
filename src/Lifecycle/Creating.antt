-- ===== src/Lifecycle/Creating.antt =====
-- The calls of src/nodes.rs that create an entity keep the balance of a node.
use r2r.Prelude.{[], ◌∷◌, arith}
use r2r.Prelude.Bytes.{Bytes}
use r2r.Errors.{Result, ok, err, panic}
use r2r.Lifecycle.{
  Handle, Kind, subscription, service, client, action_client, action_server, publisher, timer,
  clock, Env, NodeState, push_subscriber, push_service, push_client, push_action_client,
  push_publisher, keep, supported, init_entity, create_entity, subscribe, create_service,
  create_client, create_action_client, add_action_server, create_publisher, timer_made, add_timer,
}
use r2r.Lifecycle.Balance.{
  one, BalancedWith, finalized-BalancedWith, Made, init_entity-Made, create_entity-Made,
}
use r2r.Lifecycle.Adding.{
  Adds, added-BalancedWith, push_subscriber-Adds, push_service-Adds, push_client-Adds,
  push_action_client-Adds, push_publisher-Adds, push_server, push_timer, push_server-Adds,
  push_timer-Adds,
}

pub keep-BalancedWith :
    (k : Kind) (f : Handle → NodeState → NodeState) (r : Result Handle × NodeState)
    → ((x : Handle) (n : NodeState) → Adds ((k, x) ∷ []) n (f x n))
    → Made k [] r
    → BalancedWith [] (keep f r).1
keep-BalancedWith k f (ok x, n) adds m = added-BalancedWith ((k, x) ∷ []) n (f x n) (adds x n) m
keep-BalancedWith k f (err e, n) adds m = m
keep-BalancedWith k f (panic, n) adds m = m

pub supported-BalancedWith :
    (s : Result (Unit {0})) (r : Result Handle × NodeState) (n : NodeState)
    → BalancedWith [] n
    → BalancedWith [] r.1
    → BalancedWith [] (supported s r n).1
supported-BalancedWith (ok tt) r n b c = c
supported-BalancedWith (err e) r n b c = b
supported-BalancedWith panic r n b c = b

-- A clock that is dropped without being finalized.
pub lost-BalancedWith :
    (c : Handle) (n : NodeState) → BalancedWith ((clock, c) ∷ []) n → BalancedWith [] n
unfolding one
lost-BalancedWith c n b j h = grind (arith, b j h)

server_kept :
    (c : Handle) (r : Result Handle × NodeState)
    → Made action_server ((clock, c) ∷ []) r
    → BalancedWith [] (keep (push_server c) r).1
server_kept c (ok x, n) m =
    added-BalancedWith ((action_server, x) ∷ (clock, c) ∷ []) n (push_server c x n)
      (push_server-Adds c x n) m
server_kept c (err e, n) m = lost-BalancedWith c n m
server_kept c (panic, n) m = lost-BalancedWith c n m

module _ (env : Env) where
  timer_kept :
      (c : Handle) (r : Result Handle × NodeState)
      → Made timer ((clock, c) ∷ []) r
      → BalancedWith [] (timer_made env c r).1
  unfolding timer_made
  timer_kept c (ok x, n) m =
      added-BalancedWith ((timer, x) ∷ (clock, c) ∷ []) n (push_timer c x n) (push_timer-Adds c x n)
        m
  timer_kept c (err e, n) m = finalized-BalancedWith clock c [] n m
  timer_kept c (panic, n) m = finalized-BalancedWith clock c [] n m

  pub server-BalancedWith :
      (name : Bytes) (r : Result Handle × NodeState)
      → Made clock [] r
      → BalancedWith [] (add_action_server env name r).1
  unfolding add_action_server
  server-BalancedWith name (ok c, n) m =
      server_kept c (create_entity env action_server name n)
        (create_entity-Made env action_server name ((clock, c) ∷ []) n m)
  server-BalancedWith name (err e, n) m = m
  server-BalancedWith name (panic, n) m = m

  pub timer-BalancedWith :
      (r : Result Handle × NodeState) → Made clock [] r → BalancedWith [] (add_timer env r).1
  unfolding add_timer
  timer-BalancedWith (ok c, n) m =
      timer_kept c (init_entity env timer n) (init_entity-Made env timer ((clock, c) ∷ []) n m)
  timer-BalancedWith (err e, n) m = m
  timer-BalancedWith (panic, n) m = m

module _ (env : Env) (n : NodeState) (name : Bytes) (b : BalancedWith [] n) where
  pub subscribe-BalancedWith : BalancedWith [] (subscribe env name n).1
  unfolding subscribe
  subscribe-BalancedWith =
      keep-BalancedWith subscription push_subscriber (create_entity env subscription name n)
        push_subscriber-Adds (create_entity-Made env subscription name [] n b)

  pub create_service-BalancedWith : BalancedWith [] (create_service env name n).1
  unfolding create_service
  create_service-BalancedWith =
      keep-BalancedWith service push_service (create_entity env service name n) push_service-Adds
        (create_entity-Made env service name [] n b)

  pub create_client-BalancedWith : BalancedWith [] (create_client env name n).1
  unfolding create_client
  create_client-BalancedWith =
      keep-BalancedWith client push_client (create_entity env client name n) push_client-Adds
        (create_entity-Made env client name [] n b)

  pub create_action_client-BalancedWith : BalancedWith [] (create_action_client env name n).1
  unfolding create_action_client
  create_action_client-BalancedWith =
      keep-BalancedWith action_client push_action_client (create_entity env action_client name n)
        push_action_client-Adds (create_entity-Made env action_client name [] n b)

  pub create_publisher-BalancedWith : BalancedWith [] (create_publisher env name n).1
  unfolding create_publisher
  create_publisher-BalancedWith =
      keep-BalancedWith publisher push_publisher (create_entity env publisher name n)
        push_publisher-Adds (create_entity-Made env publisher name [] n b)
