-- ===== src/Lifecycle/Histories.antt =====
-- The entities of a node of src/nodes.rs over a whole history of its operations.
use r2r.Prelude.{
  ℕ, ◌≡◌, refl, List, [], ◌∷◌, some, Bool, arith, retain, Bool-cases, inl, inr, any, ◌||◌, ◌==◌,
}
use r2r.Prelude.Bytes.{Bytes}
use r2r.Errors.{ok, is_ok}
use r2r.Lifecycle.{
  Handle, subscription, service, clock, node, Event, initialized, Env, NodeState, init_entity,
  subscribe, subscribe_untyped, create_service, create_client, create_client_untyped,
  create_action_client, create_action_client_untyped, create_action_server, create_publisher,
  create_publisher_untyped, create_wall_timer,
}
use r2r.Lifecycle.Dropping.{
  remove_subscribers, remove_services, remove_timers, create, with_params, fresh_node,
}
use r2r.Lifecycle.Dropping.Finalized.{made-destroy_each, made-drop_timers}
use r2r.Lifecycle.Balance.{one, BalancedWith, IsBalanced, none_pending, init_entity-Made}
use r2r.Lifecycle.Creating.{
  supported-BalancedWith, server-BalancedWith, timer-BalancedWith, subscribe-BalancedWith,
  create_service-BalancedWith, create_client-BalancedWith, create_action_client-BalancedWith,
  create_publisher-BalancedWith,
}
use r2r.Lifecycle.Removing.{
  remove_subscribers-moved, remove_services-moved, remove_timers-moved, moved-IsBalanced,
}

module _ (env : Env) where
  -- The operations that change what the node owns.
  pub data NodeStep (n : NodeState) : NodeState → Type 0 where
    subscribed : (topic : Bytes) → NodeStep n (subscribe env topic n).1
    subscribed_untyped :
        (topic topic_type : Bytes) → NodeStep n (subscribe_untyped env topic topic_type n).1
    service_created : (name : Bytes) → NodeStep n (create_service env name n).1
    client_created : (name : Bytes) → NodeStep n (create_client env name n).1
    untyped_client_created :
        (name type : Bytes) → NodeStep n (create_client_untyped env name type n).1
    action_client_created : (name : Bytes) → NodeStep n (create_action_client env name n).1
    untyped_action_client_created :
        (name type : Bytes) → NodeStep n (create_action_client_untyped env name type n).1
    action_server_created : (name : Bytes) → NodeStep n (create_action_server env name n).1
    publisher_created : (topic : Bytes) → NodeStep n (create_publisher env topic n).1
    untyped_publisher_created :
        (topic topic_type : Bytes) → NodeStep n (create_publisher_untyped env topic topic_type n).1
    timer_created : NodeStep n (create_wall_timer env n).1
    subscribers_removed : (dropped : Handle → Bool) → NodeStep n (remove_subscribers dropped n)
    services_removed : (dropped : Handle → Bool) → NodeStep n (remove_services dropped n)
    timers_removed : (dropped : Handle → Bool) → NodeStep n (remove_timers dropped n)

module _ (env : Env) (P : Type 0) where
  -- What a node can come to from its creation.
  pub data NodeReach : NodeState → Type 0 where
    created :
        (fuel : ℕ) (name namespace : Bytes) (params : P) (n : NodeState) (events : List Event)
        → create env fuel name namespace (ok params) 0 [] ≡ some (ok (n, params), events)
        → NodeReach n
    step : {n n' : NodeState} → NodeReach n → NodeStep env n n' → NodeReach n'

module _ (env : Env) where
  step-BalancedWith :
      {n n' : NodeState} → NodeStep env n n' → BalancedWith [] n → BalancedWith [] n'
  unfolding subscribe_untyped create_client_untyped create_action_client_untyped
      create_action_server create_publisher_untyped create_wall_timer remove_subscribers
      remove_services remove_timers
  step-BalancedWith {n} (subscribed topic) b = subscribe-BalancedWith env n topic b
  step-BalancedWith {n} (service_created name) b = create_service-BalancedWith env n name b
  step-BalancedWith {n} (client_created name) b = create_client-BalancedWith env n name b
  step-BalancedWith {n} (action_client_created name) b =
      create_action_client-BalancedWith env n name b
  step-BalancedWith {n} (publisher_created name) b = create_publisher-BalancedWith env n name b
  step-BalancedWith {n} (subscribed_untyped topic type) b =
      supported-BalancedWith (env.type_support type) (subscribe env topic n) n b
        (subscribe-BalancedWith env n topic b)
  step-BalancedWith {n} (untyped_client_created name type) b =
      supported-BalancedWith (env.type_support type) (create_client env name n) n b
        (create_client-BalancedWith env n name b)
  step-BalancedWith {n} (untyped_action_client_created name type) b =
      supported-BalancedWith (env.type_support type) (create_action_client env name n) n b
        (create_action_client-BalancedWith env n name b)
  step-BalancedWith {n} (untyped_publisher_created topic type) b =
      supported-BalancedWith (env.type_support type) (create_publisher env topic n) n b
        (create_publisher-BalancedWith env n topic b)
  step-BalancedWith {n} (action_server_created name) b =
      server-BalancedWith env name (init_entity env clock n) (init_entity-Made env clock [] n b)
  step-BalancedWith {n} timer_created b =
      timer-BalancedWith env (init_entity env clock n) (init_entity-Made env clock [] n b)
  step-BalancedWith {n} (subscribers_removed d) b =
      moved-IsBalanced n (remove_subscribers d n) refl
        (λ j h. made-destroy_each j h subscription (retain d n.subscribers) n.events)
        (remove_subscribers-moved d n) b
  step-BalancedWith {n} (services_removed d) b =
      moved-IsBalanced n (remove_services d n) refl
        (λ j h. made-destroy_each j h service (retain d n.services) n.events)
        (remove_services-moved d n) b
  step-BalancedWith {n} (timers_removed d) b =
      moved-IsBalanced n (remove_timers d n) refl
        (λ j h. made-drop_timers j h (retain (λ t. d t.0) n.timers) n.events)
        (remove_timers-moved d n) b

  fresh-BalancedWith : (h : Handle) → BalancedWith [] (fresh_node h (initialized node h ∷ []))
  unfolding one
  fresh-BalancedWith h j x = grind arith

module _ (env : Env) {P : Type 0} where
  created_fresh :
      (fuel : ℕ) (name namespace : Bytes) (params : P) (n : NodeState) (events : List Event)
      → create env fuel name namespace (ok params) 0 [] ≡ some (ok (n, params), events)
      → fresh_node 0 (initialized node 0 ∷ []) ≡ n
  unfolding create with_params
  created_fresh fuel name namespace params n events e =
      elim (Bool-cases (any (λ c. c == 0) name || any (λ c. c == 0) namespace)) [
        | inl bad ↦ cc (rw bad at e)
        | inr good ↦ elim (Bool-cases (is_ok (env.ret [] node))) [
          | inl done ↦ cc (rw (good, done) at e)
          | inr failed ↦ cc (rw (good, failed) at e)
        ]
      ]

module _ {env : Env} {P : Type 0} where
  reach-BalancedWith : {n : NodeState} → NodeReach env P n → BalancedWith [] n
  reach-BalancedWith (created fuel name namespace params n events e) =
      rw⁻¹ (created_fresh env fuel name namespace params n events e) (fresh-BalancedWith env 0)
  reach-BalancedWith (step r s) = step-BalancedWith env s (reach-BalancedWith r)

  -- In every history of a node, no entity is initialized twice, and each one that rcl initialized is
  -- owned by the node or was finalized, once; only a clock may be lost, and it is not finalized twice.
  pub NodeReach-IsBalanced : {n : NodeState} → NodeReach env P n → IsBalanced n
  NodeReach-IsBalanced {n} r = none_pending n (reach-BalancedWith r)
