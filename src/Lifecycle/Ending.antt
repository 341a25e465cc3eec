-- ===== src/Lifecycle/Ending.antt =====
-- `Drop for Node` of src/nodes.rs after any history of the node.
use r2r.Prelude.{
  ℕ, zero, suc, ◌+◌, ◌<◌, ◌≤◌, ◌≡◌, refl, ◌∙◌, List, [], ◌∷◌, map, some, true, false, arith, ◌==◌,
  Bool-cases, inl, inr, any,
}
use r2r.Prelude.Counting.{count, count-append}
use r2r.Lifecycle.{
  Handle, Kind, subscription, service, client, action_client, action_server, publisher, timer,
  clock, node, Event, initialized, finalized, Env, NodeState, destroy_each, destroy_servers,
  drop_timers, create_action_server, add_action_server, create_entity, init_entity,
}
use r2r.Lifecycle.Dropping.{wait_until_unwrapped, drop_pub, drop_pubs, drop_node}
use r2r.Lifecycle.Dropping.Finalized.{
  among, made-destroy_each, gone-destroy_each, made-drop_timers, gone-drop_timers,
  made-destroy_servers, gone-destroy_servers,
}
use r2r.Lifecycle.Balance.{one, made, gone, held, same_kind}
use r2r.Prelude.Bytes.{Bytes}
use r2r.Errors.{is_ok}
use r2r.Lifecycle.Histories.{NodeReach, NodeReach-IsBalanced}

-- The same try, counted in another way.
same_try : (owners : ℕ → ℕ) (i j : ℕ) → i ≡ j → owners i ≡ 1 → owners j ≡ 1
same_try owners i j e h = rw e at h

-- The wait ends if at some try within the fuel there is one owner.
wait_until_unwrapped-ends :
    (fuel round later : ℕ) (owners : ℕ → ℕ)
    → owners (round + later) ≡ 1
    → later < fuel
    → (r : ℕ) × (wait_until_unwrapped fuel round owners ≡ some r)
unfolding wait_until_unwrapped
wait_until_unwrapped-ends zero round later owners e h = absurd (omega (arith, h))
wait_until_unwrapped-ends (suc fuel) round zero owners e h =
    let hit : (owners round == 1) ≡ true =
      ground (arith, same_try owners (round + zero) round (omega arith) e) in
    (round, rw hit refl)
wait_until_unwrapped-ends (suc fuel) round (suc later) owners e h =
    let f : owners (suc round + later) ≡ 1 =
      same_try owners (round + suc later) (suc round + later) (omega arith) e in
    elim (Bool-cases (owners round == 1)) [
      | inl hit ↦ (round, rw hit refl)
      | inr miss ↦
          let (r, g) =
            wait_until_unwrapped-ends fuel (suc round) later owners f (omega (arith, h)) in
          (r, rw miss g)
    ]

-- Other threads hold each publisher for less than `fuel` tries.
abbrev pub IsReleased : Env → (fuel : ℕ) → Type 0
IsReleased env fuel =
    (events : List Event) (h : Handle)
    → (later : ℕ) × ((later < fuel) × (env.owners events h later ≡ 1))

-- What a node owns of a kind, by its vectors.
held_sum :
    (n : NodeState) (j : Kind) (h : Handle)
    → count h (held j n)
      ≡ among j h subscription n.subscribers
        + (among j h service n.services
            + (among j h client n.clients
                + (among j h action_client n.action_clients
                    + ((among j h action_server (map (λ s. s.0) n.action_servers)
                          + among j h clock (map (λ s. s.1) n.action_servers))
                        + (among j h publisher n.pubs
                            + (one j h node n.node_handle
                                + (among j h timer (map (λ t. t.0) n.timers)
                                    + among j h clock (map (λ t. t.1) n.timers))))))))
unfolding one
held_sum n j h =
    grind (arith, count-append h (map (λ s. s.1) n.action_servers) (map (λ t. t.1) n.timers))

module _ (env : Env) (fuel : ℕ) (released : IsReleased env fuel) where
  drop_pub_lem :
      (x : Handle) (es : List Event) → drop_pub env fuel x es ≡ some (finalized publisher x ∷ es)
  unfolding drop_pub
  drop_pub_lem x es =
      let (later, (h, e)) = released es x in
      let (r, f) =
        wait_until_unwrapped-ends fuel 0 later (env.owners es x)
          (same_try (env.owners es x) later (zero + later) (omega arith) e) h in
      rw (f, drop_pub) refl

  drop_pubs_lem :
      (hs : List Handle) (es : List Event)
      → (es' : List Event) × ((drop_pubs env fuel hs es ≡ some es')
          × ((j : Kind) (h : Handle)
              → (made j h es' ≡ made j h es)
                × (gone j h es' ≡ gone j h es + among j h publisher hs)))
  unfolding drop_pubs one
  drop_pubs_lem [] es = (es, (refl, λ j h. (refl, ground arith)))
  drop_pubs_lem (x ∷ hs) es =
      let (rest, (e, f)) = drop_pubs_lem hs es in
      (
        finalized publisher x ∷ rest,
        (rw e (drop_pub_lem x rest), λ j h. ((f j h).0, ground (arith, (f j h).1))),
      )

  -- Dropping a node moves what its vectors hold to the finalized entities, but the clients.
  dropped :
      (n : NodeState)
      → (es : List Event) × ((drop_node env fuel n ≡ some es)
          × ((j : Kind) (h : Handle)
              → (made j h es ≡ made j h n.events)
                × (gone j h es + among j h client n.clients
                    ≡ count h (held j n) + gone j h n.events)))
  unfolding drop_node
  dropped n =
      let opened = destroy_each subscription n.subscribers n.events in
      let streams = destroy_each service n.services opened in
      let clients = destroy_each action_client n.action_clients streams in
      let (es, (e, f)) = drop_pubs_lem n.pubs (destroy_servers n.action_servers clients) in
      let ended = finalized node n.node_handle ∷ es in
      (
        drop_timers n.timers ended,
        (
          rw e refl,
          λ j h. (
            made-drop_timers j h n.timers ended
                ∙ ((f j h).0
                    ∙ (made-destroy_servers j h n.action_servers clients
                        ∙ (made-destroy_each j h action_client n.action_clients streams
                            ∙ (made-destroy_each j h service n.services opened
                                ∙ made-destroy_each j h subscription n.subscribers n.events)))),
            omega (
              arith,
              gone-drop_timers j h n.timers ended,
              (f j h).1,
              gone-destroy_servers j h n.action_servers clients,
              gone-destroy_each j h action_client n.action_clients streams,
              gone-destroy_each j h service n.services opened,
              gone-destroy_each j h subscription n.subscribers n.events,
              held_sum n j h,
            ),
          ),
        ),
      )

  -- If other threads let go of each publisher within `fuel` tries, dropping a node ends, after any
  -- history. Then every entity was initialized at most once, as often as before, and finalized at most
  -- as often. What the node owned of each kind, clocks included, is finalized once more than before,
  -- except for its service clients, which are not finalized; so every entity but a lost clock and
  -- these clients was finalized as often as initialized.
  pub drop_node_lem :
      {P : Type 0} {n : NodeState}
      → NodeReach env P n
      → (es : List Event) × ((drop_node env fuel n ≡ some es)
          × ((j : Kind) (h : Handle)
              → let left = among j h client n.clients in
                ((made j h es ≡ made j h n.events) × (made j h es ≤ 1))
                × (gone j h es + left ≡ count h (held j n) + gone j h n.events)
                × ((gone j h es + left ≤ made j h es)
                    × (same_kind j clock ≡ false → gone j h es + left ≡ made j h es))))
  drop_node_lem {n = n} r =
      let (es, (e, f)) = dropped n in
      (
        es,
        (
          e,
          λ j h.
              let (fresh, (same, below)) = NodeReach-IsBalanced r j h in
              let (m, g) = f j h in
              (
                (m, ground (arith, m, fresh)),
                g,
                (omega (arith, m, g, below), λ c. omega (arith, m, g, same c)),
              ),
        ),
      )

module _ {env : Env} {P : Type 0} where
  -- After any history, an action server whose name has no NUL, and that rcl refuses although its clock
  -- was made, leaves that clock initialized, owned by nobody and not finalized; the node's action
  -- servers are as before.
  pub refused_server_lem :
      {n : NodeState} (name : Bytes)
      → let x = n.next_handle in
        let n' = (create_action_server env name n).1 in
        NodeReach env P n
        → any (λ c. c == 0) name ≡ false
        → is_ok (env.ret n.events clock) ≡ true
        → is_ok (env.ret (initialized clock x ∷ n.events) action_server) ≡ false
        → (made clock x n'.events ≡ 1)
          × ((count x (held clock n') + gone clock x n'.events ≡ 0)
              × (n'.action_servers ≡ n.action_servers))
  unfolding create_action_server add_action_server create_entity init_entity one
  refused_server_lem {n} name r clean made_clock refused_server =
      let (fresh, (same, below)) = NodeReach-IsBalanced r clock n.next_handle in
      rw (made_clock, clean, refused_server)
        (ground (arith, fresh), (ground (arith, fresh, below), refl))
