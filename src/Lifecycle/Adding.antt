-- ===== src/Lifecycle/Adding.antt =====
-- What the calls of src/nodes.rs that create an entity add to the vectors of the node.
use r2r.Prelude.{◌+◌, ◌≡◌, refl, ap, List, [], ◌∷◌, ◌++◌, map, arith}
use r2r.Prelude.Counting.{count, count-append}
use r2r.Lifecycle.{
  Handle, Kind, subscription, service, client, action_client, action_server, publisher, timer,
  clock, NodeState, push_subscriber, push_service, push_client, push_action_client, push_publisher,
}
use r2r.Lifecycle.Balance.{allowed, one, made, gone, held, pending, BalancedWith}

-- Adding to the vectors what was on its way.
unfoldable pub Adds : List (Kind × Handle) → NodeState → NodeState → Type 0
Adds ps n n' =
    (n'.next_handle ≡ n.next_handle)
    × ((n'.events ≡ n.events)
        × ((j : Kind) (h : Handle) → count h (held j n') ≡ count h (held j n) + pending j h ps))

pub added-BalancedWith :
    (ps : List (Kind × Handle)) (n n' : NodeState)
    → Adds ps n n'
    → BalancedWith ps n
    → BalancedWith [] n'
unfolding Adds
added-BalancedWith ps n n' (e, (f, c)) b j h =
    let (fresh, (same, below)) = b j h in
    let m : made j h n'.events ≡ made j h n.events = ap (made j h) f in
    let g : gone j h n'.events ≡ gone j h n.events = ap (gone j h) f in
    let bound = ap (allowed h) e in
    (
      omega (arith, fresh, m, bound),
      ((λ d. omega (arith, same d, c j h, m, g)), omega (arith, below, c j h, m, g)),
    )

pub push_subscriber-Adds :
    (x : Handle) (n : NodeState) → Adds ((subscription, x) ∷ []) n (push_subscriber x n)
unfolding Adds one
push_subscriber-Adds x n =
    (refl, (refl, λ j h. grind (arith, count-append h n.subscribers (x ∷ []))))

pub push_service-Adds : (x : Handle) (n : NodeState) → Adds ((service, x) ∷ []) n (push_service x n)
unfolding Adds one
push_service-Adds x n = (refl, (refl, λ j h. grind (arith, count-append h n.services (x ∷ []))))

pub push_client-Adds : (x : Handle) (n : NodeState) → Adds ((client, x) ∷ []) n (push_client x n)
unfolding Adds one
push_client-Adds x n = (refl, (refl, λ j h. grind (arith, count-append h n.clients (x ∷ []))))

pub push_action_client-Adds :
    (x : Handle) (n : NodeState) → Adds ((action_client, x) ∷ []) n (push_action_client x n)
unfolding Adds one
push_action_client-Adds x n =
    (refl, (refl, λ j h. grind (arith, count-append h n.action_clients (x ∷ []))))

pub push_publisher-Adds :
    (x : Handle) (n : NodeState) → Adds ((publisher, x) ∷ []) n (push_publisher x n)
unfolding Adds one
push_publisher-Adds x n = (refl, (refl, λ j h. grind (arith, count-append h n.pubs (x ∷ []))))

pub firsts-append :
    (h : Handle) (ps : List (Handle × Handle)) (x y : Handle)
    → count h (map (λ p. p.0) (ps ++ (x, y) ∷ [])) ≡ count h (map (λ p. p.0) ps) + count h (x ∷ [])
firsts-append h [] x y = omega arith
firsts-append h (p ∷ ps) x y = omega (arith, firsts-append h ps x y)

pub seconds-append :
    (h : Handle) (ps : List (Handle × Handle)) (x y : Handle)
    → count h (map (λ p. p.1) (ps ++ (x, y) ∷ [])) ≡ count h (map (λ p. p.1) ps) + count h (y ∷ [])
seconds-append h [] x y = omega arith
seconds-append h (p ∷ ps) x y = omega (arith, seconds-append h ps x y)

abbrev pub push_server : Handle → Handle → NodeState → NodeState
push_server c x n = record n { action_servers = n.action_servers ++ (x, c) ∷ [] }

abbrev pub push_timer : Handle → Handle → NodeState → NodeState
push_timer c x n = record n { timers = n.timers ++ (x, c) ∷ [] }

pub clocks-append :
    (h : Handle) (ss ts : List (Handle × Handle))
    → count h (map (λ s. s.1) ss ++ map (λ t. t.1) ts)
      ≡ count h (map (λ s. s.1) ss) + count h (map (λ t. t.1) ts)
clocks-append h ss ts = count-append h (map (λ s. s.1) ss) (map (λ t. t.1) ts)

pub push_server-Adds :
    (c x : Handle) (n : NodeState)
    → Adds ((action_server, x) ∷ (clock, c) ∷ []) n (push_server c x n)
unfolding Adds one
push_server-Adds c x n = (
  refl,
  (
    refl,
    λ j h. grind (
      arith,
      firsts-append h n.action_servers x c,
      seconds-append h n.action_servers x c,
      clocks-append h n.action_servers n.timers,
      clocks-append h (n.action_servers ++ (x, c) ∷ []) n.timers,
    ),
  ),
)

pub push_timer-Adds :
    (c x : Handle) (n : NodeState) → Adds ((timer, x) ∷ (clock, c) ∷ []) n (push_timer c x n)
unfolding Adds one
push_timer-Adds c x n = (
  refl,
  (
    refl,
    λ j h. grind (
      arith,
      firsts-append h n.timers x c,
      seconds-append h n.timers x c,
      clocks-append h n.action_servers n.timers,
      clocks-append h n.action_servers (n.timers ++ (x, c) ∷ []),
    ),
  ),
)
