-- ===== src/Lifecycle/Removing.antt =====
-- The streams that src/nodes.rs removes: what the vectors lose is finalized.
use r2r.Prelude.{◌+◌, ◌≡◌, ap, [], map, Bool, arith, retain}
use r2r.Prelude.Counting.{count, count-append}
use r2r.Lifecycle.{Handle, Kind, subscription, service, clock, NodeState}
use r2r.Lifecycle.Dropping.{remove_subscribers, remove_services, remove_timers}
use r2r.Lifecycle.Dropping.Finalized.{
  gone-destroy_each, gone-drop_timers, retain-partition, retain_split,
}
use r2r.Lifecycle.Balance.{allowed, made, gone, held, BalancedWith}

clocks_of :
    (h : Handle) (n : NodeState)
    → count h (held clock n)
      ≡ count h (map (λ s. s.1) n.action_servers) + count h (map (λ t. t.1) n.timers)
clocks_of h n = count-append h (map (λ s. s.1) n.action_servers) (map (λ t. t.1) n.timers)

-- What removing streams does to the entities: what the vectors lose is finalized.
pub remove_subscribers-moved :
    (dropped : Handle → Bool) (n : NodeState) (j : Kind) (h : Handle)
    → let n' = remove_subscribers dropped n in
      count h (held j n') + gone j h n'.events ≡ count h (held j n) + gone j h n.events
unfolding remove_subscribers
remove_subscribers-moved dropped n j h = grind (
  arith,
  retain_split h dropped n.subscribers,
  gone-destroy_each j h subscription (retain dropped n.subscribers) n.events,
)

pub remove_services-moved :
    (dropped : Handle → Bool) (n : NodeState) (j : Kind) (h : Handle)
    → let n' = remove_services dropped n in
      count h (held j n') + gone j h n'.events ≡ count h (held j n) + gone j h n.events
unfolding remove_services
remove_services-moved dropped n j h = grind (
  arith,
  retain_split h dropped n.services,
  gone-destroy_each j h service (retain dropped n.services) n.events,
)

pub remove_timers-moved :
    (dropped : Handle → Bool) (n : NodeState) (j : Kind) (h : Handle)
    → let n' = remove_timers dropped n in
      count h (held j n') + gone j h n'.events ≡ count h (held j n) + gone j h n.events
unfolding remove_timers
remove_timers-moved dropped n j h =
    let left = retain (λ t. dropped t.0) n.timers in
    grind (
      arith,
      clocks_of h n,
      clocks_of h (remove_timers dropped n),
      retain-partition h (λ t. t.0) (λ t. dropped t.0) n.timers,
      retain-partition h (λ t. t.1) (λ t. dropped t.0) n.timers,
      gone-drop_timers j h left n.events,
    )

-- The entities that moved from the vectors to the finalized ones.
pub moved-IsBalanced :
    (n n' : NodeState)
    → n'.next_handle ≡ n.next_handle
    → ((j : Kind) (h : Handle) → made j h n'.events ≡ made j h n.events)
    → ((j : Kind) (h : Handle)
        → count h (held j n') + gone j h n'.events ≡ count h (held j n) + gone j h n.events)
    → BalancedWith [] n
    → BalancedWith [] n'
moved-IsBalanced n n' e m g b j h =
    let (fresh, (same, below)) = b j h in
    (
      omega (arith, fresh, m j h, ap (allowed h) e),
      ((λ d. omega (arith, same d, m j h, g j h)), omega (arith, below, m j h, g j h)),
    )
