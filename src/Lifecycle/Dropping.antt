-- ===== src/Lifecycle/Dropping.antt =====
-- The start and the end of a node of src/nodes.rs: `Node::create`, streams that are removed, `Drop for Node`, and how it waits for
-- the publishers that other threads hold. It is on fuel, since it waits as long as they do.
pub mod Finalized
use r2r.Prelude.{
  ℕ, zero, suc, List, [], ◌∷◌, Option, none, some, Bool, true, false, if◌then◌else◌, ◌==◌, not,
  ◌||◌, any, retain,
}
use r2r.Prelude.Bytes.{Bytes}
use r2r.Errors.{rcl, Result, ok, err, panic, is_ok}
use r2r.Lifecycle.{
  Handle, Kind, subscription, service, client, action_client, action_server, publisher, timer,
  clock, node, Event, initialized, refused, finalized, Env, NodeState, destroy_each,
  destroy_servers, drop_timers,
}

-- The streams of `spin_once` whose receiver is gone are destroyed, and left out. Which they are is
-- the theorem on `serve` in the model of `spin_once`.
unfoldable pub remove_subscribers : (Handle → Bool) → NodeState → NodeState
unfolding retain destroy_each
remove_subscribers dropped n = record n {
  subscribers = retain (λ h. not (dropped h)) n.subscribers;
  events = destroy_each subscription (retain dropped n.subscribers) n.events;
}

unfoldable pub remove_services : (Handle → Bool) → NodeState → NodeState
unfolding retain destroy_each
remove_services dropped n = record n {
  services = retain (λ h. not (dropped h)) n.services;
  events = destroy_each service (retain dropped n.services) n.events;
}

-- A timer that is left out of the vector is dropped.
unfoldable pub remove_timers : (Handle → Bool) → NodeState → NodeState
unfolding retain drop_timers
remove_timers dropped n = record n {
  timers = retain (λ t. not (dropped t.0)) n.timers;
  events = drop_timers (retain (λ t. dropped t.0) n.timers) n.events;
}

-- `wait_until_unwrapped`: the tries from `round` on, at most `fuel` of them. `owners` counts the
-- owners at each, of which this function is one.
unfoldable pub wait_until_unwrapped : (fuel round : ℕ) → (owners : ℕ → ℕ) → Option ℕ
wait_until_unwrapped zero round owners = none
wait_until_unwrapped (suc fuel) round owners =
    let rest = wait_until_unwrapped fuel (suc round) owners in
    if owners round == 1 then some round else rest

module _ (env : Env) (fuel : ℕ) where
  -- A publisher that was popped: it is finalized once it is unwrapped.
  unfoldable pub drop_pub : Handle → List Event → Option (List Event)
  unfolding wait_until_unwrapped
  drop_pub h events = elim (wait_until_unwrapped fuel 0 (env.owners events h)) [
    | none ↦ none
    | some round ↦ some (finalized publisher h ∷ events)
  ]

  abbrev pub and_then :
      Option (List Event) → (List Event → Option (List Event)) → Option (List Event)
  and_then none f = none
  and_then (some events) f = f events

  -- `while let Some(p) = self.pubs.pop()`: the last one first.
  unfoldable pub drop_pubs : List Handle → List Event → Option (List Event)
  unfolding drop_pub
  drop_pubs [] events = some events
  drop_pubs (h ∷ hs) events = and_then (drop_pubs hs events) (drop_pub h)

  -- `Drop for Node`, and then the drop of the node's timers. The other vectors hold nothing that
  -- finalizes itself.
  unfoldable pub drop_node : NodeState → Option (List Event)
  unfolding destroy_each destroy_servers drop_pubs drop_timers
  drop_node n =
      let streams =
        destroy_each service n.services (destroy_each subscription n.subscribers n.events) in
      let actions =
        destroy_servers n.action_servers (destroy_each action_client n.action_clients streams) in
      and_then (drop_pubs n.pubs actions)
        (λ events. some (drop_timers n.timers (finalized node n.node_handle ∷ events)))

-- A node with nothing but its handle, as `Node::create` makes it.
abbrev pub fresh_node : Handle → List Event → NodeState
fresh_node h events = record {
  node_handle = h;
  subscribers = [];
  services = [];
  clients = [];
  action_clients = [];
  action_servers = [];
  timers = [];
  pubs = [];
  next_handle = suc h;
  events = events;
}

module _ (env : Env) (fuel : ℕ) where
  -- The end of `Node::create`: the node is dropped if its parameters cannot be loaded. `loaded` is
  -- what `load_params` returns.
  unfoldable pub with_params :
      {P : Type 0} → Result P → NodeState → Option (Result (NodeState × P) × List Event)
  unfolding drop_node
  with_params (ok params) n = some (ok (n, params), n.events)
  with_params (err e) n = elim (drop_node env fuel n) [
    | none ↦ none
    | some events ↦ some (err e, events)
  ]
  with_params panic n = elim (drop_node env fuel n) [
    | none ↦ none
    | some events ↦ some (panic, events)
  ]

  -- `Node::create`, in a world where rcl did `events`. A name with a NUL is a panic.
  unfoldable pub create :
      {P : Type 0}
      → (name namespace : Bytes) → (loaded : Result P) → (next : Handle) → List Event
      → Option (Result (NodeState × P) × List Event)
  unfolding with_params any
  create name namespace loaded next events =
      if any (λ c. c == 0) name || any (λ c. c == 0) namespace
      then some (panic, events)
      else (let res = env.ret events node in
          if is_ok res
          then with_params loaded (fresh_node next (initialized node next ∷ events))
          else some (err (rcl res), refused node ∷ events))
