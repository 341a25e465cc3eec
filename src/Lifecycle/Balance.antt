-- ===== src/Lifecycle/Balance.antt =====
-- What a node of src/nodes.rs initialized, owns and finalized, over a whole history.
use r2r.Prelude.{
  ℕ, suc, ◌+◌, ◌≤◌, ◌≡◌, refl, List, [], ◌∷◌, ◌++◌, map, Bool, true, false, if◌then◌else◌, ◌==◌,
  ltb, arith, Bool-cases, inl, inr, any, ◌&&◌,
}
use r2r.Prelude.Counting.{count}
use r2r.Prelude.Bytes.{Bytes}
use r2r.Errors.{Result, ok, err, panic, is_ok}
use r2r.Lifecycle.{
  Handle, Kind, subscription, service, client, action_client, action_server, publisher, timer,
  clock, node, Event, initialized, refused, finalized, Env, NodeState, init_entity, create_entity,
}

abbrev pub same_kind : Kind → Kind → Bool
same_kind subscription subscription = true
same_kind service service = true
same_kind client client = true
same_kind action_client action_client = true
same_kind action_server action_server = true
same_kind publisher publisher = true
same_kind timer timer = true
same_kind clock clock = true
same_kind node node = true
same_kind _ _ = false

-- 1 for the entity that is meant, 0 for others.
unfoldable pub one : Kind → Handle → Kind → Handle → ℕ
one k h j x = if same_kind k j && (x == h) then 1 else 0

-- How often an entity was initialized, and finalized.
abbrev pub made : Kind → Handle → List Event → ℕ
made k h [] = 0
made k h (initialized j x ∷ es) = made k h es + one k h j x
made k h (refused j ∷ es) = made k h es
made k h (finalized j x ∷ es) = made k h es

abbrev pub gone : Kind → Handle → List Event → ℕ
gone k h [] = 0
gone k h (initialized j x ∷ es) = gone k h es
gone k h (refused j ∷ es) = gone k h es
gone k h (finalized j x ∷ es) = gone k h es + one k h j x

-- The handles of a kind that the node owns.
abbrev pub held : Kind → NodeState → List Handle
held subscription n = n.subscribers
held service n = n.services
held client n = n.clients
held action_client n = n.action_clients
held action_server n = map (λ s. s.0) n.action_servers
held publisher n = n.pubs
held timer n = map (λ t. t.0) n.timers
held clock n = map (λ s. s.1) n.action_servers ++ map (λ t. t.1) n.timers
held node n = n.node_handle ∷ []

-- How often a handle may have been initialized before the next one is.
abbrev pub allowed : Handle → (next : Handle) → ℕ
allowed h next = if ltb h next then 1 else 0

-- Entities on their way to a vector.
abbrev pub pending : Kind → Handle → List (Kind × Handle) → ℕ
pending k h [] = 0
pending k h ((j, x) ∷ ps) = pending k h ps + one k h j x

-- No handle is initialized twice, and each one that was is owned, or on its way, or was finalized,
-- once; only a clock may be none of these.
abbrev pub BalancedWith : List (Kind × Handle) → NodeState → Type 0
BalancedWith ps n =
    (k : Kind) (h : Handle)
    → let there = count h (held k n) + pending k h ps + gone k h n.events in
      (made k h n.events ≤ allowed h n.next_handle)
      × ((same_kind k clock ≡ false → made k h n.events ≡ there) × (there ≤ made k h n.events))

abbrev pub IsBalanced : NodeState → Type 0
IsBalanced n =
    (k : Kind) (h : Handle)
    → let there = count h (held k n) + gone k h n.events in
      (made k h n.events ≤ allowed h n.next_handle)
      × ((same_kind k clock ≡ false → made k h n.events ≡ there) × (there ≤ made k h n.events))

pub none_pending : (n : NodeState) → BalancedWith [] n → IsBalanced n
none_pending n b k h =
    ((b k h).0, ((λ c. omega (arith, (b k h).1.0 c)), omega (arith, (b k h).1.1)))

-- What a call that creates an entity leaves: its handle is on its way if it succeeds.
abbrev pub Made : Kind → List (Kind × Handle) → Result Handle × NodeState → Type 0
Made k ps (ok h, n) = BalancedWith ((k, h) ∷ ps) n
Made k ps (err e, n) = BalancedWith ps n
Made k ps (panic, n) = BalancedWith ps n

pub held_same :
    (k : Kind) (n : NodeState) (next : Handle) (es : List Event)
    → held k (record n { next_handle = next; events = es }) ≡ held k n
held_same subscription n next es = refl
held_same service n next es = refl
held_same client n next es = refl
held_same action_client n next es = refl
held_same action_server n next es = refl
held_same publisher n next es = refl
held_same timer n next es = refl
held_same clock n next es = refl
held_same node n next es = refl

one-fresh :
    (k j : Kind) (h next m : ℕ)
    → m ≤ (if ltb h next then 1 else 0)
    → m + one k h j next ≤ (if ltb h (suc next) then 1 else 0)
unfolding one
one-fresh k j h next m fresh = ground (arith, fresh)

initialized-BalancedWith :
    (k : Kind) (ps : List (Kind × Handle)) (n : NodeState)
    → BalancedWith ps n
    → BalancedWith ((k, n.next_handle) ∷ ps) (record n {
      next_handle = suc n.next_handle;
      events = initialized k n.next_handle ∷ n.events;
    })
initialized-BalancedWith k ps n b j h =
    let e = held_same j n (suc n.next_handle) (initialized k n.next_handle ∷ n.events) in
    let (fresh, (same, below)) = b j h in
    rw e (
      one-fresh j k h n.next_handle (made j h n.events) fresh,
      ((λ c. omega (arith, same c)), omega (arith, below)),
    )

-- A finalized entity that was on its way.
pub finalized-BalancedWith :
    (k : Kind) (x : Handle) (ps : List (Kind × Handle)) (n : NodeState)
    → BalancedWith ((k, x) ∷ ps) n
    → BalancedWith ps (record n { events = finalized k x ∷ n.events })
finalized-BalancedWith k x ps n b j h =
    let e = held_same j n n.next_handle (finalized k x ∷ n.events) in
    let (fresh, (same, below)) = b j h in
    rw e (fresh, ((λ c. omega (arith, same c)), omega (arith, below)))

module _ (env : Env) where
  pub init_entity-Made :
      (k : Kind) (ps : List (Kind × Handle)) (n : NodeState)
      → BalancedWith ps n
      → Made k ps (init_entity env k n)
  unfolding init_entity
  init_entity-Made k ps n b = elim (Bool-cases (is_ok (env.ret n.events k))) [
    | inl e ↦ rw e (initialized-BalancedWith k ps n b)
    | inr e ↦ rw e (λ j h. rw (held_same j n n.next_handle (refused k ∷ n.events)) (b j h))
  ]

  pub create_entity-Made :
      (k : Kind) (name : Bytes) (ps : List (Kind × Handle)) (n : NodeState)
      → BalancedWith ps n
      → Made k ps (create_entity env k name n)
  unfolding create_entity any
  create_entity-Made k name ps n b = elim (Bool-cases (any (λ c. c == 0) name)) [
    | inl e ↦ rw e b
    | inr e ↦ rw e (init_entity-Made k ps n b)
  ]
