-- ===== src/Lifecycle.antt =====
-- src/nodes.rs: what a node creates in rcl, owns and finalizes, with the helpers of the other files
-- that create the entities, `Drop for Node`, and the publishers of src/publishers.rs.
-- A handle is the identity of an initialized struct of rcl; `events` are what rcl was asked to
-- initialize and to finalize, newest first.
pub mod Balance
pub mod Adding
pub mod Creating
pub mod Removing
pub mod Histories
pub mod Dropping
pub mod Ending
use r2r.Prelude.{
  ℕ, zero, suc, List, [], ◌∷◌, ◌++◌, map, Option, none, some, Bool, true, false, if◌then◌else◌,
  ◌==◌, any, retain,
}
use r2r.Prelude.Bytes.{Bytes}
use r2r.Errors.{
  Ret, rcl_ret_invalid_argument, rcl_ret_node_invalid, rcl, Result, ok, err, panic, is_ok, ◌>>=◌,
}

abbrev pub Handle : Type 0
Handle = ℕ

pub data Kind : Type 0 where
  subscription service client action_client action_server publisher timer clock node : Kind

pub data Event : Type 0 where
  initialized : Kind → Handle → Event
  refused : Kind → Event
  finalized : Kind → Handle → Event

pub record Env : Type 0 where
  -- what the `_init` function of a kind returns
  pub ret : List Event → Kind → Ret
  -- `new_from` of the untyped messages, services and actions: whether the type is known
  pub type_support : Bytes → Result (Unit {0})
  -- the number of owners of a publisher at a try to unwrap it
  pub owners : List Event → Handle → ℕ → ℕ

-- `Node`, by the handles of what it owns. A timer and an action server own a clock. `next_handle`
-- and `events` stand for the world.
pub record NodeState : Type 0 where
  pub node_handle : Handle
  pub subscribers : List Handle
  pub services : List Handle
  pub clients : List Handle
  pub action_clients : List Handle
  pub action_servers : List (Handle × Handle)
  pub timers : List (Handle × Handle)
  pub pubs : List Handle
  pub next_handle : Handle
  pub events : List Event

abbrev pub push_subscriber : Handle → NodeState → NodeState
push_subscriber h n = record n { subscribers = n.subscribers ++ h ∷ [] }

abbrev pub push_service : Handle → NodeState → NodeState
push_service h n = record n { services = n.services ++ h ∷ [] }

abbrev pub push_client : Handle → NodeState → NodeState
push_client h n = record n { clients = n.clients ++ h ∷ [] }

abbrev pub push_action_client : Handle → NodeState → NodeState
push_action_client h n = record n { action_clients = n.action_clients ++ h ∷ [] }

abbrev pub push_publisher : Handle → NodeState → NodeState
push_publisher h n = record n { pubs = n.pubs ++ h ∷ [] }

-- What is done with the handle that a helper returns, behind a `?`.
abbrev pub keep :
    (Handle → NodeState → NodeState) → Result Handle × NodeState → Result Handle × NodeState
keep f (ok h, n) = (ok h, f h n)
keep f (err e, n) = (err e, n)
keep f (panic, n) = (panic, n)

-- A call behind the lookup of a type.
abbrev pub supported :
    Result (Unit {0}) → Result Handle × NodeState → NodeState → Result Handle × NodeState
supported (ok tt) next n = next
supported (err e) next n = (err e, n)
supported panic next n = (panic, n)

module _ (env : Env) where
  -- A call of an `_init` function.
  unfoldable pub init_entity : Kind → NodeState → Result Handle × NodeState
  init_entity k n =
      let result = env.ret n.events k in
      if is_ok result
      then (
        ok n.next_handle,
        record n {
          next_handle = suc n.next_handle;
          events = initialized k n.next_handle ∷ n.events;
        },
      )
      else (err (rcl result), record n { events = refused k ∷ n.events })

  -- The helpers that create an entity: a name with a NUL is no C string.
  unfoldable pub create_entity : Kind → (name : Bytes) → NodeState → Result Handle × NodeState
  unfolding init_entity any
  create_entity k name n =
      if any (λ c. c == 0) name then (err (rcl rcl_ret_invalid_argument), n) else init_entity k n

  abbrev pub create_subscription_helper : Bytes → NodeState → Result Handle × NodeState
  create_subscription_helper topic n = create_entity subscription topic n

  abbrev pub create_service_helper : Bytes → NodeState → Result Handle × NodeState
  create_service_helper service_name n = create_entity service service_name n

  abbrev pub create_client_helper : Bytes → NodeState → Result Handle × NodeState
  create_client_helper service_name n = create_entity client service_name n

  abbrev pub create_action_client_helper : Bytes → NodeState → Result Handle × NodeState
  create_action_client_helper action_name n = create_entity action_client action_name n

  abbrev pub create_action_server_helper : Bytes → NodeState → Result Handle × NodeState
  create_action_server_helper action_name n = create_entity action_server action_name n

  abbrev pub create_publisher_helper : Bytes → NodeState → Result Handle × NodeState
  create_publisher_helper topic n = create_entity publisher topic n

  -- `Node::subscribe`, and `Node::subscribe_native`, which differs in the messages of the stream.
  unfoldable pub subscribe : Bytes → NodeState → Result Handle × NodeState
  unfolding create_entity
  subscribe topic n = keep push_subscriber (create_subscription_helper topic n)

  unfoldable pub subscribe_untyped :
      (topic topic_type : Bytes) → NodeState → Result Handle × NodeState
  unfolding subscribe
  subscribe_untyped topic topic_type n =
      supported (env.type_support topic_type) (subscribe topic n) n

  unfoldable pub create_service : Bytes → NodeState → Result Handle × NodeState
  unfolding create_entity
  create_service service_name n = keep push_service (create_service_helper service_name n)

  unfoldable pub create_client : Bytes → NodeState → Result Handle × NodeState
  unfolding create_entity
  create_client service_name n = keep push_client (create_client_helper service_name n)

  unfoldable pub create_client_untyped :
      (service_name service_type : Bytes) → NodeState → Result Handle × NodeState
  unfolding create_client
  create_client_untyped service_name service_type n =
      supported (env.type_support service_type) (create_client service_name n) n

  unfoldable pub create_action_client : Bytes → NodeState → Result Handle × NodeState
  unfolding create_entity
  create_action_client action_name n =
      keep push_action_client (create_action_client_helper action_name n)

  unfoldable pub create_action_client_untyped :
      (action_name action_type : Bytes) → NodeState → Result Handle × NodeState
  unfolding create_action_client
  create_action_client_untyped action_name action_type n =
      supported (env.type_support action_type) (create_action_client action_name n) n

  -- What follows the creation of the clock of an action server.
  unfoldable pub add_action_server : Bytes → Result Handle × NodeState → Result Handle × NodeState
  unfolding create_entity
  add_action_server action_name (ok clock_handle, n) =
      keep (λ h m. record m { action_servers = m.action_servers ++ (h, clock_handle) ∷ [] })
        (create_action_server_helper action_name n)
  add_action_server action_name (err e, n) = (err e, n)
  add_action_server action_name (panic, n) = (panic, n)

  unfoldable pub create_action_server : Bytes → NodeState → Result Handle × NodeState
  unfolding add_action_server init_entity
  create_action_server action_name n = add_action_server action_name (init_entity clock n)

  unfoldable pub create_publisher : Bytes → NodeState → Result Handle × NodeState
  unfolding create_entity
  create_publisher topic n = keep push_publisher (create_publisher_helper topic n)

  unfoldable pub create_publisher_untyped :
      (topic topic_type : Bytes) → NodeState → Result Handle × NodeState
  unfolding create_publisher
  create_publisher_untyped topic topic_type n =
      supported (env.type_support topic_type) (create_publisher topic n) n

  -- The timer is kept with its clock; a clock whose timer was refused is dropped.
  unfoldable pub timer_made :
      (clock_handle : Handle) → Result Handle × NodeState → Result Handle × NodeState
  timer_made c (ok h, n) = (ok h, record n { timers = n.timers ++ (h, c) ∷ [] })
  timer_made c (err e, n) = (err e, record n { events = finalized clock c ∷ n.events })
  timer_made c (panic, n) = (panic, record n { events = finalized clock c ∷ n.events })

  unfoldable pub add_timer : Result Handle × NodeState → Result Handle × NodeState
  unfolding timer_made init_entity
  add_timer (ok clock_handle, n) = timer_made clock_handle (init_entity timer n)
  add_timer (err e, n) = (err e, n)
  add_timer (panic, n) = (panic, n)

  -- `Node::create_wall_timer`.
  unfoldable pub create_wall_timer : NodeState → Result Handle × NodeState
  unfolding add_timer init_entity
  create_wall_timer n = add_timer (init_entity clock n)

-- The `destroy` of each of a vector's entities.
unfoldable pub destroy_each : Kind → List Handle → List Event → List Event
destroy_each k [] events = events
destroy_each k (h ∷ hs) events = destroy_each k hs (finalized k h ∷ events)

-- The `destroy` of action servers: the server, then its clock.
unfoldable pub destroy_servers : List (Handle × Handle) → List Event → List Event
destroy_servers [] events = events
destroy_servers ((h, c) ∷ hs) events =
    destroy_servers hs (finalized clock c ∷ finalized action_server h ∷ events)

-- `Drop for Timer_`, and then the drop of its clock.
unfoldable pub drop_timers : List (Handle × Handle) → List Event → List Event
drop_timers [] events = events
drop_timers ((h, c) ∷ hs) events = drop_timers hs (finalized clock c ∷ finalized timer h ∷ events)
