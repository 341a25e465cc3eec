-- ===== src/Node.antt =====
-- src/nodes.rs: what a node owns, and `Node::spin_once`. The node knows its parts by the traits
-- `Subscriber_`, `Service_`, `Client_`, `ActionClient_` and `ActionServer_` only, which are records
-- of operations here; `Waits` and `Woken` are what rcl answers.
pub mod Streams
pub mod Spin
pub mod Names
use r2r.Prelude.{ℕ, List, Bool}
use r2r.Errors.{Ret, Result}

-- What the node asks of a subscriber, of a service, and, with the `destroy` that does nothing,
-- since a timer is finalized when it is dropped, of a timer. A handle is the pointer that the
-- struct of rcl holds. `handle_incoming` says whether the stream was dropped.
pub record Stream (S : Type 0) : Type 0 where
  pub handle : S → ℕ
  pub handle_incoming : S → Bool × S
  pub destroy : S → S

-- How many entities of each kind an action client or server adds to a wait set.
pub record Waits : Type 0 where
  pub subs : ℕ
  pub gc : ℕ
  pub timers : ℕ
  pub clients : ℕ
  pub services : ℕ

pub record Client_ (C : Type 0) : Type 0 where
  pub poll_available : C → C
  pub handle_response : C → Result C

pub record ActionClient_ (A : Type 0) : Type 0 where
  pub poll_available : A → A
  pub get_num_waits : A → Result Waits
  pub handle_feedback_msg : A → Result A
  pub handle_status_msg : A → Result A
  pub handle_goal_response : A → Result A
  pub handle_cancel_response : A → Result A
  pub handle_result_response : A → Result A

pub record ActionServer_ (B : Type 0) : Type 0 where
  pub send_completed_cancel_requests : B → B
  pub get_num_waits : B → Result Waits
  pub handle_goal_request : B → Result B
  pub handle_cancel_request : B → B
  pub handle_result_request : B → B
  pub handle_goal_expired : B → Result B

-- What `rcl_action_client_wait_set_get_entities_ready` answers for an action client.
pub record ClientReady : Type 0 where
  pub ret : Ret
  pub feedback : Bool
  pub status : Bool
  pub goal_response : Bool
  pub cancel_response : Bool
  pub result_response : Bool

pub record ServerReady : Type 0 where
  pub ret : Ret
  pub goal_request : Bool
  pub cancel_request : Bool
  pub result_request : Bool
  pub goal_expired : Bool

-- What the node finds in the wait set after `rcl_wait`: an entity is ready if its pointer is not
-- null.
pub record Woken : Type 0 where
  pub ret : Ret
  pub subscriptions : List Bool
  pub timers : List Bool
  pub clients : List Bool
  pub services : List Bool
  pub action_clients : List ClientReady
  pub action_servers : List ServerReady

module _ (S T C V A B : Type 0) where
  pub record Traits : Type 0 where
    pub subscriber : Stream S
    pub timer : Stream T
    pub client : Client_ C
    pub service : Stream V
    pub action_client : ActionClient_ A
    pub action_server : ActionServer_ B
    -- `rcl_wait` on a wait set of that size, with the 64 bits of the timeout in nanoseconds, after
    -- the waits before it, newest first; that every part of the node is in the wait set, in order, is
    -- what makes the answer speak of them
    pub wait : List Waits → Waits → ℕ → Woken

  -- `waits` stands for the world: the sizes of the wait sets that were waited on.
  pub record Node : Type 0 where
    pub subscribers : List S
    pub timers : List T
    pub clients : List C
    pub services : List V
    pub action_clients : List A
    pub action_servers : List B
    pub waits : List Waits
