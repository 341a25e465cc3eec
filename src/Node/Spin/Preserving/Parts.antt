-- ===== src/Node/Spin/Preserving/Parts.antt =====
-- The parts that src/nodes.rs puts in a node, as implementations of the traits: `TypedClient` of
-- src/clients.rs, `WrappedActionClient` of src/action_clients.rs and `WrappedActionServer` of
-- src/action_servers.rs. How many entities they add to a wait set is a call of rcl_action.
use mathlib.Core.Path.{subst}
use r2r.Prelude.{ℕ, ◌≡◌, sym, none, some, arith, All, All-mono}
use r2r.Errors.{Result, ok, panic, ok-injective}
use r2r.Node.{Waits, Client_, ActionClient_, ActionServer_, Traits, Node}
use r2r.Node.Spin.{spin_once}
use r2r.Node.Spin.Preserving.{
  ClientKeeps, ActionClientKeeps, ActionServerKeeps, Holds, spin_once-Holds,
}
use r2r.Clients
use r2r.Clients.Delivery as ClientDelivery
use r2r.ActionClient
use r2r.ActionClient.Requests
use r2r.ActionClient.Responses
use r2r.ActionClient.Responses.Delivery as ActionDelivery
use r2r.ActionServer
use r2r.ActionServer.Goals.{handle_goal_request}
use r2r.ActionServer.Cancels.{handle_cancel_request, send_completed_cancel_requests}
use r2r.ActionServer.Results.{handle_result_request, handle_goal_expired}
use r2r.ActionServer.Results.Served.{IsServed, Reach-IsServed}
use r2r.ActionServer.Results.Waiting.{handle_goal_expired_lem}
use r2r.ActionServer.History

module _ {Request Response : Type 0} (env : Clients.Env Request Response) where
  -- `impl Client_ for TypedClient`.
  abbrev pub typed_client : Client_ (Clients.TypedClient Request Response)
  typed_client = record {
    poll_available = Clients.poll_available env;
    handle_response = Clients.handle_response env;
  }

  typed_client-Keeps : ClientKeeps (ClientDelivery.Reach env ClientDelivery.init) typed_client
  typed_client-Keeps = record {
    polling = λ c r. ClientDelivery.next r ClientDelivery.polls;
    response = λ c c' e r. ClientDelivery.next r (ClientDelivery.handles e);
  }

module _ {G F O : Type 0} (env : ActionClient.Env G F O)
    (waits : ActionClient.WrappedActionClient G F O → Result Waits) where
  -- `impl ActionClient_ for WrappedActionClient`.
  abbrev pub action_client : ActionClient_ (ActionClient.WrappedActionClient G F O)
  action_client = record {
    poll_available = Requests.poll_available env;
    get_num_waits = waits;
    handle_feedback_msg = λ c. ok (Responses.handle_feedback_msg env c);
    handle_status_msg = Responses.handle_status_msg env;
    handle_goal_response = Responses.handle_goal_response env;
    handle_cancel_response = Responses.handle_cancel_response env;
    handle_result_response = Responses.handle_result_response env;
  }

  action_client-Keeps :
      ActionClientKeeps (ActionDelivery.Reach env (ActionClient.init G F O)) action_client
  action_client-Keeps = record {
    polling = λ c r. ActionDelivery.next r ActionDelivery.polled;
    feedback = λ c c' e r.
        subst (ActionDelivery.Reach env (ActionClient.init G F O)) (ok-injective e)
          (ActionDelivery.next r ActionDelivery.feedback_msg);
    status = λ c c' e r. ActionDelivery.next r (ActionDelivery.status_msg e);
    goal_response = λ c c' e r. ActionDelivery.next r (ActionDelivery.goal_response e);
    cancel_response = λ c c' e r. ActionDelivery.next r (ActionDelivery.cancel_response e);
    result_response = λ c c' e r. ActionDelivery.next r (ActionDelivery.result_response e);
  }

module _ {G F O : Type 0} (env : ActionServer.Env G F O)
    (waits : ActionServer.WrappedActionServer G F O → Result Waits) where
  -- The loop of `handle_goal_expired` never makes a round, so no fuel is needed.
  abbrev pub goal_expired :
      ActionServer.WrappedActionServer G F O → Result (ActionServer.WrappedActionServer G F O)
  goal_expired s = elim (handle_goal_expired env 1 s) [ none ↦ panic | some s' ↦ ok s' ]

  -- `impl ActionServer_ for WrappedActionServer`.
  abbrev pub action_server : ActionServer_ (ActionServer.WrappedActionServer G F O)
  action_server = record {
    send_completed_cancel_requests = send_completed_cancel_requests env;
    get_num_waits = waits;
    handle_goal_request = λ s. ok (handle_goal_request env s);
    handle_cancel_request = handle_cancel_request env;
    handle_result_request = handle_result_request env;
    handle_goal_expired = goal_expired;
  }

  action_server-Keeps :
      ActionServerKeeps (History.Reach env (ActionServer.init G F O)) action_server
  action_server-Keeps = record {
    completing = λ s r. History.next r History.cancels_completed;
    goal_request = λ s s' e r.
        subst (History.Reach env (ActionServer.init G F O)) (ok-injective e)
          (History.next r History.goal_requested);
    cancel_request = λ s r. History.next r History.cancel_requested;
    result_request = λ s r. History.next r History.result_requested;
    goal_expired = λ s s' e r.
        History.next r
          (History.goals_expired 1 (ground (arith, e, handle_goal_expired_lem env 0 s)));
  }

module _ {S T V Request Response G1 F1 O1 G2 F2 O2 : Type 0}
    (t : Traits S T
      (Clients.TypedClient Request Response)
      V
      (ActionClient.WrappedActionClient G1 F1 O1)
      (ActionServer.WrappedActionServer G2 F2 O2))
    (client_env : Clients.Env Request Response) (action_client_env : ActionClient.Env G1 F1 O1)
    (action_server_env : ActionServer.Env G2 F2 O2)
    (client_waits : ActionClient.WrappedActionClient G1 F1 O1 → Result Waits)
    (server_waits : ActionServer.WrappedActionServer G2 F2 O2 → Result Waits) where
  -- Every client, action client and action server of a node is in a state that some history from
  -- its creation has.
  abbrev pub IsReachable :
      Node S T
        (Clients.TypedClient Request Response)
        V
        (ActionClient.WrappedActionClient G1 F1 O1)
        (ActionServer.WrappedActionServer G2 F2 O2)
      → Type 0
  IsReachable =
      Holds t (ClientDelivery.Reach client_env ClientDelivery.init)
        (ActionDelivery.Reach action_client_env (ActionClient.init G1 F1 O1))
        (History.Reach action_server_env (ActionServer.init G2 F2 O2))

  -- After a round of a node whose parts were in states that histories have, they are so again:
  -- each channel of its clients and action clients is in exactly one place, and no request waits
  -- for a result that its action servers have.
  pub spin_once-IsReachable :
      t.client ≡ typed_client client_env
      → t.action_client ≡ action_client action_client_env client_waits
      → t.action_server ≡ action_server action_server_env server_waits
      → (timeout : ℕ)
        (n n' : Node S T
          (Clients.TypedClient Request Response)
          V
          (ActionClient.WrappedActionClient G1 F1 O1)
          (ActionServer.WrappedActionServer G2 F2 O2))
      → spin_once t timeout n ≡ ok n'
      → IsReachable n
      → IsReachable n'
        × All ClientDelivery.IsConserved n'.clients
        × All ActionDelivery.IsConserved n'.action_clients
        × All IsServed n'.action_servers
  spin_once-IsReachable e1 e2 e3 timeout n n' e h =
      let h' : IsReachable n' =
        spin_once-Holds t _ _ _ (subst (ClientKeeps _) (sym e1) (typed_client-Keeps client_env))
          (subst (ActionClientKeeps _) (sym e2)
            (action_client-Keeps action_client_env client_waits))
          (subst (ActionServerKeeps _) (sym e3)
            (action_server-Keeps action_server_env server_waits))
          timeout n n' e h in
      (
        h',
        All-mono n'.clients (λ c. ClientDelivery.TypedClient-IsConserved client_env) h'.clients,
        All-mono n'.action_clients (λ c. ActionDelivery.Reach-IsConserved action_client_env)
            h'.action_clients,
        All-mono n'.action_servers (λ s. Reach-IsServed action_server_env) h'.action_servers,
      )
