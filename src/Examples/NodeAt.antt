-- ===== src/Examples/NodeAt.antt =====
-- src/nodes.rs at a node with two subscribers, of which one lost its receiver, a client, an action
-- client and an action server.
use r2r.Prelude.{ℕ, ◌≡◌, refl, List, [], ◌∷◌, Bool, true, false, arith, some}
use r2r.Errors.{rcl_ret_ok, ok, is_ok}
use r2r.Node.{Stream, Woken, Traits, Node}
use r2r.Node.Streams.{serve}
use r2r.Node.Streams.Survivors.{survivors, serve_finalized}
use r2r.Node.Spin.{
  handle_action_client, handle_action_server, client_waits, server_waits, is_timeout, poll,
  dispatch, spin_once, total_waits, wait_set_size, handle_each,
}
use r2r.Node.Spin.Rounds.{spin_once_lem, subscribers-spin_once}
use r2r.Node.Spin.Preserving.Parts.{typed_client, action_client, action_server}
use r2r.Node.Spin.Takes.{
  typed, client_takes, action_client_takes, action_server_takes, spin_once-takes,
}
use r2r.Node.Spin.Takes.Answers.{
  response, feedback, goal_response, goal_request, result_request, response_takes, action_takes,
}
use r2r.ActionClient.Requests
use r2r.ActionClient.Requests.{send_goal_locked, send_cancel_request}
use r2r.ActionClient.Responses
use r2r.ActionServer.Results.{handle_goal_expired}
use r2r.Pending.{take_key, find}
use r2r.Node.Names.{Topic, store_topics, get_topic_names_and_types, get_topic_names_and_types_lem}
use r2r.Prelude.Texts.{empty_texts}
use r2r.Clients
use r2r.ActionClient
use r2r.ActionServer
use r2r.Examples.ClientsAt
use r2r.Examples.ActionClientAt
use r2r.Examples.ServerAt

-- A stream by its handle, its messages, and whether its receiver is gone.
abbrev Subscription : Type 0
Subscription = ℕ × ℕ × Bool

abbrev subscription : Stream Subscription
subscription = record {
  handle = λ s. s.0;
  handle_incoming = λ s. (s.2, s);
  destroy = λ s. (0, s.1, s.2);
}

abbrev timer : Stream Subscription
timer = record subscription { destroy = λ s. s }

abbrev two : List Subscription
two = (1, 10, true) ∷ (2, 20, false) ∷ []

serve_finalized_example : serve subscription two (true ∷ true ∷ []) ≡ (2, 20, false) ∷ []
serve_finalized_example =
    serve_finalized subscription (λ s. refl) two (true ∷ true ∷ []) (λ s. refl)
      (omega arith, (omega arith, tt))

abbrev NodeType : Type 0
NodeType =
    Node Subscription Subscription (Clients.TypedClient ℕ ℕ) Subscription
      (ActionClient.WrappedActionClient ℕ ℕ ℕ) (ActionServer.WrappedActionServer ℕ ℕ ℕ)

abbrev woken : Woken
woken = record {
  ret = rcl_ret_ok;
  subscriptions = true ∷ true ∷ [];
  timers = [];
  clients = false ∷ [];
  services = [];
  action_clients = [];
  action_servers = [];
}

abbrev traits :
    Traits Subscription Subscription
      (Clients.TypedClient ℕ ℕ)
      Subscription
      (ActionClient.WrappedActionClient ℕ ℕ ℕ)
      (ActionServer.WrappedActionServer ℕ ℕ ℕ)
traits = record {
  subscriber = subscription;
  timer = timer;
  client = typed_client ClientsAt.env;
  service = subscription;
  action_client = action_client ActionClientAt.env (λ a. ok client_waits);
  action_server = action_server ServerAt.env (λ b. ok server_waits);
  wait = λ waits size timeout. woken;
}

abbrev node : NodeType
node = record {
  subscribers = two;
  timers = [];
  clients = ClientsAt.started ∷ [];
  services = [];
  action_clients = ActionClientAt.busy ∷ [];
  action_servers = ActionServer.init ℕ ℕ ℕ ∷ [];
  waits = [];
}

abbrev waited : NodeType
waited = record (poll traits node) {
  waits = record { subs = 4; gc = 0; timers = 1; clients = 4; services = 3 } ∷ [];
}

spin_once_lem_example : spin_once traits 1000 node ≡ dispatch traits woken waited
unfolding is_timeout
spin_once_lem_example = spin_once_lem traits 1000 node (λ a. refl) (λ b. refl)

abbrev served : NodeType
served = record waited { subscribers = (2, 20, false) ∷ [] }

node-spin_once : spin_once traits 1000 node ≡ ok served
unfolding spin_once wait_set_size dispatch is_timeout serve total_waits handle_each is_ok
node-spin_once = refl

subscribers-spin_once_example : served.subscribers ≡ survivors subscription two (true ∷ true ∷ [])
unfolding is_timeout
subscribers-spin_once_example =
    subscribers-spin_once traits 1000 node served (λ a. refl) (λ b. refl) (λ s. refl) (λ s. refl)
      (omega arith, (omega arith, tt)) refl node-spin_once

-- A response is ready for the client, a goal response for the action client, and a request for a
-- result for the action server.
abbrev busy_round : Woken
busy_round = record {
  ret = rcl_ret_ok;
  subscriptions = [];
  timers = [];
  clients = true ∷ [];
  services = [];
  action_clients =
      record {
        ret = rcl_ret_ok;
        feedback = true;
        status = false;
        goal_response = true;
        cancel_response = false;
        result_response = false;
      }
      ∷ [];
  action_servers =
      record {
        ret = rcl_ret_ok;
        goal_request = true;
        cancel_request = false;
        result_request = true;
        goal_expired = true;
      }
      ∷ [];
}

abbrev busy_traits :
    Traits Subscription Subscription
      (Clients.TypedClient ℕ ℕ)
      Subscription
      (ActionClient.WrappedActionClient ℕ ℕ ℕ)
      (ActionServer.WrappedActionServer ℕ ℕ ℕ)
busy_traits =
    typed ClientsAt.env ActionClientAt.env ServerAt.env subscription timer subscription
      (λ waits size timeout. busy_round)

busy_served : (n : NodeType) × (spin_once busy_traits 1000 node ≡ ok n)
unfolding spin_once wait_set_size dispatch is_timeout serve total_waits handle_each
    handle_action_client handle_action_server is_ok Clients.handle_response
    Responses.handle_feedback_msg Responses.handle_goal_response take_key find Clients.request
    Clients.poll_available send_goal_locked send_cancel_request Requests.poll_available
    handle_goal_expired Clients.register_poll_available Requests.register_poll_available
busy_served = (_, refl)

spin_once-takes_example :
    (client_takes busy_served.0.clients ≡ (response ∷ response_takes ClientsAt.started.calls) ∷ [])
    × (action_client_takes busy_served.0.action_clients
        ≡ (goal_response ∷ feedback ∷ action_takes ActionClientAt.busy.calls) ∷ [])
    × (action_server_takes busy_served.0.action_servers ≡ (result_request ∷ goal_request ∷ []) ∷ [])
unfolding is_timeout is_ok
spin_once-takes_example =
    spin_once-takes ClientsAt.env ActionClientAt.env ServerAt.env subscription timer subscription
      (λ waits size timeout. busy_round) 1000 node busy_served.0 busy_served.1

-- Two types for the first topic: the second one is that of the next topic.
abbrev two_topics : List Topic
two_topics = ("/a", ("x", "y" ∷ [])) ∷ ("/b", ("z", [])) ∷ []

get_topic_names_and_types_lem_example :
    get_topic_names_and_types rcl_ret_ok ("/a" ∷ "/b" ∷ []) (("x" ∷ "y" ∷ []) ∷ ("z" ∷ []) ∷ [])
    ≡ some (ok (store_topics two_topics empty_texts))
unfolding is_ok
get_topic_names_and_types_lem_example = get_topic_names_and_types_lem rcl_ret_ok two_topics
