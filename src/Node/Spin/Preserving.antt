-- ===== src/Node/Spin/Preserving.antt =====
-- `spin_once` of src/nodes.rs, and what the clients, action clients and action servers of a node
-- keep true: the contract between the node and the implementations of its traits.
pub mod Parts
use r2r.Prelude.{
  ℕ, ◌≡◌, refl, List, [], ◌∷◌, Bool, true, false, arith, if◌then◌else◌, map, All, All-map,
  Bool-cases, inl, inr,
}
use r2r.Errors.{Result, ok, err, panic, is_ok, ok-injective, ◌>>=◌, ok->>=}
use mathlib.Core.Path.{subst}
use r2r.Node.{Client_, ActionClient_, ActionServer_, ClientReady, ServerReady, Woken, Traits, Node}
use r2r.Node.Spin.{
  as_i64, handle_each, when_ready, handle_action_client, handle_action_server, is_timeout, poll,
  wait_set_size, dispatch, spin_once,
}
use r2r.Node.Spin.Rounds.{dispatch_parts}

-- A handler that succeeds keeps `P`.
abbrev pub Keeps : {A : Type 0} → (A → Type 0) → (A → Result A) → Type 0
Keeps {A} P handle = (a a' : A) → handle a ≡ ok a' → P a → P a'

module _ {A : Type 0} (P : A → Type 0) where
  when_ready-Keeps :
      (ready : Bool) (handle : A → Result A) → Keeps P handle → Keeps P (when_ready ready handle)
  when_ready-Keeps true handle k = k
  when_ready-Keeps false handle k = λ a a' e p. subst P (ok-injective e) p

  >>=-Keeps : (f g : A → Result A) → Keeps P f → Keeps P g → Keeps P (λ a. f a >>= g)
  >>=-Keeps f g kf kg =
      λ a a' e p. let (b, e1, e2) = ok->>= (f a) g a' e in kg b a' e2 (kf a b e1 p)

  handle_each-Keeps :
      {R : Type 0} (handle : R → A → Result A)
      → ((r : R) → Keeps P (handle r))
      → (as1 as2 : List A) (rs : List R) → handle_each handle as1 rs ≡ ok as2
      → All P as1
      → All P as2
  unfolding handle_each
  handle_each-Keeps handle k [] as2 rs e all = subst (All P) (ok-injective e) tt
  handle_each-Keeps handle k (a ∷ others) as2 [] e all = subst (All P) (ok-injective e) all
  handle_each-Keeps handle k (a ∷ others) as2 (r ∷ rs) e (p, all) =
      let (a', e1, f1) = ok->>= (handle r a) _ as2 e in
      let (others', e2, f2) = ok->>= (handle_each handle others rs) _ as2 f1 in
      subst (All P) (ok-injective f2)
        (k r a a' e1 p, handle_each-Keeps handle k others others' rs e2 all)

  if_ok-Keeps :
      (ready : Bool) (handle : A → Result A)
      → Keeps P handle
      → Keeps P (λ a. if ready then handle a else ok a)
  if_ok-Keeps true handle k = k
  if_ok-Keeps false handle k = λ a a' e p. subst P (ok-injective e) p

-- What the parts of a node promise: every operation that the node calls keeps `P`.
pub record ClientKeeps {C : Type 0} (P : C → Type 0) (t : Client_ C) : Type 0 where
  pub polling : (c : C) → P c → P (t.poll_available c)
  pub response : Keeps P t.handle_response

pub record ActionClientKeeps {A : Type 0} (P : A → Type 0) (t : ActionClient_ A) : Type 0 where
  pub polling : (a : A) → P a → P (t.poll_available a)
  pub feedback : Keeps P t.handle_feedback_msg
  pub status : Keeps P t.handle_status_msg
  pub goal_response : Keeps P t.handle_goal_response
  pub cancel_response : Keeps P t.handle_cancel_response
  pub result_response : Keeps P t.handle_result_response

pub record ActionServerKeeps {B : Type 0} (P : B → Type 0) (t : ActionServer_ B) : Type 0 where
  pub completing : (b : B) → P b → P (t.send_completed_cancel_requests b)
  pub goal_request : Keeps P t.handle_goal_request
  pub cancel_request : (b : B) → P b → P (t.handle_cancel_request b)
  pub result_request : (b : B) → P b → P (t.handle_result_request b)
  pub goal_expired : Keeps P t.handle_goal_expired

handle_action_client-Keeps :
    {A : Type 0} (P : A → Type 0) (t : ActionClient_ A)
    → ActionClientKeeps P t
    → (ready : ClientReady) → Keeps P (handle_action_client t ready)
unfolding handle_action_client
handle_action_client-Keeps P t k ready = if_ok-Keeps P (is_ok ready.ret) _ (
    >>=-Keeps P _ _ (when_ready-Keeps P ready.feedback _ k.feedback) (
      >>=-Keeps P _ _ (when_ready-Keeps P ready.status _ k.status) (
        >>=-Keeps P _ _ (when_ready-Keeps P ready.goal_response _ k.goal_response) (
          >>=-Keeps P _ _ (when_ready-Keeps P ready.cancel_response _ k.cancel_response)
            (when_ready-Keeps P ready.result_response _ k.result_response)))))

total-Keeps :
    {B : Type 0} (P : B → Type 0) (f : B → B) → ((b : B) → P b → P (f b)) → Keeps P (λ b. ok (f b))
total-Keeps P f k b b' e p = subst P (ok-injective e) (k b p)

handle_action_server-Keeps :
    {B : Type 0} (P : B → Type 0) (t : ActionServer_ B)
    → ActionServerKeeps P t
    → (ready : ServerReady) → Keeps P (handle_action_server t ready)
unfolding handle_action_server
handle_action_server-Keeps P t k ready =
    let cancel = total-Keeps P t.handle_cancel_request k.cancel_request in
    let result = total-Keeps P t.handle_result_request k.result_request in
    if_ok-Keeps P (is_ok ready.ret) _ (
      >>=-Keeps P _ _ (when_ready-Keeps P ready.goal_request _ k.goal_request) (
        >>=-Keeps P _ _ (when_ready-Keeps P ready.cancel_request _ cancel) (
          >>=-Keeps P _ _ (when_ready-Keeps P ready.result_request _ result)
            (when_ready-Keeps P ready.goal_expired _ k.goal_expired))))

module _ {S T C V A B : Type 0} (t : Traits S T C V A B) (P : C → Type 0) (Q : A → Type 0)
    (R : B → Type 0) where
  -- `P`, `Q` and `R` hold of all clients, action clients and action servers of a node.
  pub record Holds (n : Node S T C V A B) : Type 0 where
    pub clients : All P n.clients
    pub action_clients : All Q n.action_clients
    pub action_servers : All R n.action_servers

  module _ (p : ClientKeeps P t.client) (q : ActionClientKeeps Q t.action_client)
      (r : ActionServerKeeps R t.action_server) where
    poll-Holds : (n : Node S T C V A B) → Holds n → Holds (poll t n)
    unfolding poll
    poll-Holds n h = record {
      clients = All-map P t.client.poll_available n.clients p.polling h.clients;
      action_clients =
          All-map Q t.action_client.poll_available n.action_clients q.polling h.action_clients;
      action_servers =
          All-map R t.action_server.send_completed_cancel_requests n.action_servers r.completing
            h.action_servers;
    }

    dispatch-Holds :
        (w : Woken) (n n' : Node S T C V A B) → dispatch t w n ≡ ok n' → Holds n → Holds n'
    dispatch-Holds w n n' e h =
        let (_, _, _, clients, action_clients, action_servers) = dispatch_parts t w n n' e in
        record {
          clients =
              handle_each-Keeps P _ (λ ready. when_ready-Keeps P ready _ p.response) n.clients
                n'.clients w.clients clients h.clients;
          action_clients =
              handle_each-Keeps Q _ (handle_action_client-Keeps Q t.action_client q)
                n.action_clients n'.action_clients w.action_clients action_clients h.action_clients;
          action_servers =
              handle_each-Keeps R _ (handle_action_server-Keeps R t.action_server r)
                n.action_servers n'.action_servers w.action_servers action_servers h.action_servers;
        }

    -- What every operation of the clients, action clients and action servers keeps true holds of
    -- all of them after a round, if it did before.
    pub spin_once-Holds :
        (timeout : ℕ) (n n' : Node S T C V A B) → spin_once t timeout n ≡ ok n' → Holds n → Holds n'
    unfolding spin_once
    spin_once-Holds timeout n n' e h =
        let (size, _, f) = ok->>= (wait_set_size t (poll t n)) _ n' e in
        let woken = t.wait n.waits size (as_i64 timeout) in
        let polled = poll-Holds n h in
        let waited : Node S T C V A B = record (poll t n) { waits = size ∷ n.waits } in
        let held : Holds waited = record {
          clients = polled.clients;
          action_clients = polled.action_clients;
          action_servers = polled.action_servers;
        } in
        elim (Bool-cases (is_timeout woken.ret)) [
          | inl timeout ↦
              let same : ok waited ≡ ok n' = rw timeout at f in subst Holds (ok-injective same) held
          | inr woke ↦
              let same : dispatch t woken waited ≡ ok n' = rw woke at f in
              dispatch-Holds woken waited n' same held
        ]
