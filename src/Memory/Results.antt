-- ===== src/Memory/Results.antt =====
-- src/action_servers.rs: the result messages that an action server keeps, with the memory that
-- they take.
use r2r.Prelude.{ℕ, List, [], ◌∷◌, Option, none, some, Bool, not, ◌==◌, if◌then◌else◌}
use r2r.Prelude.Maps.{HashMap, insert, remove}
use r2r.MsgTypes.{Typesupport}
use r2r.ActionMsgs.{Uuid, RequestId}
use r2r.ActionServer.Results.{enqueue}
use r2r.Memory.{Cmd, pure, ◌>>=◌, ◌>>◌, load, store, WrappedNativeMsg, new, from, drop_msg, scoped}

-- The three message types of result requests, and what the generated functions make of them.
pub record Types (N Json Request Info Response : Type 0) : Type 0 where
  pub request : Typesupport N Json Request
  pub info : Typesupport N Json Info
  pub response : Typesupport N Json Response
  pub destructure_result_request_msg : Request → Uuid
  pub info_of : Uuid → Info
  pub unknown_response : Response

-- What rcl does in one result request: the request that it writes, if it takes one, and which goals
-- exist, by the goal info that it reads.
pub record Rcl (N : Type 0) : Type 0 where
  pub taken : Option (RequestId × N)
  pub goal_exists : N → Bool

-- The `HashMap` of the results, whose values the server owns.
abbrev pub ResultMsgs : Type 0
ResultMsgs = List (Uuid × WrappedNativeMsg)

abbrev pub get : Uuid → ResultMsgs → Option WrappedNativeMsg
get uuid [] = none
get uuid ((u, w) ∷ msgs) = let rest = get uuid msgs in if u == uuid then some w else rest

-- `insert`: the map, and the value that was there, which the caller drops.
unfoldable pub insert_msg :
    Uuid → WrappedNativeMsg → ResultMsgs → Option WrappedNativeMsg × ResultMsgs
insert_msg uuid w [] = (none, (uuid, w) ∷ [])
insert_msg uuid w ((u, old) ∷ msgs) =
    let (replaced, rest) = insert_msg uuid w msgs in
    if u == uuid then (some old, (u, w) ∷ msgs) else (replaced, (u, old) ∷ rest)

-- The part of the action server that the results are in; `sent` has the responses that rcl was
-- given, the last first.
pub record Server (N : Type 0) : Type 0 where
  pub result_msgs : ResultMsgs
  pub result_requests : HashMap (List RequestId)
  pub sent : List (RequestId × N)

module _ {N : Type 0} where
  -- `rcl_action_send_result_response`, which reads the message. A failure is only printed.
  unfoldable pub send_result_response : RequestId → ℕ → Server N → Cmd N (Server N)
  unfolding load ◌>>=◌
  send_result_response request_id response_msg s = do
    content ← load response_msg
    pure (record s { sent = (request_id, content) ∷ s.sent })

  -- `for mut req in rr` of `add_result`.
  unfoldable pub send_all : List RequestId → ℕ → Server N → Cmd N (Server N)
  unfolding send_result_response ◌>>=◌
  send_all [] msg s = pure s
  send_all (req ∷ rr) msg s = do later ← send_result_response req msg s; send_all rr msg later

  unfoldable pub drop_replaced : Option WrappedNativeMsg → Cmd N (Unit {0})
  unfolding drop_msg
  drop_replaced none = pure tt
  drop_replaced (some w) = drop_msg w

  -- `add_result`.
  unfoldable pub add_result : Uuid → WrappedNativeMsg → Server N → Cmd N (Server N)
  unfolding send_all insert_msg drop_replaced ◌>>=◌ ◌>>◌
  add_result uuid msg s = do
    answered ← elim (s.result_requests uuid) [
      | none ↦ pure s
      | some rr ↦ send_all rr msg.msg (record s { result_requests = remove uuid s.result_requests })
    ]
    let (replaced, msgs) = insert_msg uuid msg answered.result_msgs
    drop_replaced replaced
    pure (record answered { result_msgs = msgs })

  -- The results are dropped with the server.
  unfoldable pub drop_results : ResultMsgs → Cmd N (Unit {0})
  unfolding drop_msg ◌>>◌
  drop_results [] = pure tt
  drop_results ((u, w) ∷ msgs) = drop_msg w >> drop_results msgs

module _ {N Json Request Info Response : Type 0} (types : Types N Json Request Info Response) where
  -- What `succeed`, `abort` and `cancel` of `ActionServerGoal` do in the end: the result is
  -- copied to a native message, which the server keeps.
  unfoldable pub keep_result : Uuid → Response → Server N → Cmd N (Server N)
  unfolding from add_result ◌>>=◌
  keep_result uuid result_msg s = do
    native_msg ← from types.response result_msg
    add_result uuid native_msg s

  -- The pointer that a result request is answered with: of a message that is dropped where its
  -- block ends, if the goal does not exist.
  unfoldable pub response_ptr : Bool → Uuid → Server N → Cmd N (Option ℕ)
  unfolding from scoped
  response_ptr goal_exists uuid s =
      if not goal_exists
      then scoped (from types.response types.unknown_response)
          (λ response_msg. pure (some response_msg.msg))
      else pure (elim (get uuid s.result_msgs) [ none ↦ none | some w ↦ some w.msg ])

  -- `handle_result_request` from where it has the uuid and the goal info.
  unfoldable pub answer_request :
      Rcl N → RequestId → Uuid → Server N → WrappedNativeMsg → Cmd N (Server N)
  unfolding load response_ptr send_result_response ◌>>=◌
  answer_request rcl request_id uuid s goal_info_native = do
    goal_info ← load goal_info_native.msg
    response_msg ← response_ptr (rcl.goal_exists goal_info) uuid s
    elim response_msg [
      | some p ↦ send_result_response request_id p s
      | none ↦ pure (record s {
        result_requests =
            insert uuid (enqueue (s.result_requests uuid) request_id) s.result_requests;
      })
    ]

  -- `handle_result_request` from where it has a message for the request.
  unfoldable pub take_request : Rcl N → Server N → WrappedNativeMsg → Cmd N (Server N)
  unfolding from load store scoped answer_request ◌>>=◌ ◌>>◌
  take_request rcl s request_msg = elim rcl.taken [
    | none ↦ pure s
    | some (request_id, content) ↦ do
      store request_msg.msg content
      native ← load request_msg.msg
      let uuid = types.destructure_result_request_msg (types.request.from_native native)
      scoped (from types.info (types.info_of uuid)) (answer_request rcl request_id uuid s)
  ]

  -- `handle_result_request`.
  unfoldable pub handle_result_request : Rcl N → Server N → Cmd N (Server N)
  unfolding new scoped take_request
  handle_result_request rcl s = scoped (new types.request) (take_request rcl s)
