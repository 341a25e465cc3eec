-- ===== src/Examples/LifecycleAt.antt =====
-- A node of src/nodes.rs that creates entities, loses a subscriber, and is dropped while another
-- thread publishes; and a time of src/clocks.rs.
use r2r.Prelude.{
  ℕ, ◌+◌, ◌≤◌, ◌<◌, ◌*◌, ◌≡◌, refl, arith, List, [], ◌∷◌, some, true, false, ◌==◌, any,
  if◌then◌else◌, ltb,
}
use r2r.Prelude.Bytes.{bytes}
use r2r.Prelude.Counting.{count}
use r2r.Errors.{rcl_ret_ok, rcl_ret_error, ok, is_ok, ◌>>=◌}
use r2r.Lifecycle.{
  Kind, client, clock, node, action_server, Event, initialized, Env, NodeState, subscribe,
  create_client, create_publisher, create_action_server,
}
use r2r.Lifecycle.Balance.{IsBalanced, made, gone, held, same_kind}
use r2r.Lifecycle.Dropping.{remove_subscribers, drop_node, create, with_params, fresh_node}
use r2r.Lifecycle.Dropping.Finalized.{among}
use r2r.Lifecycle.Histories.{
  NodeReach, created, step, subscribed, client_created, publisher_created, subscribers_removed,
  NodeReach-IsBalanced,
}
use r2r.Lifecycle.Ending.{drop_node_lem, refused_server_lem}
use r2r.Clocks.{I32, I64, Time, get_now, to_builtin_time, get_now-to_builtin_time}

-- Each publisher is held by another thread at the first three tries. rcl refuses action servers.
abbrev env : Env
env = record {
  ret = λ events k. if same_kind k action_server then rcl_ret_error else rcl_ret_ok;
  type_support = λ name. ok tt;
  owners = λ events h round. if ltb round 3 then 2 else 1;
}

abbrev first : NodeState
first = fresh_node 0 (initialized node 0 ∷ [])

first-NodeReach : NodeReach env (Unit {0}) first
unfolding create with_params any is_ok
first-NodeReach = created 4 (bytes "robot") (bytes "/") tt first (initialized node 0 ∷ []) refl

abbrev last : NodeState
last =
    remove_subscribers (λ h. h == 1)
      (create_publisher env (bytes "/pose")
        (create_client env (bytes "/add") (subscribe env (bytes "/scan") first).1).1).1

last-NodeReach : NodeReach env (Unit {0}) last
last-NodeReach =
    step
      (step
        (step (step first-NodeReach (subscribed (bytes "/scan"))) (client_created (bytes "/add")))
        (publisher_created (bytes "/pose")))
      (subscribers_removed (λ h. h == 1))

NodeReach-IsBalanced_example : IsBalanced last
NodeReach-IsBalanced_example = NodeReach-IsBalanced last-NodeReach

drop_node_lem_example :
    (es : List Event) × ((drop_node env 4 last ≡ some es)
      × ((j : Kind) (h : ℕ)
          → let left = among j h client last.clients in
            ((made j h es ≡ made j h last.events) × (made j h es ≤ 1))
            × (gone j h es + left ≡ count h (held j last) + gone j h last.events)
            × ((gone j h es + left ≤ made j h es)
                × (same_kind j clock ≡ false → gone j h es + left ≡ made j h es))))
drop_node_lem_example = drop_node_lem env 4 (λ events h. (3, (omega arith, refl))) last-NodeReach

refused_server_lem_example :
    let n' = (create_action_server env (bytes "/go") first).1 in
    (made clock 1 n'.events ≡ 1)
    × ((count 1 (held clock n') + gone clock 1 n'.events ≡ 0) × (n'.action_servers ≡ []))
unfolding any is_ok
refused_server_lem_example = refused_server_lem (bytes "/go") first-NodeReach refl refl refl

get_now-to_builtin_time_example :
    (t : Time) × (((get_now true rcl_ret_ok (I64.nonneg 2147483648000000001) >>= λ d.
    ok (to_builtin_time d))
        ≡ ok t)
      × ((t.nanosec < 1000000000)
          × ((2147483648000000001 < 2147483648000000000
                → (s : ℕ) × ((t.sec ≡ I32.nonneg s)
                    × (s * 1000000000 + t.nanosec ≡ 2147483648000000001)))
              × (2147483648000000000 ≤ 2147483648000000001
                  → 2147483648000000001 < 4294967296000000000
                  → (s : ℕ) × ((t.sec ≡ I32.negative s)
                      × (2147483648000000001 + s * 1000000000
                          ≡ 4294967296000000000 + t.nanosec))))))
get_now-to_builtin_time_example = get_now-to_builtin_time 2147483648000000001
