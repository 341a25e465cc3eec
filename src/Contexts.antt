-- ===== src/Contexts.antt =====
-- src/context.rs: a context, who shares its handle, and when rcl is shut down. Nodes of src/nodes.rs
-- share it, and drop it before their timers, as the order of the fields of `Node` says. The other
-- entities of a node, which `Drop for Node` destroys before the node itself, are those of Lifecycle.
pub mod Order
pub mod Timers
pub mod Life
use r2r.Prelude.{
  ℕ, zero, suc, ◌+◌, ◌-◌, ◌≤◌, ◌≡◌, refl, ap, ◌∙◌, List, [], ◌∷◌, Bool, true, false, ◌==◌, ◌&&◌,
  if◌then◌else◌, length, not, arith, Bool-cases, inl, inr,
}
use r2r.Errors.{Ret, rcl, rcl_ret_error, Result, ok, err, is_ok}

-- The calls of rcl on the context, on nodes, which are numbered in the order of creation, and on the
-- timers of a node and their clocks.
pub data Call : Type 0 where
  rcl_init rcl_shutdown context_fini : Call
  node_init node_fini : ℕ → Call
  timer_init timer_fini clock_init clock_fini : ℕ → Call

-- `strong` is the count of the `Arc` of the handle, `contexts` the number of values of `Context` that
-- users own, `timers` how many timers a node owns, and `calls` has the last call first.
pub record World : Type 0 where
  pub strong : ℕ
  pub contexts : ℕ
  pub nodes : List ℕ
  pub timers : ℕ → ℕ
  pub next : ℕ
  pub calls : List Call

-- `Context::create`: whether the context is valid after `rcl_init`, and what `rcl_logging_configure`
-- returns. Without success nothing owns the box of the context, whose drop calls nothing.
unfoldable pub create : (is_valid : Bool) (logging : Ret) → Result World × List Call
create is_valid logging =
    if is_valid && is_ok logging
    then (
      ok (record {
        strong = 1;
        contexts = 1;
        nodes = [];
        timers = λ n. 0;
        next = 0;
        calls = rcl_init ∷ [];
      }),
      rcl_init ∷ [],
    )
    else (err (rcl rcl_ret_error), rcl_init ∷ [])

-- The drop of the `Arc`, with `Drop for ContextHandle` if it was the last one.
unfoldable pub drop_handle : World → World
drop_handle w =
    let left = w.strong - 1 in
    record w {
      strong = left;
      calls = if left == 0 then context_fini ∷ rcl_shutdown ∷ w.calls else w.calls;
    }

-- `Context::clone`.
unfoldable pub clone : World → World
clone w = record w { strong = suc w.strong; contexts = suc w.contexts }

-- A value of `Context` goes out of scope.
unfoldable pub drop_context : World → World
unfolding drop_handle
drop_context w = drop_handle (record w { contexts = w.contexts - 1 })

-- `Node::create`, which takes a context: the node owns it, or it is dropped if rcl refuses the node.
-- A node whose parameters cannot be loaded is dropped at once, by `end_node`.
unfoldable pub create_node : Ret → World → World
unfolding drop_context
create_node ret w =
    if is_ok ret
    then record w {
      contexts = w.contexts - 1;
      nodes = w.next ∷ w.nodes;
      next = suc w.next;
      calls = node_init w.next ∷ w.calls;
    }
    else drop_context w

unfoldable pub without : ℕ → List ℕ → List ℕ
without n [] = []
without n (m ∷ ms) = let rest = without n ms in if m == n then ms else m ∷ rest

-- The drop of a `Timer_` and of its clock.
unfoldable pub fini_timers : (n count : ℕ) → List Call → List Call
fini_timers n zero calls = calls
fini_timers n (suc k) calls = fini_timers n k (clock_fini n ∷ timer_fini n ∷ calls)

unfoldable pub set_timers : (n count : ℕ) → (ℕ → ℕ) → ℕ → ℕ
set_timers n k timers m = if n == m then k else timers m

-- `Node::create_wall_timer`: the clock of a refused timer is dropped.
unfoldable pub create_timer : (clock timer : Ret) (n : ℕ) → World → World
unfolding set_timers
create_timer clock timer n w =
    if not (is_ok clock)
    then w
    else if is_ok timer
    then record w {
      timers = set_timers n (suc (w.timers n)) w.timers;
      calls = timer_init n ∷ clock_init n ∷ w.calls;
    }
    else record w { calls = clock_fini n ∷ clock_init n ∷ w.calls }

-- A timer whose `Timer` is gone leaves the vector of its node.
unfoldable pub end_timer : ℕ → World → World
unfolding set_timers fini_timers
end_timer n w = record w {
  timers = set_timers n (w.timers n - 1) w.timers;
  calls = fini_timers n 1 w.calls;
}

-- `Drop for Node`, as far as the node itself, and then the drop of its fields: the context is the
-- first of them, and the timers come later.
unfoldable pub end_node : ℕ → World → World
unfolding without drop_handle set_timers fini_timers
end_node n w =
    let left =
      drop_handle (record w { nodes = without n w.nodes; calls = node_fini n ∷ w.calls }) in
    record left { timers = set_timers n 0 w.timers; calls = fini_timers n (w.timers n) left.calls }

abbrev pub holds : ℕ → List ℕ → ℕ
holds n [] = 0
holds n (m ∷ ms) = (if m == n then 1 else 0) + holds n ms

-- What users of a context can do, who own what they use.
pub data Reach : World → Type 0 where
  created :
      {w : World} {calls : List Call} (is_valid : Bool) (logging : Ret)
      → create is_valid logging ≡ (ok w, calls)
      → Reach w
  cloned : {w : World} → Reach w → 1 ≤ w.contexts → Reach (clone w)
  dropped : {w : World} → Reach w → 1 ≤ w.contexts → Reach (drop_context w)
  with_node : {w : World} (ret : Ret) → Reach w → 1 ≤ w.contexts → Reach (create_node ret w)
  with_timer :
      {w : World} (clock timer : Ret) (n : ℕ)
      → Reach w
      → 1 ≤ holds n w.nodes
      → Reach (create_timer clock timer n w)
  without_timer : {w : World} (n : ℕ) → Reach w → 1 ≤ w.timers n → Reach (end_timer n w)
  without_node : {w : World} (n : ℕ) → Reach w → 1 ≤ holds n w.nodes → Reach (end_node n w)
