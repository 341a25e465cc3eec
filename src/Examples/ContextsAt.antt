-- ===== src/Examples/ContextsAt.antt =====
-- src/context.rs: a context that is shared with a node with a timer, which is dropped last.
use r2r.Errors.{rcl_ret_ok}
use r2r.Contexts.{World, clone, drop_context, create_node, create_timer}
use r2r.Contexts.Life.{first_world}

abbrev shared : World
shared =
    create_timer rcl_ret_ok rcl_ret_ok 0 (drop_context (create_node rcl_ret_ok (clone first_world)))
