-- ===== src/Errors.antt =====
-- src/error.rs: the return codes of the rcl libraries, the errors, and `Result`.
pub mod Codes
use r2r.Prelude.{◌≡◌, refl, Bool, true, false}
use Prim.Native.String.{String}

-- The return codes of rcl and rcl_action, in the order in which `from_rcl_error` tests them.
pub data Ret : Type 0 where
  rcl_ret_ok rcl_ret_error rcl_ret_timeout rcl_ret_bad_alloc rcl_ret_invalid_argument : Ret
  rcl_ret_unsupported rcl_ret_already_init rcl_ret_not_init rcl_ret_mismatched_rmw_id : Ret
  rcl_ret_topic_name_invalid rcl_ret_service_name_invalid rcl_ret_unknown_substitution : Ret
  rcl_ret_already_shutdown rcl_ret_node_invalid rcl_ret_node_invalid_name : Ret
  rcl_ret_node_invalid_namespace rcl_ret_publisher_invalid rcl_ret_subscription_invalid : Ret
  rcl_ret_subscription_take_failed rcl_ret_client_invalid rcl_ret_client_take_failed : Ret
  rcl_ret_service_invalid rcl_ret_service_take_failed rcl_ret_timer_invalid : Ret
  rcl_ret_timer_canceled rcl_ret_wait_set_invalid rcl_ret_wait_set_empty rcl_ret_wait_set_full : Ret
  rcl_ret_invalid_remap_rule rcl_ret_wrong_lexeme rcl_ret_invalid_param_rule : Ret
  rcl_ret_invalid_log_level_rule rcl_ret_event_invalid rcl_ret_event_take_failed : Ret
  rcl_ret_action_name_invalid rcl_ret_action_goal_accepted rcl_ret_action_goal_rejected : Ret
  rcl_ret_action_client_invalid rcl_ret_action_client_take_failed : Ret
  rcl_ret_action_server_invalid rcl_ret_action_server_take_failed : Ret
  rcl_ret_action_goal_handle_invalid rcl_ret_action_goal_event_invalid : Ret

pub data Error : Type 0 where
  rcl : Ret → Error
  invalid_message_type serde_error : String → Error
  goal_cancel_rejected goal_cancel_unknown_goal_id goal_cancel_already_terminated : Error

-- A call that may fail; `panic` is a panic of the calling thread.
pub data Result {ℓ} (A : Type ℓ) : Type ℓ where
  ok : A → Result A
  err : Error → Result A
  panic : Result A

infixl 5 ◌>>=◌
abbrev pub ◌>>=◌ {ℓ κ} : {A : Type ℓ} {B : Type κ} → Result A → (A → Result B) → Result B
ok a >>= f = f a
err e >>= f = err e
panic >>= f = panic

-- `ret == RCL_RET_OK as i32`.
unfoldable pub is_ok : Ret → Bool
is_ok rcl_ret_ok = true
is_ok _ = false

pub ok-injective {ℓ} : {A : Type ℓ} {a b : A} → ok a ≡ ok b → a ≡ b
ok-injective e = cc

-- A chain that succeeds has steps that succeed.
pub ok->>= {ℓ κ} :
    {A : Type ℓ} {B : Type κ} (r : Result A) (f : A → Result B) (b : B)
    → (r >>= f) ≡ ok b
    → (a : A) × (r ≡ ok a) × (f a ≡ ok b)
ok->>= (ok a) f b e = (a, refl, e)
ok->>= (err x) f b e = cc
ok->>= panic f b e = cc
