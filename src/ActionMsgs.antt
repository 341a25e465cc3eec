-- ===== src/ActionMsgs.antt =====
-- The messages of the ROS packages action_msgs, unique_identifier_msgs and builtin_interfaces that
-- the actions use: src/msg_types.rs and the generated types it includes. A goal id is a number: the
-- 16 bytes of a UUID, which `uuid_msg_to_uuid` and `as_bytes` carry over unchanged.
use r2r.Prelude.{ℕ, List}

abbrev pub Uuid : Type 0
Uuid = ℕ

-- `rmw_request_id_t` on the server's side, which hands it back as it is.
abbrev pub RequestId : Type 0
RequestId = ℕ

pub record Time : Type 0 where
  pub sec : ℕ
  pub nanosec : ℕ

abbrev pub default_time : Time
default_time = record { sec = 0; nanosec = 0 }

pub record GoalInfo : Type 0 where
  pub goal_id : Uuid
  pub stamp : Time

-- `GoalInfo { goal_id, ..default() }`.
abbrev pub goal_info_of : Uuid → GoalInfo
goal_info_of uuid = record { goal_id = uuid; stamp = default_time }

-- `action_msgs::srv::CancelGoal::Response`.
pub record CancelResponse : Type 0 where
  pub return_code : ℕ
  pub goals_canceling : List GoalInfo
