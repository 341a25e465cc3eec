-- ===== src/GoalStatus.antt =====
-- src/action_common.rs: the status of a goal and its number in the messages.
use Prim.Native.String.{String}
use r2r.Prelude.{ℕ, ◌≡◌, ◌↔◌, refl, Option, none, some, arith, ◌==◌, if◌then◌else◌}

pub data GoalStatus : Type 0 where
  unknown accepted executing canceling succeeded canceled aborted : GoalStatus

unfoldable pub to_rcl : GoalStatus → ℕ
to_rcl unknown = 0
to_rcl accepted = 1
to_rcl executing = 2
to_rcl canceling = 3
to_rcl succeeded = 4
to_rcl canceled = 5
to_rcl aborted = 6

-- `none` is the panic on an unknown number.
unfoldable pub from_rcl : ℕ → Option GoalStatus
from_rcl s =
    if s == 0
    then some unknown
    else if s == 1
    then some accepted
    else if s == 2
    then some executing
    else if s == 3
    then some canceling
    else if s == 4
    then some succeeded
    else if s == 5
    then some canceled
    else if s == 6
    then some aborted
    else none

-- `Display::fmt`.
unfoldable pub fmt : GoalStatus → String
fmt unknown = "unknown"
fmt accepted = "accepted"
fmt executing = "executing"
fmt canceling = "canceling"
fmt succeeded = "succeeded"
fmt canceled = "canceled"
fmt aborted = "aborted"

from_rcl_sound : (n : ℕ) (s : GoalStatus) → from_rcl n ≡ some s → n ≡ to_rcl s
unfolding from_rcl to_rcl
from_rcl_sound n s h = ground arith

from_rcl-to_rcl : (s : GoalStatus) → from_rcl (to_rcl s) ≡ some s
unfolding from_rcl to_rcl
from_rcl-to_rcl unknown = refl
from_rcl-to_rcl _ = refl

-- `from_rcl` reads back a status exactly from the number that `to_rcl` writes for it; on every
-- other number it panics or gives another status.
pub from_rcl_iff : (n : ℕ) (s : GoalStatus) → (from_rcl n ≡ some s) ↔ (n ≡ to_rcl s)
from_rcl_iff n s = (from_rcl_sound n s, λ e. rw e (from_rcl-to_rcl s))
