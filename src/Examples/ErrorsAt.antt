-- ===== src/Examples/ErrorsAt.antt =====
-- src/error.rs and src/action_common.rs at concrete numbers.
use r2r.Prelude.{ℕ, ◌≡◌, ◌≤◌, ◌↔◌, some}
use r2r.Errors.{Ret, rcl_ret_event_invalid, rcl_ret_action_name_invalid}
use r2r.Errors.Codes.{from_rcl_error, number, from_rcl_error_iff}

-- Two codes have the same number.
abbrev shared_number : Ret → ℕ
shared_number rcl_ret_event_invalid = 2000
shared_number rcl_ret_action_name_invalid = 2000
shared_number c = number c

from_rcl_error_iff_example : (from_rcl_error shared_number 2000 ≡ some rcl_ret_event_invalid) ↔ (
    (2000 ≡ shared_number rcl_ret_event_invalid)
    × ((d : Ret) → 2000 ≡ shared_number d → number rcl_ret_event_invalid ≤ number d))
from_rcl_error_iff_example = from_rcl_error_iff shared_number 2000 rcl_ret_event_invalid
