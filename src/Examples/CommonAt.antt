-- ===== src/Examples/CommonAt.antt =====
-- r2r_common/src/lib.rs on the index of an installation with two packages.
use r2r.Prelude.{◌≡◌, List, [], ◌∷◌, Option, some, none, ◌↔◌}
use r2r.Prelude.Bytes.{Bytes, bytes}
use r2r.Errors.{ok}
use r2r.Common.{RosMsg, Entry, entry, text, unopened, get_ros_msgs}
use r2r.Common.Index.{get_ros_msgs_lem, PackageNames}
use r2r.Common.Sorting.{Has, Ascending}

abbrev std_msgs : Entry
std_msgs = entry (some (bytes "std_msgs")) (text (bytes "msg/Bool.idl\nmsg/Bool.msg\nREADME\n"))

abbrev packages : List (Option (List Entry))
packages =
    some (std_msgs ∷ entry (some (bytes "empty")) unopened ∷ [])
    ∷ none
    ∷ some (entry (some (bytes "nav")) (text (bytes "srv/Plan.srv\naction/Go.action\n")) ∷ [])
    ∷ []

get_ros_msgs_lem_example :
    (ms : List Bytes) × ((get_ros_msgs packages ≡ ok ms)
      × (Ascending ms × ((x : Bytes) → Has (λ y. y ≡ x) ms ↔ Has (PackageNames x) packages)))
get_ros_msgs_lem_example = get_ros_msgs_lem packages ((tt, (tt, tt)), (tt, ((tt, tt), tt)))

abbrev bool_msg : RosMsg
bool_msg = record { module_name = bytes "std_msgs"; prefix = bytes "msg"; name = bytes "Bool" }

abbrev plan_srv : RosMsg
plan_srv = record { module_name = bytes "nav"; prefix = bytes "srv"; name = bytes "Plan" }

abbrev statistics : RosMsg
statistics = record {
  module_name = bytes "libstatistics_collector";
  prefix = bytes "msg";
  name = bytes "Dummy";
}
