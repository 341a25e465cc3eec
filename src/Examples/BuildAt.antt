-- ===== src/Examples/BuildAt.antt =====
-- build.rs and r2r_msg_gen/build.rs on an installation with one action.
use r2r.Prelude.{
  ◌≡◌, refl, List, [], ◌∷◌, ◌++◌, none, some, false, Bool-cases, inl, inr, ◌↔◌, All, any,
  if◌then◌else◌,
}
use r2r.Prelude.Bytes.{Bytes, bytes, same_bytes, same_bytes_sound}
use r2r.Errors.{ok}
use r2r.Common.{RosMsg, entry, text, BytesMap, as_map, add_all, add_to_map}
use r2r.Common.Names.{in_action}
use r2r.Common.Sorting.{Has}
use r2r.Build.{Env, Files, msg_list}
use r2r.Build.Keys.{part, flags_and_msgs}
use r2r.Build.Naming.{Library, split_from}
use r2r.Build.Codegen.{Piece, Modules, build}
use r2r.Build.Listed.{IsKnown, msg_list_lem}
use r2r.Build.Paths.{RustPath}
use r2r.Build.Written.{declared_in, IsNested, msg_paths}
use r2r.Build.Walks.{IsWalk}
use r2r.Build.Complete.{IsRosName, IsDescribed, build_lem}
use r2r.Build.References.{FieldType, lookup_path, path_of_field, IsDeclared, references_lem}

abbrev files : Files
files = record {
  parent = λ p. none;
  read_dir = λ p. some (entry (some (bytes "nav")) (text (bytes "action/Go.action\n")) ∷ []);
}

abbrev env : Env
env = record {
  cmake_include_dirs = none;
  cmake_idl_packages = none;
  ament_prefix_path = some (bytes "/opt/ros");
}

abbrev go_action : RosMsg
go_action = record { module_name = bytes "nav"; prefix = bytes "action"; name = bytes "Go" }

msg_list_lem_example :
    (msgs : List RosMsg) × ((msg_list files env ≡ ok msgs)
      × (((flags : List Bytes) × (flags_and_msgs files env ≡ ok (flags, msgs))) × All IsKnown msgs))
unfolding any
msg_list_lem_example = msg_list_lem files env (λ p. ((tt, tt), (refl, tt))) (inr (λ e. cc))

-- The parts of a symbol.
abbrev namespace_in : List Bytes → Bytes
namespace_in (a ∷ b ∷ m ∷ p ∷ ws) = m ++ (bytes "__" ++ p)
namespace_in _ = []

abbrev name_in : List Bytes → Bytes
name_in (a ∷ b ∷ m ∷ p ∷ n ∷ ws) = n
name_in _ = []

unfoldable symbols : Library Bytes
unfolding split_from
symbols = record {
  call = λ s. s;
  message_namespace = λ s. namespace_in (split_from false s);
  message_name = λ s. name_in (split_from false s);
}

abbrev walk : BytesMap (BytesMap (List Bytes)) → Modules
walk f = (bytes "nav", (bytes "action", bytes "Go" ∷ []) ∷ []) ∷ []

go_listed : msg_list files env ≡ ok (go_action ∷ [])
unfolding msg_list
go_listed = refl

only :
    {V : Type 0} (n : Bytes) (w : V) (k : Bytes) (v : V)
    → (if same_bytes n k then some w else none) ≡ some v
    → n ≡ k
only n w k v e = elim (Bool-cases (same_bytes n k)) [
  | inl c ↦ same_bytes_sound n k c
  | inr c ↦ cc (rw c at e)
]

abbrev under_action : BytesMap (List Bytes)
under_action p = if same_bytes (bytes "action") p then some (bytes "Go" ∷ []) else none

go_walked : IsWalk (walk (as_map (go_action ∷ []))) (as_map (go_action ∷ []))
unfolding as_map add_all add_to_map
go_walked = (
  (
    (
      under_action,
      (
        refl,
        (
          ((bytes "Go" ∷ [], (refl, refl)), tt),
          λ k v e. inl (only (bytes "action") (bytes "Go" ∷ []) k v e),
        ),
      ),
    ),
    tt,
  ),
  λ k v e. inl (only (bytes "nav") under_action k v e),
)

go_named : All IsRosName (go_action ∷ [])
unfolding any
go_named = ((refl, ((in_action, refl), refl)), tt)

go_action-IsDescribed : All (IsDescribed symbols) (go_action ∷ [])
unfolding symbols
go_action-IsDescribed = (
  (
    (refl, refl),
    (
      (refl, refl),
      (
        (refl, refl),
        ((refl, refl), ((refl, refl), ((refl, refl), ((refl, refl), ((refl, refl), tt))))),
      ),
    ),
  ),
  tt,
)

build_lem_example :
    (written : List (Bytes × List Piece)) × ((build symbols walk files env ≡ ok written)
      × (All IsNested written
          × ((path : RustPath)
              → Has (λ file. Has (λ q. q ≡ path) (declared_in file)) written
                ↔ Has (λ msg. Has (λ q. q ≡ path) (msg_paths msg)) (go_action ∷ []))))
build_lem_example =
    build_lem symbols walk files env (go_action ∷ []) go_listed go_named go_action-IsDescribed
      go_walked

abbrev go_goal : FieldType
go_goal = record {
  module_name = bytes "nav";
  prefix = bytes "action";
  name = part (bytes "Go") (bytes "Goal");
}

references_lem_example :
    (written : List (Bytes × List Piece)) × ((build symbols walk files env ≡ ok written)
      × All (λ msg. IsDeclared written (lookup_path msg)) (go_action ∷ [])
      × All (λ f. IsDeclared written (path_of_field f)) (go_goal ∷ []))
references_lem_example =
    references_lem symbols walk files env (go_action ∷ []) (go_goal ∷ []) go_listed go_named
      go_action-IsDescribed go_walked (inl (inl refl), tt)
