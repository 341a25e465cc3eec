-- ===== src/Build.antt =====
-- The build scripts build.rs and r2r_msg_gen/build.rs: what they read of the environment and the
-- installation, the table of introspection functions, and the tree of Rust modules that is
-- written. What the file system holds, `Path::parent` and the order in which a HashMap is walked
-- are arguments; what is printed for cargo is left out.
pub mod Keys
pub mod Naming
pub mod Listed
pub mod Paths
pub mod Walks
pub mod Written
pub mod Complete
pub mod References
pub mod Inserted
pub mod Cutting
pub mod Codegen
use r2r.Prelude.{List, [], ◌∷◌, Option, none, some, map, any, retain}
use r2r.Prelude.Bytes.{Bytes, same_bytes, split}
use r2r.Errors.{Result, ok, panic, ◌>>=◌}
use r2r.Common.{RosMsg, Entry, get_ros_msgs, parse_msgs, get_or}

-- The variables of the environment that the scripts read.
pub record Env : Type 0 where
  pub cmake_include_dirs : Option Bytes
  pub cmake_idl_packages : Option Bytes
  pub ament_prefix_path : Option Bytes

-- `Path::parent`, and the folder of the index below a path, `none` if it cannot be read.
pub record Files : Type 0 where
  pub parent : Bytes → Option Bytes
  pub read_dir : Bytes → Option (List Entry)

-- `flat_map(|i| Path::new(i).parent())`.
unfoldable pub parents : Files → List Bytes → List Bytes
parents files [] = []
parents files (i ∷ paths) =
    let rest = parents files paths in elim (files.parent i) [ none ↦ rest | some p ↦ p ∷ rest ]

-- The messages of packages, without those of packages that `deps` does not have.
unfoldable pub of_packages : Files → (packages deps : List Bytes) → Result (List RosMsg)
unfolding get_ros_msgs parse_msgs any retain
of_packages files packages deps = do
  msgs ← get_ros_msgs (map files.read_dir packages)
  ok (retain (λ (m : RosMsg). any (same_bytes m.module_name) deps) (parse_msgs msgs))

-- The messages of the prefixes of an installation.
unfoldable pub of_prefixes : Files → List Bytes → Result (List RosMsg)
unfolding get_ros_msgs parse_msgs
of_prefixes files paths = do msgs ← get_ros_msgs (map files.read_dir paths); ok (parse_msgs msgs)

-- `msg_list` of build.rs.
unfoldable pub msg_list : Files → Env → Result (List RosMsg)
unfolding parents of_packages of_prefixes split
msg_list files env = elim env.cmake_include_dirs [
  | some cmake_includes ↦
      of_packages files (parents files (split b':' cmake_includes))
        (split b':' (get_or env.cmake_idl_packages []))
  | none ↦ elim env.ament_prefix_path [
    | none ↦ panic
    | some ament_prefix_var ↦ of_prefixes files (split b':' ament_prefix_var)
  ]
]
