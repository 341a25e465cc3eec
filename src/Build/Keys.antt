-- ===== src/Build/Keys.antt =====
-- r2r_msg_gen/build.rs: the flags for clang, the libraries to link, the headers to include and the
-- table `INTROSPECTION_FNS`. `to_snake_case` of the heck crate is an argument.
use r2r.Prelude.{List, [], ◌∷◌, ◌++◌, none, some, map, if◌then◌else◌}
use r2r.Prelude.Bytes.{Bytes, bytes, same_bytes, split}
use r2r.Errors.{Result, ok, panic, ◌>>=◌}
use r2r.Common.{RosMsg, BytesMap, get_or}
use r2r.Build.{Env, Files, parents, of_packages, of_prefixes}

-- The arguments for clang, and `msg_list`.
unfoldable pub flags_and_msgs : Files → Env → Result (List Bytes × List RosMsg)
unfolding parents of_packages of_prefixes split
flags_and_msgs files env = elim env.cmake_include_dirs [
  | some cmake_includes ↦ do
    let paths = split b':' cmake_includes
    msgs ← of_packages files (parents files paths) (split b':' (get_or env.cmake_idl_packages []))
    ok (map (λ p. bytes "-I" ++ p) paths, msgs)
  | none ↦ elim env.ament_prefix_path [
    | none ↦ panic
    | some ament_prefix_var ↦ do
      let paths = split b':' ament_prefix_var
      msgs ← of_prefixes files paths
      ok (map (λ p. bytes "-I" ++ (p ++ bytes "/include")) paths, msgs)
  ]
]

-- `format!("{}__{}__{}", module, prefix, name)`.
abbrev pub key : (module_name prefix name : Bytes) → Bytes
key m p n = m ++ (bytes "__" ++ (p ++ (bytes "__" ++ n)))

-- A line `m.insert(key, val)` of the written table: the key, and the C function that is called for
-- the value.
pub record Insert : Type 0 where
  pub key_text : Bytes
  pub symbol : Bytes

unfoldable pub insert_of : (module_name prefix name : Bytes) → Insert
insert_of m p n = record {
  key_text = key m p n;
  symbol =
      bytes "rosidl_typesupport_introspection_c__get_message_type_support_handle__" ++ key m p n;
}

-- `format!("{}_{}", name, s)`.
abbrev pub part : (name s : Bytes) → Bytes
part name s = name ++ b'_' ∷ s

-- The lines of one message type.
unfoldable pub inserts : RosMsg → List Insert
unfolding insert_of
inserts msg =
    let insert_part = λ (s : Bytes). insert_of msg.module_name msg.prefix (part msg.name s) in
    let insert_service = λ (srv : Bytes).
      map (λ (s : Bytes). insert_of msg.module_name msg.prefix (part (part msg.name srv) s))
        (bytes "Request" ∷ bytes "Response" ∷ []) in
    if same_bytes msg.prefix (bytes "srv")
    then map insert_part (bytes "Request" ∷ bytes "Response" ∷ [])
    else if same_bytes msg.prefix (bytes "action")
    then map insert_part
        (bytes "Goal" ∷ bytes "Result" ∷ bytes "Feedback" ∷ bytes "FeedbackMessage" ∷ [])
      ++ (insert_service (bytes "SendGoal") ++ insert_service (bytes "GetResult"))
    else insert_of msg.module_name msg.prefix msg.name ∷ []

unfoldable pub all_inserts : List RosMsg → List Insert
unfolding inserts
all_inserts [] = []
all_inserts (msg ∷ msgs) = inserts msg ++ all_inserts msgs

-- The table that the written lines make; a later line replaces the value of a key.
unfoldable pub insert_all : List Insert → BytesMap Bytes → BytesMap Bytes
insert_all [] m = m
insert_all (i ∷ is) m = insert_all is (λ k. if same_bytes i.key_text k then some i.symbol else m k)

-- `INTROSPECTION_FNS`.
unfoldable pub introspection_fns : List RosMsg → BytesMap Bytes
unfolding all_inserts insert_all
introspection_fns msgs = insert_all (all_inserts msgs) (λ k. none)

-- The libraries of one package that are linked.
abbrev pub link_libs : Bytes → List Bytes
link_libs m =
    (m ++ bytes "__rosidl_typesupport_c")
    ∷ (m ++ bytes "__rosidl_typesupport_introspection_c")
    ∷ (m ++ bytes "__rosidl_generator_c")
    ∷ []

-- The headers of one message type that are included.
abbrev pub includes : (to_snake_case : Bytes → Bytes) → RosMsg → List Bytes
includes to_snake_case msg =
    let include_filename = to_snake_case msg.name in
    (msg.module_name ++ b'/' ∷ (msg.prefix ++ b'/' ∷ (include_filename ++ bytes ".h")))
    ∷ (msg.module_name
        ++ b'/'
          ∷ (msg.prefix
              ++ (bytes "/detail/"
                  ++ (include_filename ++ bytes "__rosidl_typesupport_introspection_c.h"))))
    ∷ []
