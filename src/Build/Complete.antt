-- ===== src/Build/Complete.antt =====
-- The two build scripts, one after the other: what is generated for the messages of an
-- installation.
use mathlib.Core.Logic.{◌↔◌}
use mathlib.Core.Path.{subst}
use r2r.Prelude.{
  ◌≡◌, refl, List, [], ◌∷◌, ◌++◌, true, false, ◌&&◌, any, arith, Bool-cases, inl, inr, All,
  All-mono, All-zip,
}
use r2r.Prelude.Bytes.{Bytes, bytes, same_bytes, same_bytes_sound}
use r2r.Errors.{ok}
use r2r.Common.{RosMsg, BytesMap, as_map}
use r2r.Common.Names.{Kind, in_msg, in_srv, in_action, folder}
use r2r.Common.Sorting.{Has}
use r2r.Common.Members.{members}
use r2r.Common.Grouping.{names_in}
use r2r.Build.{Env, Files, msg_list}
use r2r.Build.Keys.{key, introspection_fns}
use r2r.Build.Naming.{Library}
use r2r.Build.Codegen.{Piece, Modules, build}
use r2r.Build.Cutting.{is_package_name, has_underscore, struct_name_lem}
use r2r.Build.Listed.{flags_and_msgs_lem}
use r2r.Build.Inserted.{type_names, symbol_of, introspection_fns_lem}
use r2r.Build.Paths.{RustPath}
use r2r.Build.Walks.{IsWalk, msg_of, walk_names, HasInWalk-Has}
use r2r.Build.Written.{IsReady, msg_paths, declared_in, IsNested, ArePrefixesReady, files_written}

-- The package, the folder and the name are as ROS demands.
abbrev pub IsRosName : RosMsg → Type 0
IsRosName msg =
    (is_package_name msg.module_name ≡ true)
    × (((k : Kind) × (msg.prefix ≡ folder k)) × (has_underscore msg.name ≡ false))

-- The function of the C library for a type of the message describes that type.
abbrev pub IsDescribed : {H : Type 0} → Library H → RosMsg → Type 0
IsDescribed lib msg =
    All
      (λ n.
        let ptr = lib.call (symbol_of (key msg.module_name msg.prefix n)) in
        (lib.message_namespace ptr ≡ msg.module_name ++ (bytes "__" ++ msg.prefix))
        × (lib.message_name ptr ≡ n))
      (type_names msg)

plain_folder : (k : Kind) (p : Bytes) → p ≡ folder k → has_underscore p ≡ false
unfolding any
plain_folder in_msg p e = rw e refl
plain_folder in_srv p e = rw e refl
plain_folder in_action p e = rw e refl

module _ {H : Type 0} (lib : Library H) (msgs : List RosMsg) where
  ready :
      (msg : RosMsg)
      → ((R : RosMsg → Type 0) → R msg → Has R msgs)
      → IsRosName msg
      → IsDescribed lib msg
      → IsReady lib (introspection_fns msgs) msg
  ready msg member (t, ((k, e), u)) d = (
    (k, e),
    (
      u,
      All-zip (type_names msg)
          (λ n f c.
            let q = key msg.module_name msg.prefix n in
            struct_name_lem lib (introspection_fns msgs) msg.module_name msg.prefix n (symbol_of q)
              ((introspection_fns_lem msgs q (symbol_of q)).1
                (member _ (f (λ x. key msg.module_name msg.prefix x ≡ q) refl), refl))
              t (plain_folder k msg.prefix e) c.0 c.1)
          (members (type_names msg)) d,
    ),
  )

  every_ready :
      All IsRosName msgs
      → All (IsDescribed lib) msgs
      → All (IsReady lib (introspection_fns msgs)) msgs
  every_ready a b =
      All-zip msgs (λ msg g d. g d) (All-zip msgs (λ msg f r. ready msg f r) (members msgs) a) b

All-names_in :
    (P : RosMsg → Type 0) (m p : Bytes) (msgs : List RosMsg)
    → All P msgs
    → All (λ n. P (msg_of m p n)) (names_in m p msgs)
All-names_in P m p [] h = tt
All-names_in P m p (msg ∷ msgs) (q, h) =
    elim (Bool-cases (same_bytes msg.module_name m && same_bytes msg.prefix p)) [
      | inr c ↦ rw c (All-names_in P m p msgs h)
      | inl c ↦
          let e = same_bytes_sound msg.module_name m (ground (arith, c)) in
          let f = same_bytes_sound msg.prefix p (ground (arith, c)) in
          let same : msg ≡ msg_of m p msg.name = λ i. msg_of (e i) (f i) msg.name in
          rw c (subst P same q, All-names_in P m p msgs h)
    ]

module _ {H : Type 0} (lib : Library H) (fns : BytesMap Bytes) where
  walk_ready :
      (msgs : List RosMsg) (modules : Modules)
      → IsWalk modules (as_map msgs)
      → All (IsReady lib fns) msgs
      → All (ArePrefixesReady lib fns) modules
  walk_ready msgs modules walk h =
      All-mono modules
        (λ pkg prefixes.
          All-mono pkg.1
            (λ prefix named. (
              named.1,
              subst (λ ns. All (λ n. IsReady lib fns (msg_of pkg.0 prefix.0 n)) ns) named.0
                  (All-names_in (IsReady lib fns) pkg.0 prefix.0 msgs h),
            ))
            prefixes)
        (walk_names msgs modules walk)

-- If the messages that the scripts read have names as ROS demands, the C library describes each
-- of their types by its own names, and the HashMap is walked in any order, then the scripts do
-- not panic for a name, and write files whose modules are closed and whose every `use` goes up to the
-- root; a path is declared in a file if and only if it is that of a type of a message.
pub build_lem :
    {H : Type 0} (lib : Library H) (walk : BytesMap (BytesMap (List Bytes)) → Modules)
    (files : Files) (env : Env) (msgs : List RosMsg)
    → msg_list files env ≡ ok msgs
    → All IsRosName msgs
    → All (IsDescribed lib) msgs
    → IsWalk (walk (as_map msgs)) (as_map msgs)
    → (written : List (Bytes × List Piece)) × ((build lib walk files env ≡ ok written)
        × (All IsNested written
            × ((path : RustPath)
                → Has (λ file. Has (λ q. q ≡ path) (declared_in file)) written
                  ↔ Has (λ msg. Has (λ q. q ≡ path) (msg_paths msg)) msgs)))
unfolding build
build_lem lib walk files env msgs read names described walked =
    let fns = introspection_fns msgs in
    let modules = walk (as_map msgs) in
    let (flags, e) = flags_and_msgs_lem files env msgs read in
    let (written, (f, (nested, paths))) =
      files_written lib fns modules
        (walk_ready lib fns msgs modules walked (every_ready lib msgs names described)) in
    (
      written,
      (
        rw (build, e, read, f) refl,
        (
          nested,
          λ path. ground (
            arith,
            paths path,
            HasInWalk-Has (λ msg. Has (λ q. q ≡ path) (msg_paths msg)) msgs modules walked,
          ),
        ),
      ),
    )
