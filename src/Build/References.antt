-- ===== src/Build/References.antt =====
-- The Rust names that the text generated by r2r_msg_gen/src/lib.rs refers to, against the types that
-- build.rs declares. A path is the list of its names, the innermost first.
use mathlib.Core.Path.{subst}
use r2r.Prelude.{
  ℕ, ◌≡◌, refl, sym, List, [], ◌∷◌, Option, none, some, false, ◌==◌, if◌then◌else◌, any, map, arith,
  inl, inr, All, All-mono, All-zip,
}
use r2r.Prelude.Bytes.{Bytes, bytes, same_bytes}
use r2r.Errors.{ok}
use r2r.Common.{RosMsg, BytesMap, as_map}
use r2r.Common.Names.{Kind, in_msg, in_srv, in_action, folder}
use r2r.Common.Sorting.{Has}
use r2r.Common.Members.{members, pick_with, Has-with}
use r2r.Build.{Env, Files, msg_list}
use r2r.Build.Keys.{part}
use r2r.Build.Naming.{Library}
use r2r.Build.Codegen.{Piece, Modules, build}
use r2r.Build.Cutting.{has_underscore}
use r2r.Build.Paths.{RustPath}
use r2r.Build.Walks.{IsWalk, msg_of}
use r2r.Build.Written.{msg_paths, declared_in}
use r2r.Build.Complete.{IsRosName, IsDescribed, build_lem}

-- `l.rsplit_once(c)`.
unfoldable rsplit_once : (c : ℕ) → Bytes → Option (Bytes × Bytes)
rsplit_once c [] = none
rsplit_once c (x ∷ l) = elim (rsplit_once c l) [
  | some (a, b) ↦ some (x ∷ a, b)
  | none ↦ if x == c then some ([], l) else none
]

-- The type of a field that is a message, in `generate_rust_msg`.
unfoldable pub nested_type : (module_name prefix name : Bytes) → RustPath
unfolding rsplit_once
nested_type m p n =
    if same_bytes p (bytes "action")
    then elim (rsplit_once b'_' n) [ some (n1, n2) ↦ n2 ∷ n1 ∷ p ∷ m ∷ [] | none ↦ n ∷ p ∷ m ∷ [] ]
    else n ∷ p ∷ m ∷ []

-- `rustname` of `generate_untyped_helper`, `generate_untyped_service_helper` and
-- `generate_untyped_action_helper`.
abbrev pub message_rustname : RosMsg → RustPath
message_rustname msg = msg.name ∷ msg.prefix ∷ msg.module_name ∷ []

abbrev pub service_rustname : RosMsg → RustPath
service_rustname msg = bytes "Service" ∷ msg.name ∷ msg.prefix ∷ msg.module_name ∷ []

abbrev pub action_rustname : RosMsg → RustPath
action_rustname msg = bytes "Action" ∷ msg.name ∷ msg.prefix ∷ msg.module_name ∷ []

-- The type that a lookup by name refers to for a message.
abbrev pub lookup_path : RosMsg → RustPath
lookup_path msg =
    if same_bytes msg.prefix (bytes "srv")
    then service_rustname msg
    else if same_bytes msg.prefix (bytes "action")
    then action_rustname msg
    else message_rustname msg

-- The type of a field that is a message, as its introspection names it.
pub record FieldType : Type 0 where
  pub module_name : Bytes
  pub prefix : Bytes
  pub name : Bytes

-- The types of a message of the installation that a field can have: the message itself, or the goal,
-- the result and the feedback of an action; a service has none.
abbrev pub field_types : RosMsg → List FieldType
field_types msg =
    let typed : Bytes → FieldType =
      λ name. record { module_name = msg.module_name; prefix = msg.prefix; name = name } in
    if same_bytes msg.prefix (bytes "srv")
    then []
    else if same_bytes msg.prefix (bytes "action")
    then map (λ s. typed (part msg.name s)) (bytes "Goal" ∷ bytes "Result" ∷ bytes "Feedback" ∷ [])
    else typed msg.name ∷ []

abbrev pub path_of_field : FieldType → RustPath
path_of_field f = nested_type f.module_name f.prefix f.name

-- One of the files declares the type.
abbrev pub IsDeclared : List (Bytes × List Piece) → RustPath → Type 0
IsDeclared written path = Has (λ file. Has (λ q. q ≡ path) (declared_in file)) written

rsplit_whole : (s : Bytes) → has_underscore s ≡ false → rsplit_once b'_' s ≡ none
unfolding rsplit_once any
rsplit_whole [] h = refl
rsplit_whole (x ∷ s) h =
    let e : (x == b'_') ≡ false = ground (arith, h) in
    rw (rsplit_once, rsplit_whole s (ground (arith, h)), e) refl

rsplit_part : (n s : Bytes) → has_underscore s ≡ false → rsplit_once b'_' (part n s) ≡ some (n, s)
unfolding rsplit_once
rsplit_part [] s h = rw (rsplit_once, rsplit_whole s h) refl
rsplit_part (x ∷ n) s h = rw (rsplit_once, rsplit_part n s h) refl

nested_part :
    (m n s : Bytes)
    → has_underscore s ≡ false
    → nested_type m (bytes "action") (part n s) ≡ s ∷ n ∷ bytes "action" ∷ m ∷ []
unfolding nested_type
nested_part m n s h = rw (nested_type, rsplit_part n s h) refl

IsIn : RosMsg → RustPath → Type 0
IsIn msg path = Has (λ q. q ≡ path) (msg_paths msg)

AllDeclared : RosMsg → Type 0
AllDeclared msg =
    IsIn msg (lookup_path msg) × All (λ f. IsIn msg (path_of_field f)) (field_types msg)

kind_declared : (m n : Bytes) (k : Kind) → AllDeclared (msg_of m (folder k) n)
unfolding AllDeclared IsIn any nested_type
kind_declared m n in_msg = (inl refl, (inl refl, tt))
kind_declared m n in_srv = (inl refl, tt)
kind_declared m n in_action =
    let at = λ (s : Bytes) (h : has_underscore s ≡ false). nested_part m n s h in
    (
      inl refl,
      (
        inr (inl (sym (at (bytes "Goal") refl))),
        (
          inr (inr (inl (sym (at (bytes "Result") refl)))),
          (inr (inr (inr (inl (sym (at (bytes "Feedback") refl))))), tt),
        ),
      ),
    )

msg_declared : (msg : RosMsg) → IsRosName msg → AllDeclared msg
msg_declared msg (t, ((k, e), u)) =
    let same : msg_of msg.module_name (folder k) msg.name ≡ msg =
      λ i. msg_of msg.module_name (sym e i) msg.name in
    subst AllDeclared same (kind_declared msg.module_name msg.name k)

field_declared :
    (msgs : List RosMsg)
    → All IsRosName msgs
    → (f : FieldType) → Has (λ msg. Has (λ t. t ≡ f) (field_types msg)) msgs
    → Has (λ msg. IsIn msg (path_of_field f)) msgs
unfolding AllDeclared
field_declared msgs names f =
    let declared =
      λ (msg : RosMsg) (h : Has (λ t. t ≡ f) (field_types msg)) (named : IsRosName msg).
        let (t, (same, there)) = pick_with (field_types msg) h (msg_declared msg named).1 in
        subst (λ g. IsIn msg (path_of_field g)) same there in
    λ h. Has-with msgs declared h names

-- The build scripts declare the type that the lookup by name of each message refers to, and the type
-- of every field that is a message of the installation, or the goal, the result or the feedback of
-- one of its actions, if the names are as ROS demands and the C library describes each type by its
-- own names. Nothing is said of a field of a type that is not in the list of messages.
pub references_lem :
    {H : Type 0} (lib : Library H) (walk : BytesMap (BytesMap (List Bytes)) → Modules)
    (files : Files) (env : Env) (msgs : List RosMsg) (fields : List FieldType)
    → msg_list files env ≡ ok msgs
    → All IsRosName msgs
    → All (IsDescribed lib) msgs
    → IsWalk (walk (as_map msgs)) (as_map msgs)
    → All (λ f. Has (λ msg. Has (λ t. t ≡ f) (field_types msg)) msgs) fields
    → (written : List (Bytes × List Piece)) × ((build lib walk files env ≡ ok written)
        × All (λ msg. IsDeclared written (lookup_path msg)) msgs
        × All (λ f. IsDeclared written (path_of_field f)) fields)
unfolding AllDeclared IsIn
references_lem lib walk files env msgs fields read names described walked listed =
    let (written, (e, (nested, paths))) =
      build_lem lib walk files env msgs read names described walked in
    (
      written,
      (
        e,
        All-zip msgs
            (λ msg member named. (paths (lookup_path msg)).1 (
              member (λ x. Has (λ q. q ≡ lookup_path msg) (msg_paths x))
                (msg_declared msg named).0))
            (members msgs) names,
        All-mono fields (λ f h. (paths (path_of_field f)).1 (field_declared msgs names f h)) listed,
      ),
    )
