-- ===== src/Build/Codegen.antt =====
-- The modules that build.rs writes, as the sequence of pieces that it pushes to the text.
use r2r.Prelude.{ℕ, List, [], ◌∷◌, ◌++◌, if◌then◌else◌}
use r2r.Prelude.Bytes.{Bytes, bytes, same_bytes}
use r2r.Errors.{Result, ok, panic, ◌>>=◌}
use r2r.Common.{BytesMap, collect, as_map}
use r2r.Build.{Env, Files, msg_list}
use r2r.Build.Keys.{part, flags_and_msgs, introspection_fns}
use r2r.Build.Naming.{Library, struct_name}

-- A piece of the text: a module is opened, `use` of everything so many modules up, the text of
-- `generate_rust_service`, of `generate_rust_action` or of `generate_rust_msg`, which begins
-- with `pub struct` and the name; a module is closed.
pub data Piece : Type 0 where
  open_mod : Bytes → Piece
  use_super : ℕ → Piece
  rust_service rust_action : (module_name prefix name : Bytes) → Piece
  rust_msg : (struct : Bytes) → (module_name prefix name : Bytes) → Piece
  close_mod : Piece

-- The names of the modules of a package, a prefix each, and the messages under them.
abbrev pub Prefixes : Type 0
Prefixes = List (Bytes × List Bytes)

abbrev pub Modules : Type 0
Modules = List (Bytes × Prefixes)

module _ {H : Type 0} (lib : Library H) (fns : BytesMap Bytes) where
  unfoldable pub generate_rust_msg : (module_name prefix name : Bytes) → Result (List Piece)
  unfolding struct_name
  generate_rust_msg m p n = do s ← struct_name lib fns m p n; ok (rust_msg s m p n ∷ [])

  -- A round of the loop over the services of an action.
  unfoldable pub internal_service : (module_name prefix msg srv : Bytes) → Result (List Piece)
  unfolding generate_rust_msg collect
  internal_service m p msg srv = do
    parts ←
        collect (λ s. generate_rust_msg m p (part (part msg srv) s))
          (bytes "Request" ∷ bytes "Response" ∷ [])
    ok (open_mod srv ∷ use_super 4 ∷ rust_service m p (part msg srv) ∷ (parts ++ close_mod ∷ []))

  unfoldable pub action_pieces : (module_name prefix msg : Bytes) → Result (List Piece)
  unfolding generate_rust_msg internal_service collect
  action_pieces m p msg = do
    types ←
        collect (λ s. generate_rust_msg m p (part msg s))
          (bytes "Goal" ∷ bytes "Result" ∷ bytes "Feedback" ∷ [])
    services ← collect (internal_service m p msg) (bytes "SendGoal" ∷ bytes "GetResult" ∷ [])
    feedback ← generate_rust_msg m p (part msg (bytes "FeedbackMessage"))
    ok (
        open_mod msg
        ∷ use_super 3
        ∷ rust_action m p msg
        ∷ (types ++ (services ++ (feedback ++ close_mod ∷ []))))

  unfoldable pub service_pieces : (module_name prefix msg : Bytes) → Result (List Piece)
  unfolding generate_rust_msg collect
  service_pieces m p msg = do
    parts ←
        collect (λ s. generate_rust_msg m p (part msg s)) (bytes "Request" ∷ bytes "Response" ∷ [])
    ok (open_mod msg ∷ use_super 3 ∷ rust_service m p msg ∷ (parts ++ close_mod ∷ []))

  -- A round of the loop over the prefixes of a package.
  unfoldable pub prefix_pieces : (module_name : Bytes) → Bytes × List Bytes → Result (List Piece)
  unfolding action_pieces service_pieces generate_rust_msg collect
  prefix_pieces m (p, msgs) = do
    inner ←
        (if same_bytes p (bytes "action")
          then collect (action_pieces m p) msgs
          else if same_bytes p (bytes "srv")
          then collect (service_pieces m p) msgs
          else if same_bytes p (bytes "msg")
          then (do types ← collect (generate_rust_msg m p) msgs; ok (use_super 2 ∷ types))
          else panic)
    ok (open_mod p ∷ (inner ++ close_mod ∷ []))

  -- The file of a package: its name and text.
  unfoldable pub module_file : Bytes × Prefixes → Result (List (Bytes × List Piece))
  unfolding prefix_pieces collect
  module_file (m, prefixes) = do
    codegen ← collect (prefix_pieces m) prefixes
    ok ((m, codegen) ∷ [])

  -- The files of all packages.
  unfoldable pub module_files : Modules → Result (List (Bytes × List Piece))
  unfolding module_file collect
  module_files modules = collect module_file modules

-- The two scripts, one after the other, in one environment. `walk` is the order in which the
-- HashMap is walked.
unfoldable pub build :
    {H : Type 0}
    → Library H
    → (walk : BytesMap (BytesMap (List Bytes)) → Modules) → Files
    → Env
    → Result (List (Bytes × List Piece))
unfolding module_files msg_list flags_and_msgs introspection_fns as_map
build lib walk files env = do
  (flags, known) ← flags_and_msgs files env
  msgs ← msg_list files env
  module_files lib (introspection_fns known) (walk (as_map msgs))
