-- ===== src/Build/Written.antt =====
-- The text that build.rs writes for the packages of a walk.
use mathlib.Core.List.{append-nil}
use mathlib.Core.Logic.{◌↔◌}
use mathlib.Core.Path.{subst}
use r2r.Prelude.{
  ◌≡◌, refl, ap, sym, ◌∙◌, List, [], ◌∷◌, ◌++◌, none, some, false, if◌then◌else◌, arith, ◌⊎◌, All,
  All-mono,
}
use r2r.Prelude.Bytes.{Bytes, bytes, same_bytes}
use r2r.Errors.{Result, ok}
use r2r.Common.{RosMsg, BytesMap, collect}
use r2r.Common.Names.{Kind, in_msg, in_srv, in_action, folder}
use r2r.Common.Sorting.{Has, Has-append}
use r2r.Build.Naming.{Library}
use r2r.Build.Codegen.{
  Piece, open_mod, use_super, close_mod, Modules, prefix_pieces, module_file, module_files,
}
use r2r.Build.Cutting.{has_underscore}
use r2r.Build.Paths.{
  RustPath, scan, scan-append, type_paths, Writes, AreNamed, type_pieces, type_pieces-Writes,
}
use r2r.Build.Walks.{msg_of, HasInWalk}

abbrev concat_map : {A B : Type 0} → (A → List B) → List A → List B
concat_map f [] = []
concat_map f (a ∷ xs) = f a ++ concat_map f xs

Has-concat_map :
    {A B : Type 0} (P : B → Type 0) (f : A → List B) (xs : List A)
    → Has P (concat_map f xs) ↔ Has (λ a. Has P (f a)) xs
Has-concat_map P f [] = (λ h. h, λ h. h)
Has-concat_map P f (a ∷ xs) =
    ground (arith, Has-append P (f a) (concat_map f xs), Has-concat_map P f xs)

collect-Writes :
    {A : Type 0} (st : RustPath) (f : A → Result (List Piece)) (paths : A → List RustPath)
    (xs : List A)
    → All (λ a. Writes st (f a) (paths a)) xs
    → Writes st (collect f xs) (concat_map paths xs)
unfolding collect scan
collect-Writes st f paths [] h = ([], (refl, refl))
collect-Writes st f paths (a ∷ xs) ((ps, (e, s)), h) =
    let (qs, (g, t)) = collect-Writes st f paths xs h in
    (
      ps ++ qs,
      (rw (collect, e, g) refl, scan-append st ps qs (paths a) (concat_map paths xs) st st s t),
    )

-- The kind that the scripts take a folder for.
abbrev pub kind_of : Bytes → Kind
kind_of p =
    if same_bytes p (bytes "srv")
    then in_srv
    else if same_bytes p (bytes "action")
    then in_action
    else in_msg

-- The paths of the types that a message of the list stands for.
abbrev pub msg_paths : RosMsg → List RustPath
msg_paths msg = type_paths (kind_of msg.prefix) msg.module_name msg.name

-- The paths of the messages under a prefix.
abbrev pub prefix_paths : Bytes → Bytes × List Bytes → List RustPath
prefix_paths m (p, ns) = concat_map (λ n. msg_paths (msg_of m p n)) ns

close_lem :
    (n : Bytes) (st : RustPath) (ps : List Piece) (paths : List RustPath)
    → scan (n ∷ st) ps ≡ some (paths, n ∷ st)
    → scan (n ∷ st) (ps ++ close_mod ∷ []) ≡ some (paths, st)
unfolding scan
close_lem n st ps paths e =
    scan-append (n ∷ st) ps (close_mod ∷ []) paths [] (n ∷ st) st e refl
    ∙ ap (λ l. some (l, st)) (append-nil paths)

module _ {H : Type 0} (lib : Library H) (fns : BytesMap Bytes) where
  -- The type is one of the three kinds, has no underscore and its structs get their names.
  abbrev pub IsReady : RosMsg → Type 0
  IsReady msg =
      ((k : Kind) × (msg.prefix ≡ folder k))
      × ((has_underscore msg.name ≡ false) × AreNamed lib fns msg)

  wrap :
      (m : Bytes) (k : Kind) (ns : List Bytes) (paths : List RustPath)
      → Writes (folder k ∷ m ∷ []) (collect (type_pieces lib fns k m) ns) paths
      → Writes (m ∷ []) (prefix_pieces lib fns m (folder k, ns)) paths
  unfolding prefix_pieces scan
  wrap m in_msg ns paths (ps, (e, s)) =
      let p = folder in_msg in
      (
        open_mod p ∷ use_super 2 ∷ (ps ++ close_mod ∷ []),
        (rw (prefix_pieces, e) refl, close_lem p (m ∷ []) ps paths s),
      )
  wrap m in_srv ns paths (ps, (e, s)) =
      let p = folder in_srv in
      (
        open_mod p ∷ (ps ++ close_mod ∷ []),
        (rw (prefix_pieces, e) refl, close_lem p (m ∷ []) ps paths s),
      )
  wrap m in_action ns paths (ps, (e, s)) =
      let p = folder in_action in
      (
        open_mod p ∷ (ps ++ close_mod ∷ []),
        (rw (prefix_pieces, e) refl, close_lem p (m ∷ []) ps paths s),
      )

  kind_of-folder : (k : Kind) → kind_of (folder k) ≡ k
  kind_of-folder in_msg = refl
  kind_of-folder in_srv = refl
  kind_of-folder in_action = refl

  written_under :
      (m : Bytes) (k : Kind) (ns : List Bytes)
      → All (λ n. IsReady (msg_of m (folder k) n)) ns
      → Writes (m ∷ []) (prefix_pieces lib fns m (folder k, ns)) (prefix_paths m (folder k, ns))
  written_under m k ns h =
      subst
        (λ j.
          Writes (m ∷ []) (prefix_pieces lib fns m (folder k, ns)) (concat_map (type_paths j m) ns))
        (sym (kind_of-folder k))
        (wrap m k ns (concat_map (type_paths k m) ns) (
          collect-Writes (folder k ∷ m ∷ []) (type_pieces lib fns k m) (type_paths k m) ns
            (All-mono ns (λ n r. type_pieces-Writes lib fns k m n r.1.0 r.1.1) h)))

  prefix_pieces-Writes :
      (m p : Bytes) (ns : List Bytes)
      → ((n : Bytes) × ((others : List Bytes) × (ns ≡ n ∷ others)))
      → All (λ n. IsReady (msg_of m p n)) ns
      → Writes (m ∷ []) (prefix_pieces lib fns m (p, ns)) (prefix_paths m (p, ns))
  prefix_pieces-Writes m p ns (n, (others, e)) h =
      let (k, d) = (rw e at h).0.0 in
      subst
        (λ q.
          All (λ x. IsReady (msg_of m q x)) ns
          → Writes (m ∷ []) (prefix_pieces lib fns m (q, ns)) (prefix_paths m (q, ns)))
        (sym d) (written_under m k ns) h

-- What a file declares, and that its modules are closed and every `use` of it goes up to the root.
abbrev pub declared_in : Bytes × List Piece → List RustPath
declared_in (m, ps) = elim (scan (m ∷ []) ps) [ none ↦ [] | some (declared, left) ↦ declared ]

abbrev pub IsNested : Bytes × List Piece → Type 0
IsNested (m, ps) = scan (m ∷ []) ps ≡ some (declared_in (m, ps), m ∷ [])

-- Some message of the entries stands for the path.
abbrev pub PathInWalk : RustPath → Modules → Type 0
PathInWalk path = HasInWalk (λ msg. Has (λ q. q ≡ path) (msg_paths msg))

module _ {H : Type 0} (lib : Library H) (fns : BytesMap Bytes) where
  -- There is a name under the prefix, and every type is ready.
  abbrev pub ArePrefixesReady : Bytes × List (Bytes × List Bytes) → Type 0
  ArePrefixesReady (m, prefixes) =
      All
        (λ prefix.
          ((n : Bytes) × ((others : List Bytes) × (prefix.1 ≡ n ∷ others)))
          × All (λ n. IsReady lib fns (msg_of m prefix.0 n)) prefix.1)
        prefixes

  file_written :
      (m : Bytes) (prefixes : List (Bytes × List Bytes))
      → ArePrefixesReady (m, prefixes)
      → (ps : List Piece) × ((module_file lib fns (m, prefixes) ≡ ok ((m, ps) ∷ []))
          × (scan (m ∷ []) ps ≡ some (concat_map (prefix_paths m) prefixes, m ∷ [])))
  unfolding module_file
  file_written m prefixes h =
      let (ps, (e, s)) =
        collect-Writes (m ∷ []) (prefix_pieces lib fns m) (prefix_paths m) prefixes (
          All-mono prefixes (λ prefix r. prefix_pieces-Writes lib fns m prefix.0 prefix.1 r.0 r.1)
            h) in
      (ps, (rw (module_file, e) refl, s))

  Has-prefixes :
      (m : Bytes) (prefixes : List (Bytes × List Bytes)) (path : RustPath)
      → Has (λ q. q ≡ path) (concat_map (prefix_paths m) prefixes)
        ↔ Has
            (λ (prefix : Bytes × List Bytes).
              Has (λ n. Has (λ q. q ≡ path) (msg_paths (msg_of m prefix.0 n))) prefix.1)
            prefixes
  Has-prefixes m [] path = (λ h. h, λ h. h)
  Has-prefixes m ((p, ns) ∷ prefixes) path = ground (
    arith,
    Has-append (λ q. q ≡ path) (prefix_paths m (p, ns)) (concat_map (prefix_paths m) prefixes),
    Has-concat_map (λ q. q ≡ path) (λ n. msg_paths (msg_of m p n)) ns,
    Has-prefixes m prefixes path,
  )

  pub files_written :
      (modules : Modules)
      → All ArePrefixesReady modules
      → (files : List (Bytes × List Piece)) × ((module_files lib fns modules ≡ ok files)
          × (All IsNested files
              × ((path : RustPath)
                  → Has (λ file. Has (λ q. q ≡ path) (declared_in file)) files
                    ↔ PathInWalk path modules)))
  unfolding module_files collect
  files_written [] h = ([], (refl, (tt, λ path. (λ q. q, λ q. q))))
  files_written ((m, prefixes) ∷ modules) (r, h) =
      let (files, (e, (nested, paths))) = files_written modules h in
      let rest : collect (module_file lib fns) modules ≡ ok files = e in
      let (ps, (f, s)) = file_written m prefixes r in
      let d : declared_in (m, ps) ≡ concat_map (prefix_paths m) prefixes =
        rw (declared_in, s) refl in
      (
        (m, ps) ∷ files,
        (
          rw (f, rest) refl,
          (
            (s ∙ ap (λ l. some (l, m ∷ [])) (sym d), nested),
            λ path.
                let here = Has-prefixes m prefixes path in
                subst
                  (λ l.
                    (Has (λ q. q ≡ path) l
                      ⊎ Has (λ file. Has (λ q. q ≡ path) (declared_in file)) files)
                    ↔ PathInWalk path ((m, prefixes) ∷ modules))
                  (sym d) (ground (arith, here, paths path)),
          ),
        ),
      )
