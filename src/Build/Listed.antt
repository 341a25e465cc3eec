-- ===== src/Build/Listed.antt =====
-- The list of messages that the two build scripts read.
use mathlib.Core.List.{append_assoc}
use r2r.Prelude.{
  ◌≡◌, ◌≢◌, refl, ap, sym, ◌∙◌, List, [], ◌∷◌, ◌++◌, Option, none, some, Option-cases, Bool, map,
  retain, any, Bool-cases, inl, inr, ◌⊎◌, All, All-mono,
}
use r2r.Prelude.Bytes.{Bytes, bytes, same_bytes, split}
use r2r.Errors.{Result, ok}
use r2r.Common.{
  RosMsg, Entry, broken, entry, unopened, unreadable, text, get_ros_msgs, parse_msg, parse_all,
  parse_msgs, get_or, lines,
}
use r2r.Common.Names.{Kind, in_msg, in_srv, in_action, folder}
use r2r.Common.Members.{Has-pick, pick_with, members}
use r2r.Common.Index.{AllReadable, PackageNames, EntryNames, LineNames, get_ros_msgs_lem}
use r2r.Common.Parsing.{Undivided, split_first}
use r2r.Build.{Env, Files, parents, of_packages, of_prefixes, msg_list}
use r2r.Build.Keys.{flags_and_msgs}

-- The script of r2r_msg_gen reads the same messages.
pub flags_and_msgs_lem :
    (files : Files) (env : Env) (msgs : List RosMsg)
    → msg_list files env ≡ ok msgs
    → (flags : List Bytes) × (flags_and_msgs files env ≡ ok (flags, msgs))
unfolding msg_list flags_and_msgs
flags_and_msgs_lem files env msgs e = elim (Option-cases env.cmake_include_dirs) [
  | inr (includes, f) ↦ (
    map (λ p. bytes "-I" ++ p) (split b':' includes),
    rw (flags_and_msgs, f, rw (msg_list, f) at e) refl,
  )
  | inl f ↦ elim (Option-cases env.ament_prefix_path) [
    | inl g ↦ cc (rw (msg_list, f, g) at e)
    | inr (paths, g) ↦ (
      map (λ p. bytes "-I" ++ (p ++ bytes "/include")) (split b':' paths),
      rw (flags_and_msgs, f, g, rw (msg_list, f, g) at e) refl,
    )
  ]
]

-- The file is a name in a folder, so it has no slash.
abbrev pub IsFileName : Entry → Type 0
IsFileName broken = Unit
IsFileName (entry none c) = Unit
IsFileName (entry (some f) c) = Undivided f

abbrev pub AreFileNames : Option (List Entry) → Type 0
AreFileNames none = Unit
AreFileNames (some entries) = All IsFileName entries

abbrev pub IsKnown : RosMsg → Type 0
IsKnown msg = (k : Kind) × (msg.prefix ≡ folder k)

second_part :
    (l m p : Bytes) (ws : List Bytes) (msg : RosMsg)
    → split b'/' l ≡ m ∷ p ∷ ws
    → parse_msg l ≡ some msg
    → msg.prefix ≡ p
unfolding parse_msg
second_part l m p [] msg h e = cc (rw (parse_msg, h) at e)
second_part l m p (n ∷ ws) msg h e =
    let f : record { module_name = m; prefix = p; name = n } ≡ msg = cc (rw (parse_msg, h) at e) in
    ap (λ (m : RosMsg). m.prefix) (sym f)

folder-Undivided : (k : Kind) → Undivided (folder k)
unfolding any
folder-Undivided in_msg = refl
folder-Undivided in_srv = refl
folder-Undivided in_action = refl

prefix_parsed :
    (f n : Bytes) (k : Kind) (msg : RosMsg)
    → Undivided f
    → parse_msg (f ++ (b'/' ∷ (folder k ++ b'/' ∷ []) ++ n)) ≡ some msg
    → msg.prefix ≡ folder k
prefix_parsed f n k msg u e =
    let l = (folder k ++ b'/' ∷ []) ++ n in
    second_part (f ++ b'/' ∷ l) f (folder k) (split b'/' n) msg
      (split_first b'/' f l u
        ∙ ap (λ q. f ∷ q)
            (ap (split b'/') (append_assoc (folder k) (b'/' ∷ []) n)
              ∙ split_first b'/' (folder k) n (folder-Undivided k)))
      e

-- Whatever is parsed from the name has a known prefix.
abbrev GivesKnown : Bytes → Type 0
GivesKnown x = (msg : RosMsg) → parse_msg x ≡ some msg → IsKnown msg

entry_known : (x : Bytes) (e : Entry) → EntryNames x e → IsFileName e → GivesKnown x
entry_known x broken h u msg e = absurd h
entry_known x (entry none c) h u msg e = absurd h
entry_known x (entry (some f) unopened) h u msg e = absurd h
entry_known x (entry (some f) unreadable) h u msg e = absurd h
entry_known x (entry (some f) (text s)) h u msg e =
    let (l, ((k, (n, (d, named))), put)) = Has-pick (LineNames x f) (lines s) h in
    (k, prefix_parsed f n k msg u (ap parse_msg named ∙ e))

package_known :
    (x : Bytes) (p : Option (List Entry)) → PackageNames x p → AreFileNames p → GivesKnown x
package_known x none h u = absurd h
package_known x (some entries) h u =
    let (e, (named, f)) = pick_with entries h u in entry_known x e named f

parse_all-IsKnown : (xs : List Bytes) → All GivesKnown xs → All IsKnown (parse_all xs)
unfolding parse_all
parse_all-IsKnown [] h = tt
parse_all-IsKnown (x ∷ xs) (g, h) = elim (Option-cases (parse_msg x)) [
  | inl e ↦ rw (parse_all, e) (parse_all-IsKnown xs h)
  | inr (msg, e) ↦ rw (parse_all, e) (g msg e, parse_all-IsKnown xs h)
]

All-retain :
    {A : Type 0} (P : A → Type 0) (f : A → Bool) (xs : List A) → All P xs → All P (retain f xs)
unfolding retain
All-retain P f [] h = tt
All-retain P f (x ∷ xs) (p, h) = elim (Bool-cases (f x)) [
  | inl e ↦ rw (retain, e) (p, All-retain P f xs h)
  | inr e ↦ rw (retain, e) (All-retain P f xs h)
]

-- Every folder of the index can be read, and holds files.
abbrev pub IsIndexReadable : Files → Type 0
IsIndexReadable files =
    (path : Bytes) → AllReadable (files.read_dir path) × AreFileNames (files.read_dir path)

-- The code returns messages, all of a known kind.
abbrev pub ListsKnown : Result (List RosMsg) → Type 0
ListsKnown r = (msgs : List RosMsg) × ((r ≡ ok msgs) × All IsKnown msgs)

module _ (files : Files) (readable : IsIndexReadable files) where
  All-over :
      (P : Option (List Entry) → Type 0) (paths : List Bytes)
      → ((path : Bytes) → P (files.read_dir path))
      → All P (map files.read_dir paths)
  All-over P [] f = tt
  All-over P (path ∷ paths) f = (f path, All-over P paths f)

  parse_msgs-IsKnown :
      (paths : List Bytes)
      → (ms : List Bytes) × ((get_ros_msgs (map files.read_dir paths) ≡ ok ms)
          × All IsKnown (parse_msgs ms))
  unfolding parse_msgs
  parse_msgs-IsKnown paths =
      let dirs = map files.read_dir paths in
      let (ms, (e, (ascending, named))) =
        get_ros_msgs_lem dirs (All-over AllReadable paths (λ p. (readable p).0)) in
      let known =
        All-mono ms
          (λ x put.
            let (dir, (h, names)) =
              pick_with dirs ((named x).0 (put (λ y. y ≡ x) refl))
                (All-over AreFileNames paths (λ p. (readable p).1)) in
            package_known x dir h names)
          (members ms) in
      (ms, (e, All-retain IsKnown _ (parse_all ms) (parse_all-IsKnown ms known)))

  prefixes_known : (paths : List Bytes) → ListsKnown (of_prefixes files paths)
  unfolding of_prefixes
  prefixes_known paths =
      let (ms, (e, known)) = parse_msgs-IsKnown paths in
      (parse_msgs ms, (rw (of_prefixes, e) refl, known))

  packages_known : (packages deps : List Bytes) → ListsKnown (of_packages files packages deps)
  unfolding of_packages
  packages_known packages deps =
      let (ms, (e, known)) = parse_msgs-IsKnown packages in
      let wanted = λ (m : RosMsg). any (same_bytes m.module_name) deps in
      (
        retain wanted (parse_msgs ms),
        (rw (of_packages, e) refl, All-retain IsKnown wanted (parse_msgs ms) known),
      )

  list_known :
      (env : Env)
      → (env.cmake_include_dirs ≢ none) ⊎ (env.ament_prefix_path ≢ none)
      → ListsKnown (msg_list files env)
  unfolding msg_list
  list_known env set = elim (Option-cases env.cmake_include_dirs) [
    | inr (includes, f) ↦
        rw (msg_list, f)
          (packages_known (parents files (split b':' includes))
            (split b':' (get_or env.cmake_idl_packages [])))
    | inl f ↦ elim (Option-cases env.ament_prefix_path) [
      | inr (paths, g) ↦ rw (msg_list, f, g) (prefixes_known (split b':' paths))
      | inl g ↦ absurd (elim set [ inl h ↦ h f | inr h ↦ h g ])
    ]
  ]

-- If every folder of the index can be read, and the environment has one of the two variables, both
-- scripts read the same messages, without a panic, and all are below `msg`, `srv` or `action`.
pub msg_list_lem :
    (files : Files) (env : Env)
    → IsIndexReadable files
    → (env.cmake_include_dirs ≢ none) ⊎ (env.ament_prefix_path ≢ none)
    → (msgs : List RosMsg) × ((msg_list files env ≡ ok msgs)
        × (((flags : List Bytes) × (flags_and_msgs files env ≡ ok (flags, msgs)))
            × All IsKnown msgs))
msg_list_lem files env readable set =
    let (msgs, (e, known)) = list_known files readable env set in
    (msgs, (e, (flags_and_msgs_lem files env msgs e, known)))
