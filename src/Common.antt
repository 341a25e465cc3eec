-- ===== src/Common.antt =====
-- r2r_common/src/lib.rs: which messages the ROS installation has. What the file system holds is
-- an argument; texts are their bytes.
pub mod Slices
pub mod Names
pub mod Lines
pub mod Sorting
pub mod Members
pub mod Index
pub mod Parsing
pub mod Grouping
use r2r.Prelude.{
  ℕ, ◌+◌, ◌-◌, List, [], ◌∷◌, ◌++◌, map, Option, none, some, Bool, true, false, not, ◌&&◌, ◌||◌,
  ◌==◌, leb, if◌then◌else◌, length, retain, pop,
}
use r2r.Prelude.Bytes.{
  Bytes, bytes, same_bytes, bytes_leb, starts_with, ends_with, take, slice, split,
}
use r2r.Errors.{Result, ok, err, panic, ◌>>=◌}

pub record RosMsg : Type 0 where
  pub module_name : Bytes
  pub prefix : Bytes
  pub name : Bytes

-- What an entry of the folder of a package is: `broken` if it cannot be listed; otherwise it has a
-- name, `none` if that is not UTF-8, and a content.
pub data Content : Type 0 where
  unopened unreadable : Content
  text : Bytes → Content

pub data Entry : Type 0 where
  broken : Entry
  entry : (file_name : Option Bytes) → Content → Entry

-- One carriage return at the end of a line is left off.
unfoldable pub strip_return : Bytes → Bytes
unfolding pop
strip_return l = elim (pop l) [ none ↦ l | some (last, front) ↦ if last == 13 then front else l ]

-- The pieces that newlines end, and the last one, if it is not empty.
unfoldable pub end_lines : List Bytes → List Bytes
unfolding strip_return
end_lines [] = []
end_lines ([] ∷ []) = []
end_lines ((c ∷ cs) ∷ []) = (c ∷ cs) ∷ []
end_lines (l ∷ m ∷ ls) = strip_return l ∷ end_lines (m ∷ ls)

-- `s.lines()`.
unfoldable pub lines : Bytes → List Bytes
unfolding end_lines split
lines s = end_lines (split 10 s)

-- `&l[a..l.len() - n]`; `none` is a panic.
unfoldable pub cut : ℕ → ℕ → Bytes → Option Bytes
cut a n l = if leb n (length l) then slice a (length l - n) l else none

-- `format!("{}{}{}", file_name, infix, &l[a..l.len() - n])`, pushed if the name of the file is
-- UTF-8.
unfoldable pub found : Option Bytes → Bytes → ℕ → ℕ → Bytes → Result (List Bytes)
unfolding cut
found none infix_text a n l = ok []
found (some file_name) infix_text a n l = elim (cut a n l) [
  | none ↦ panic
  | some substr ↦ ok ((file_name ++ (infix_text ++ substr)) ∷ [])
]

-- The closure over the lines of `get_msgs_from_package`: the names that one line adds.
unfoldable pub line_msgs : Option Bytes → Bytes → Result (List Bytes)
unfolding found
line_msgs file_name l = do
  msg ←
      (if starts_with (bytes "msg/") l && (ends_with (bytes ".idl") l || ends_with (bytes ".msg") l)
        then found file_name (bytes "/msg/") 4 4 l
        else ok [])
  srv ←
      (if starts_with (bytes "srv/") l && (ends_with (bytes ".idl") l || ends_with (bytes ".srv") l)
        then found file_name (bytes "/srv/") 4 4 l
        else ok [])
  action ←
      (if starts_with (bytes "action/") l
          && (ends_with (bytes ".idl") l || ends_with (bytes ".action") l)
        then (if ends_with (bytes ".action") l
            then found file_name (bytes "/action/") 7 7 l
            else found file_name (bytes "/action/") 7 4 l)
        else ok [])
  ok (msg ++ (srv ++ action))

-- A loop whose rounds push to a vector.
unfoldable pub collect : {A B : Type 0} → (A → Result (List B)) → List A → Result (List B)
collect f [] = ok []
collect f (a ∷ others) = do msgs ← f a; rest ← collect f others; ok (msgs ++ rest)

-- One round of the loop over the folder of a package.
unfoldable pub entry_msgs : Entry → Result (List Bytes)
unfolding collect line_msgs lines
entry_msgs broken = panic
entry_msgs (entry file_name unopened) = ok []
entry_msgs (entry file_name unreadable) = panic
entry_msgs (entry file_name (text s)) = collect (line_msgs file_name) (lines s)

-- `msgs.sort()`.
unfoldable pub insert_sorted : Bytes → List Bytes → List Bytes
insert_sorted x [] = x ∷ []
insert_sorted x (y ∷ ys) = if bytes_leb x y then x ∷ y ∷ ys else y ∷ insert_sorted x ys

unfoldable pub sort : List Bytes → List Bytes
unfolding insert_sorted
sort [] = []
sort (x ∷ xs) = insert_sorted x (sort xs)

-- `msgs.dedup()`: an element that equals the one kept before it is removed.
unfoldable pub dedup_after : Bytes → List Bytes → List Bytes
dedup_after x [] = []
dedup_after x (y ∷ ys) = elim (same_bytes y x) [
  | true ↦ dedup_after x ys
  | false ↦ y ∷ dedup_after y ys
]

unfoldable pub dedup : List Bytes → List Bytes
unfolding dedup_after
dedup [] = []
dedup (x ∷ xs) = x ∷ dedup_after x xs

-- `get_msgs_from_package`: `none` if the folder cannot be read.
unfoldable pub get_msgs_from_package : Option (List Entry) → Result (List Bytes)
unfolding collect entry_msgs sort dedup
get_msgs_from_package none = ok []
get_msgs_from_package (some entries) = do msgs ← collect entry_msgs entries; ok (dedup (sort msgs))

-- `get_ros_msgs`.
unfoldable pub get_ros_msgs : List (Option (List Entry)) → Result (List Bytes)
unfolding collect get_msgs_from_package sort dedup
get_ros_msgs packages = do msgs ← collect get_msgs_from_package packages; ok (dedup (sort msgs))

-- `RosMsg` of the first three parts of a name; a name with fewer is left out.
unfoldable pub parse_msg : Bytes → Option RosMsg
unfolding split
parse_msg l = elim (take 3 (split b'/' l)) [
  | m ∷ p ∷ n ∷ [] ↦ some (record { module_name = m; prefix = p; name = n })
  | _ ↦ none
]

unfoldable pub parse_all : List Bytes → List RosMsg
unfolding parse_msg
parse_all [] = []
parse_all (l ∷ ls) =
    let rest = parse_all ls in elim (parse_msg l) [ none ↦ rest | some m ↦ m ∷ rest ]

-- `parse_msgs`.
unfoldable pub parse_msgs : List Bytes → List RosMsg
unfolding parse_all retain
parse_msgs msgs =
    retain (λ (m : RosMsg). not (same_bytes m.module_name (bytes "libstatistics_collector")))
      (parse_all msgs)

-- `HashMap<&str, V>`, as the function that `get` computes.
abbrev pub BytesMap : Type 0 → Type 0
BytesMap V = Bytes → Option V

abbrev pub get_or : {V : Type 0} → Option V → V → V
get_or none v = v
get_or (some w) v = w

-- `msgs.entry(..).or_insert(..).entry(..).or_insert(..).push(..)`.
unfoldable pub add_to_map :
    RosMsg → BytesMap (BytesMap (List Bytes)) → BytesMap (BytesMap (List Bytes))
add_to_map msg msgs =
    let inner = get_or (msgs msg.module_name) (λ q. none) in
    let names = get_or (inner msg.prefix) [] ++ msg.name ∷ [] in
    λ m.
      if same_bytes msg.module_name m
      then some (λ p. if same_bytes msg.prefix p then some names else inner p)
      else msgs m

unfoldable pub add_all :
    List RosMsg → BytesMap (BytesMap (List Bytes)) → BytesMap (BytesMap (List Bytes))
unfolding add_to_map
add_all [] msgs = msgs
add_all (msg ∷ included) msgs = add_all included (add_to_map msg msgs)

-- `as_map`.
unfoldable pub as_map : List RosMsg → BytesMap (BytesMap (List Bytes))
unfolding add_all
as_map included_msgs = add_all included_msgs (λ q. none)
