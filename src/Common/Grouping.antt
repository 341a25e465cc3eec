-- ===== src/Common/Grouping.antt =====
-- `as_map` of r2r_common/src/lib.rs against the list of messages that it groups.
use mathlib.Core.List.{append_assoc}
use r2r.Prelude.{
  ◌≡◌, refl, ap, ◌∙◌, List, [], ◌∷◌, ◌++◌, Option, none, some, Option-cases, ◌&&◌, if◌then◌else◌,
  Bool-cases, inl, inr,
}
use r2r.Prelude.Bytes.{Bytes, same_bytes, same_bytes_sound}
use r2r.Common.{RosMsg, BytesMap, get_or, add_to_map, add_all, as_map}

-- What two lookups find.
abbrev pub group : BytesMap (BytesMap (List Bytes)) → (m p : Bytes) → Option (List Bytes)
group msgs m p = elim (msgs m) [ none ↦ none | some inner ↦ inner p ]

-- The names of the messages of a package under a prefix, in order.
abbrev pub names_in : (m p : Bytes) → List RosMsg → List Bytes
names_in m p [] = []
names_in m p (msg ∷ included) =
    let rest = names_in m p included in
    if same_bytes msg.module_name m && same_bytes msg.prefix p then msg.name ∷ rest else rest

-- Names are appended to the names that are there; none make no entry.
abbrev pub extend : Option (List Bytes) → List Bytes → Option (List Bytes)
extend o [] = o
extend o (n ∷ ns) = some (get_or o [] ++ n ∷ ns)

extend-extend :
    (o : Option (List Bytes)) (n : Bytes) (ns : List Bytes)
    → extend (some (get_or o [] ++ n ∷ [])) ns ≡ extend o (n ∷ ns)
extend-extend o n [] = refl
extend-extend o n (m ∷ ns) = ap some (append_assoc (get_or o []) (n ∷ []) (m ∷ ns))

group-add_to_map :
    (msg : RosMsg) (msgs : BytesMap (BytesMap (List Bytes))) (m p : Bytes)
    → group (add_to_map msg msgs) m p ≡ (
        if same_bytes msg.module_name m && same_bytes msg.prefix p
        then some (get_or (group msgs m p) [] ++ msg.name ∷ [])
        else group msgs m p)
unfolding add_to_map
group-add_to_map msg msgs m p = elim (Bool-cases (same_bytes msg.module_name m)) [
  | inr other ↦ rw (group, add_to_map, other) refl
  | inl hit ↦
      let at_name : msgs msg.module_name ≡ msgs m =
        ap msgs (same_bytes_sound msg.module_name m hit) in
      elim (Bool-cases (same_bytes msg.prefix p)) [
        | inl under ↦
            let e = same_bytes_sound msg.prefix p under in
            elim (Option-cases (msgs m)) [
              | inl f ↦ rw (add_to_map, hit, under, at_name ∙ f, group, f) refl
              | inr (inner, f) ↦ rw (add_to_map, hit, under, at_name ∙ f, group, f, e) refl
            ]
        | inr beside ↦ elim (Option-cases (msgs m)) [
          | inl f ↦ rw (add_to_map, hit, beside, at_name ∙ f, group, f) refl
          | inr (inner, f) ↦ rw (add_to_map, hit, beside, at_name ∙ f, group, f) refl
        ]
      ]
]

group-add_all :
    (included : List RosMsg) (msgs : BytesMap (BytesMap (List Bytes))) (m p : Bytes)
    → group (add_all included msgs) m p ≡ extend (group msgs m p) (names_in m p included)
unfolding add_all
group-add_all [] msgs m p = refl
group-add_all (msg ∷ included) msgs m p =
    let ih = group-add_all included (add_to_map msg msgs) m p in
    let added = group-add_to_map msg msgs m p in
    elim (Bool-cases (same_bytes msg.module_name m && same_bytes msg.prefix p)) [
      | inl hit ↦
          ih
          ∙ (ap (λ o. extend o (names_in m p included)) (rw hit at added)
              ∙ rw hit (extend-extend (group msgs m p) msg.name (names_in m p included)))
      | inr other ↦
          ih ∙ (ap (λ o. extend o (names_in m p included)) (rw other at added) ∙ rw other refl)
    ]

-- What the map has for a package and a prefix are the names of the messages of that package
-- under that prefix, in the order of the list, and nothing if there are none.
pub as_map_lem :
    (included : List RosMsg) (m p : Bytes)
    → group (as_map included) m p ≡ extend none (names_in m p included)
unfolding as_map
as_map_lem included m p = group-add_all included (λ q. none) m p
