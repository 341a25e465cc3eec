-- ===== src/Build/Walks.antt =====
-- Walks through the HashMaps that `as_map` of r2r_common/src/lib.rs returns, in any order, against
-- the list of messages.
use mathlib.Core.Logic.{◌↔◌}
use mathlib.Core.Path.{subst}
use r2r.Prelude.{
  ◌≡◌, refl, ap, sym, ◌∙◌, List, [], ◌∷◌, none, some, Option-cases, ◌&&◌, arith, Bool-cases, inl,
  inr, All, All-mono,
}
use r2r.Prelude.Bytes.{Bytes, same_bytes, same_bytes_sound, same_bytes_refl}
use r2r.Common.{RosMsg, BytesMap, as_map}
use r2r.Common.Sorting.{Has}
use r2r.Common.Members.{Has-pick, pick_with, Has-with}
use r2r.Common.Grouping.{group, names_in, extend, as_map_lem}
use r2r.Build.Codegen.{Modules}

-- The entries of a map in some order: each has a value of the map, as `Q` says, and every key of the
-- map is there.
abbrev pub IsListing : {V W : Type 0} → (V → W → Type 0) → List (Bytes × W) → BytesMap V → Type 0
IsListing {V} Q entries f =
    All (λ e. (v : V) × ((f e.0 ≡ some v) × Q v e.1)) entries
    × ((k : Bytes) (v : V) → f k ≡ some v → Has (λ e. e.0 ≡ k) entries)

-- The same for a map of maps.
abbrev pub IsWalk : Modules → BytesMap (BytesMap (List Bytes)) → Type 0
IsWalk = IsListing (λ inner prefixes. IsListing (λ v w. v ≡ w) prefixes inner)

abbrev pub msg_of : (m p n : Bytes) → RosMsg
msg_of m p n = record { module_name = m; prefix = p; name = n }

module _ (m p : Bytes) where
  from_names_in :
      (R : Bytes → Type 0) (msgs : List RosMsg)
      → Has R (names_in m p msgs)
      → Has (λ msg. (msg.module_name ≡ m) × ((msg.prefix ≡ p) × R msg.name)) msgs
  from_names_in R [] h = absurd h
  from_names_in R (msg ∷ msgs) h =
      elim (Bool-cases (same_bytes msg.module_name m && same_bytes msg.prefix p)) [
        | inl c ↦ elim (rw c at h) [
          | inl r ↦ inl (
            same_bytes_sound msg.module_name m (ground (arith, c)),
            (same_bytes_sound msg.prefix p (ground (arith, c)), r),
          )
          | inr q ↦ inr (from_names_in R msgs q)
        ]
        | inr c ↦ inr (from_names_in R msgs (rw c at h))
      ]

  to_names_in :
      (R : Bytes → Type 0) (msgs : List RosMsg)
      → Has (λ msg. (msg.module_name ≡ m) × ((msg.prefix ≡ p) × R msg.name)) msgs
      → Has R (names_in m p msgs)
  to_names_in R [] h = absurd h
  to_names_in R (msg ∷ msgs) (inl (e, (f, r))) =
      rw (e, f, same_bytes_refl m, same_bytes_refl p) (inl r)
  to_names_in R (msg ∷ msgs) (inr h) =
      elim (Bool-cases (same_bytes msg.module_name m && same_bytes msg.prefix p)) [
        | inl c ↦ rw c (inr (to_names_in R msgs h))
        | inr c ↦ rw c (to_names_in R msgs h)
      ]

  extended :
      (names ns : List Bytes)
      → extend none names ≡ some ns
      → (names ≡ ns) × ((n : Bytes) × ((others : List Bytes) × (ns ≡ n ∷ others)))
  extended [] ns e = cc
  extended (n ∷ others) ns e = let h : n ∷ others ≡ ns = cc in (h, (n, (others, sym h)))

  -- The names that the maps have are those of the list, and there is one.
  grouped :
      (msgs : List RosMsg) (inner : BytesMap (List Bytes)) (ns : List Bytes)
      → as_map msgs m ≡ some inner
      → inner p ≡ some ns
      → (names_in m p msgs ≡ ns) × ((n : Bytes) × ((others : List Bytes) × (ns ≡ n ∷ others)))
  grouped msgs inner ns e f =
      let found : group (as_map msgs) m p ≡ some ns = rw (group, e, f) refl in
      extended (names_in m p msgs) ns (sym (as_map_lem msgs m p) ∙ found)

  nonempty :
      (names : List Bytes) (n : Bytes) → Has (λ x. x ≡ n) names → extend none names ≡ some names
  nonempty [] n h = absurd h
  nonempty (x ∷ names) n h = refl

  -- A name of the list is in the maps.
  ungrouped :
      (msgs : List RosMsg) (n : Bytes)
      → Has (λ x. x ≡ n) (names_in m p msgs)
      → (inner : BytesMap (List Bytes)) × ((as_map msgs m ≡ some inner)
          × (inner p ≡ some (names_in m p msgs)))
  ungrouped msgs n h =
      let found : group (as_map msgs) m p ≡ some (names_in m p msgs) =
        as_map_lem msgs m p ∙ nonempty (names_in m p msgs) n h in
      elim (Option-cases (as_map msgs m)) [
        | inl e ↦ cc (rw (group, e) at found)
        | inr (inner, e) ↦ (inner, (e, rw (group, e) at found))
      ]

-- What the walk says of each prefix of each package: the messages have the names in order, and
-- there is one.
abbrev pub HasNames : List RosMsg → Bytes → Bytes × List Bytes → Type 0
HasNames msgs m (p, ns) =
    (names_in m p msgs ≡ ns) × ((n : Bytes) × ((others : List Bytes) × (ns ≡ n ∷ others)))

pub walk_names :
    (msgs : List RosMsg) (modules : Modules)
    → IsWalk modules (as_map msgs)
    → All (λ (pkg : Bytes × List (Bytes × List Bytes)). All (HasNames msgs pkg.0) pkg.1) modules
walk_names msgs modules (all, complete) =
    All-mono modules
      (λ pkg l.
        let (inner, (e, (inner_all, inner_complete))) = l in
        All-mono pkg.1
          (λ prefix q.
            let (ns, (f, g)) = q in grouped pkg.0 prefix.0 msgs inner prefix.1 e (f ∙ ap some g))
          inner_all)
      all

-- A predicate on messages, over the entries of a walk.
abbrev pub HasInWalk : (RosMsg → Type 0) → Modules → Type 0
HasInWalk Q = Has (λ pkg. Has (λ prefix. Has (λ n. Q (msg_of pkg.0 prefix.0 n)) prefix.1) pkg.1)

module _ (Q : RosMsg → Type 0) (msgs : List RosMsg) (modules : Modules) where
  of_walk : (m p : Bytes) → Has (λ n. Q (msg_of m p n)) (names_in m p msgs) → Has Q msgs
  of_walk m p h =
      let (msg, ((e, (f, q)), put)) =
        Has-pick _ msgs (from_names_in m p (λ n. Q (msg_of m p n)) msgs h) in
      let same : msg_of m p msg.name ≡ msg = λ i. msg_of (sym e i) (sym f i) msg.name in
      put Q (subst Q same q)

  at_names :
      (m p : Bytes) (msg : RosMsg)
      → m ≡ msg.module_name
      → p ≡ msg.prefix
      → (names ns : List Bytes) → names ≡ ns
      → Q msg
      → Has (λ n. n ≡ msg.name) names
      → Has (λ n. Q (msg_of m p n)) ns
  at_names m p msg e f names ns g q h =
      let (n, (d, put)) = Has-pick (λ n. n ≡ msg.name) names h in
      let same : msg ≡ msg_of m p n = λ i. msg_of (sym e i) (sym f i) (sym d i) in
      subst (λ (l : List Bytes). Has (λ x. Q (msg_of m p x)) l) g
        (put (λ x. Q (msg_of m p x)) (subst Q same q))

  to_walk :
      IsWalk modules (as_map msgs)
      → (msg : RosMsg) → Q msg
      → Has (λ n. n ≡ msg.name) (names_in msg.module_name msg.prefix msgs)
      → HasInWalk Q modules
  to_walk (all, complete) msg q h =
      let (inner, (e, f)) = ungrouped msg.module_name msg.prefix msgs msg.name h in
      Has-with modules
        (λ pkg here l.
          let (found, (g, (inner_all, inner_complete))) = l in
          let same : inner ≡ found = cc (sym e ∙ (ap (as_map msgs) (sym here) ∙ g)) in
          let at_prefix = rw same at f in
          Has-with pkg.1
            (λ prefix there k.
              let (ns, (a, b)) = k in
              let names : names_in msg.module_name msg.prefix msgs ≡ prefix.1 =
                cc (sym at_prefix ∙ (ap found (sym there) ∙ (a ∙ ap some b))) in
              at_names pkg.0 prefix.0 msg here there (names_in msg.module_name msg.prefix msgs)
                prefix.1 names q h)
            (inner_complete msg.prefix (names_in msg.module_name msg.prefix msgs) at_prefix)
            inner_all)
        (complete msg.module_name inner e) all

  listed_name :
      (xs : List RosMsg)
      → Has Q xs
      → (msg : RosMsg) × (Q msg × Has (λ n. n ≡ msg.name) (names_in msg.module_name msg.prefix xs))
  listed_name xs h =
      let (msg, (q, put)) = Has-pick Q xs h in
      (
        msg,
        (
          q,
          to_names_in msg.module_name msg.prefix (λ n. n ≡ msg.name) xs
              (put
                (λ x.
                  (x.module_name ≡ msg.module_name)
                  × ((x.prefix ≡ msg.prefix) × (x.name ≡ msg.name)))
                (refl, (refl, refl))),
        ),
      )

  -- A walk in any order meets exactly the messages of the list.
  pub HasInWalk-Has : IsWalk modules (as_map msgs) → HasInWalk Q modules ↔ Has Q msgs
  HasInWalk-Has walk = (
    (λ h.
        let (pkg, (here, named)) = pick_with modules h (walk_names msgs modules walk) in
        let (prefix, (there, (names, some_name))) = pick_with pkg.1 here named in
        of_walk pkg.0 prefix.0
          (subst (λ (l : List Bytes). Has (λ x. Q (msg_of pkg.0 prefix.0 x)) l) (sym names) there)),
    λ h. let (msg, (q, named)) = listed_name msgs h in to_walk walk msg q named,
  )
