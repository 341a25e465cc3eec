-- ===== src/Common/Index.antt =====
-- What the list that r2r_common/src/lib.rs makes of the index files has to do with the files.
use mathlib.Core.Logic.{◌↔◌}
use r2r.Prelude.{
  ◌≡◌, refl, sym, ap, ◌∙◌, List, [], ◌∷◌, ◌++◌, Option, none, some, inl, inr, All, All-everywhere,
  All-mono, arith,
}
use r2r.Prelude.Bytes.{Bytes}
use r2r.Errors.{Result, ok, ◌>>=◌}
use r2r.Common.{
  line_msgs, lines, collect, Entry, broken, entry, unopened, unreadable, text, entry_msgs, sort,
  dedup, get_msgs_from_package, get_ros_msgs,
}
use r2r.Common.Names.{Kind, folder, Declares, one_kind, one_name}
use r2r.Common.Lines.{line_msgs_lem, line_msgs_nameless}
use r2r.Common.Sorting.{
  Has, Has-append, Has-sort, Has-dedup, Ascending, sort-Sorted, dedup-Ascending,
}

-- The line of the file of a package declares the message type with the full name `x`.
abbrev pub LineNames : (x f l : Bytes) → Type 0
LineNames x f l =
    (k : Kind) × ((n : Bytes) × (Declares k n l × (f ++ (b'/' ∷ (folder k ++ b'/' ∷ []) ++ n) ≡ x)))

abbrev pub EntryNames : Bytes → Entry → Type 0
EntryNames x (entry (some f) (text s)) = Has (LineNames x f) (lines s)
EntryNames x (entry (some f) unopened) = ⊥
EntryNames x (entry (some f) unreadable) = ⊥
EntryNames x (entry none c) = ⊥
EntryNames x broken = ⊥

abbrev pub PackageNames : Bytes → Option (List Entry) → Type 0
PackageNames x none = ⊥
PackageNames x (some entries) = Has (EntryNames x) entries

-- The entry can be listed, and its file read if it can be opened.
abbrev pub IsReadable : Entry → Type 0
IsReadable broken = ⊥
IsReadable (entry f unreadable) = ⊥
IsReadable (entry f unopened) = Unit
IsReadable (entry f (text s)) = Unit

abbrev pub AllReadable : Option (List Entry) → Type 0
AllReadable none = Unit
AllReadable (some entries) = All IsReadable entries

-- The code returns names, which are those that satisfy `Q`.
abbrev Yields : Result (List Bytes) → (Bytes → Type 0) → Type 0
Yields r Q = (ms : List Bytes) × ((r ≡ ok ms) × ((x : Bytes) → Has (λ y. y ≡ x) ms ↔ Q x))

collect_yields :
    {A : Type 0} (f : A → Result (List Bytes)) (Q : Bytes → A → Type 0) (xs : List A)
    → All (λ a. Yields (f a) (λ x. Q x a)) xs
    → Yields (collect f xs) (λ x. Has (Q x) xs)
unfolding collect
collect_yields f Q [] h = ([], (refl, λ x. (λ p. p, λ p. p)))
collect_yields f Q (a ∷ xs) ((ms, (e, p)), h) =
    let (rest, (g, q)) = collect_yields f Q xs h in
    (ms ++ rest, (rw (e, g) refl, λ x. ground (arith, Has-append (λ y. y ≡ x) ms rest, p x, q x)))

same_name :
    (x f l : Bytes) (k : Kind) (n : Bytes)
    → Declares k n l
    → LineNames x f l
    → f ++ (b'/' ∷ (folder k ++ b'/' ∷ []) ++ n) ≡ x
same_name x f l k n d (j, (m, (c, e))) =
    let i : j ≡ k = one_kind j k m n l c d in
    let h : m ≡ n = one_name k m n l (rw i at c) d in
    sym (ap (λ q. f ++ (b'/' ∷ (folder q ++ b'/' ∷ []) ++ n)) i)
    ∙ (sym (ap (λ q. f ++ (b'/' ∷ (folder j ++ b'/' ∷ []) ++ q)) h) ∙ e)

line_yields : (f l : Bytes) → Yields (line_msgs (some f) l) (λ x. LineNames x f l)
line_yields f l = elim (line_msgs_lem f l) [
  | inl (k, (n, (d, e))) ↦
      let named = f ++ (b'/' ∷ (folder k ++ b'/' ∷ []) ++ n) in
      (
        named ∷ [],
        (
          e,
          λ x. (
            λ p. elim p [ inl q ↦ (k, (n, (d, q))) | inr q ↦ absurd q ],
            λ p. inl (same_name x f l k n d p),
          ),
        ),
      )
  | inr (nothing, e) ↦ ([], (e, λ x. (λ p. absurd p, λ p. absurd (nothing p.0 p.1.0 p.1.1.0))))
]

nameless_yields : (ls : List Bytes) → Yields (collect (line_msgs none) ls) (λ x. ⊥)
unfolding collect
nameless_yields [] = ([], (refl, λ x. (λ p. p, λ p. p)))
nameless_yields (l ∷ ls) =
    let (ms, (e, h)) = nameless_yields ls in (ms, (rw (line_msgs_nameless l, e) refl, h))

entry_yields : (e : Entry) → IsReadable e → Yields (entry_msgs e) (λ x. EntryNames x e)
unfolding entry_msgs
entry_yields broken h = absurd h
entry_yields (entry none unreadable) h = absurd h
entry_yields (entry (some f) unreadable) h = absurd h
entry_yields (entry none unopened) h = ([], (refl, λ x. (λ p. p, λ p. p)))
entry_yields (entry (some f) unopened) h = ([], (refl, λ x. (λ p. p, λ p. p)))
entry_yields (entry none (text s)) h = nameless_yields (lines s)
entry_yields (entry (some f) (text s)) h =
    collect_yields (line_msgs (some f)) (λ x l. LineNames x f l) (lines s)
      (All-everywhere (lines s) (line_yields f))

sorted_yields :
    (r : Result (List Bytes)) (Q : Bytes → Type 0)
    → Yields r Q
    → (ms : List Bytes) × (((do names ← r; ok (dedup (sort names))) ≡ ok ms)
        × (Ascending ms × ((x : Bytes) → Has (λ y. y ≡ x) ms ↔ Q x)))
sorted_yields r Q (ms, (e, h)) = (
  dedup (sort ms),
  (
    rw e refl,
    (
      dedup-Ascending (sort ms) (sort-Sorted ms),
      λ x. ground (arith, Has-dedup (λ y. y ≡ x) (sort ms), Has-sort (λ y. y ≡ x) ms, h x),
    ),
  ),
)

package_yields :
    (p : Option (List Entry))
    → AllReadable p
    → Yields (get_msgs_from_package p) (λ x. PackageNames x p)
unfolding get_msgs_from_package
package_yields none h = ([], (refl, λ x. (λ p. p, λ p. p)))
package_yields (some es) h =
    let (ms, (e, (a, q))) =
      sorted_yields (collect entry_msgs es) (λ x. Has (EntryNames x) es)
        (collect_yields entry_msgs EntryNames es (All-mono es entry_yields h)) in
    (ms, (e, q))

-- If every entry can be listed and every opened file be read, the list of messages is returned; it
-- is strictly ascending, so without duplicates, and has exactly the names that a line of a
-- package's file declares.
pub get_ros_msgs_lem :
    (packages : List (Option (List Entry)))
    → All AllReadable packages
    → (ms : List Bytes) × ((get_ros_msgs packages ≡ ok ms)
        × (Ascending ms × ((x : Bytes) → Has (λ y. y ≡ x) ms ↔ Has (PackageNames x) packages)))
unfolding get_ros_msgs
get_ros_msgs_lem packages h =
    sorted_yields (collect get_msgs_from_package packages) (λ x. Has (PackageNames x) packages)
      (collect_yields get_msgs_from_package PackageNames packages
        (All-mono packages package_yields h))
