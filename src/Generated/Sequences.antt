-- ===== src/Generated/Sequences.antt =====
-- The sequences of r2r_rcl/src/lib.rs in native memory: a buffer and a size. `init` is what `__init`
-- puts in an element.
use r2r.Prelude.{
  ℕ, zero, suc, ◌≡◌, refl, sym, ap, ◌∙◌, List, [], ◌∷◌, map, Option, none, some, true, leb,
  if◌then◌else◌, length, arith, All,
}
use r2r.Prelude.Bytes.{take}
use r2r.Errors.{Result, ok, ◌>>=◌}
use r2r.Generated.{update}

pub record Sequence (N : Type 0) : Type 0 where
  pub elements : List N
  pub size : ℕ

abbrev pub filled : {N : Type 0} → ℕ → N → List N
filled zero init = []
filled (suc n) init = init ∷ filled n init

-- `__fini` and `__init`.
unfoldable pub sequence_fini : {N : Type 0} → Sequence N → Sequence N
sequence_fini s = record { elements = []; size = 0 }

unfoldable pub sequence_init : {N : Type 0} → N → ℕ → Sequence N → Sequence N
sequence_init init n s = record { elements = filled n init; size = n }

-- `for (target, source) in strs.iter_mut().zip(values)`.
unfoldable pub assign_each : {R N : Type 0} → (R → N → Result N) → List N → List R → Result (List N)
assign_each assign [] values = ok []
assign_each assign (t ∷ strs) [] = ok (t ∷ strs)
assign_each assign (t ∷ strs) (source ∷ values) = do
  u ← assign source t
  us ← assign_each assign strs values
  ok (u ∷ us)

-- `update` of the sequences of both kinds of strings.
unfoldable pub update_strings :
    {R N : Type 0} → (R → N → Result N) → N → List R → Sequence N → Result (Sequence N)
unfolding sequence_fini sequence_init assign_each
update_strings assign init values s = do
  let fresh = sequence_init init (length values) (sequence_fini s)
  strs ← assign_each assign fresh.elements values
  ok (record fresh { elements = strs })

-- `std::ptr::copy(source, target, n)`; `none` is a read or a write out of bounds.
unfoldable pub ptr_copy : {N : Type 0} → (n : ℕ) → (source target : List N) → Option (List N)
ptr_copy zero source target = some target
ptr_copy (suc n) [] target = none
ptr_copy (suc n) (x ∷ source) [] = none
ptr_copy (suc n) (x ∷ source) (y ∷ target) = elim (ptr_copy n source target) [
  | none ↦ none
  | some rest ↦ some (x ∷ rest)
]

-- `update` of `primitive_sequence!`.
unfoldable pub update_primitives : {N : Type 0} → N → List N → Sequence N → Option (Sequence N)
unfolding sequence_fini sequence_init ptr_copy
update_primitives init values s =
    let fresh = sequence_init init (length values) (sequence_fini s) in
    elim (ptr_copy (length values) values fresh.elements) [
      | none ↦ none
      | some copied ↦ some (record fresh { elements = copied })
    ]

-- The slice of `from_raw_parts`, and `to_vec`; `none` is a read out of bounds.
unfoldable pub sequence_slice : {N : Type 0} → Sequence N → Option (List N)
sequence_slice s = if leb s.size (length s.elements) then some (take s.size s.elements) else none

unfoldable pub to_vec : {R N : Type 0} → (N → R) → Sequence N → Option (List R)
unfolding sequence_slice
to_vec to_str s = elim (sequence_slice s) [ none ↦ none | some strs ↦ some (map to_str strs) ]

module _ {R N : Type 0} (assign : R → N → Result N) (init : N) where
  assign_each-filled :
      (values : List R)
      → assign_each assign (filled (length values) init) values ≡ update assign init values
  unfolding assign_each update
  assign_each-filled [] = refl
  assign_each-filled (v ∷ values) =
      ap (λ r. assign v init >>= (λ u. r >>= (λ us. ok (u ∷ us)))) (assign_each-filled values)

  -- The elements that `update` writes over a sequence are those that the conversion of members computes.
  pub update_strings_lem :
      (values : List R) (s : Sequence N)
      → update_strings assign init values s
        ≡ (do ns ← update assign init values; ok (record { elements = ns; size = length values }))
  unfolding update_strings
  update_strings_lem values s = rw (update_strings, assign_each-filled values) refl

map_same : {N : Type 0} (ns : List N) → map (λ n. n) ns ≡ ns
map_same [] = refl
map_same (n ∷ ns) = ap (λ l. n ∷ l) (map_same ns)

take_all : {N : Type 0} (ns : List N) → take (length ns) ns ≡ ns
take_all [] = refl
take_all (n ∷ ns) = ap (λ l. n ∷ l) (take_all ns)

slice_all :
    {N : Type 0} (ns : List N)
    → sequence_slice (record { elements = ns; size = length ns }) ≡ some ns
unfolding sequence_slice
slice_all ns =
    let e : leb (length ns) (length ns) ≡ true = ground arith in
    rw (sequence_slice, e) (ap some (take_all ns))

ptr_copy_all :
    {N : Type 0} (init : N) (values : List N)
    → ptr_copy (length values) values (filled (length values) init) ≡ some values
unfolding ptr_copy
ptr_copy_all init [] = refl
ptr_copy_all init (v ∷ values) = rw (ptr_copy, ptr_copy_all init values) refl

module _ {R N : Type 0} (assign : R → N → Result N) (init : N) (to_str : N → R) where
  -- The value is assigned without a panic, and read back.
  abbrev pub IsReadBack : R → Type 0
  IsReadBack v = (n : N) × ((assign v init ≡ ok n) × (to_str n ≡ v))

  updated :
      (values : List R)
      → All IsReadBack values
      → (ns : List N) × ((update assign init values ≡ ok ns)
          × ((length ns ≡ length values) × (map to_str ns ≡ values)))
  unfolding update
  updated [] h = ([], (refl, (refl, refl)))
  updated (v ∷ values) ((n, (e, r)), h) =
      let (ns, (f, (l, m))) = updated values h in
      (n ∷ ns, (rw (update, e, f) refl, (ap suc l, cc (r, m))))

  -- A sequence that is updated with texts that can be assigned and read back has exactly these
  -- texts, whatever it had before; all its elements are in its buffer.
  pub to_vec-update_strings :
      (values : List R) (s : Sequence N)
      → All IsReadBack values
      → (later : Sequence N) × ((update_strings assign init values s ≡ ok later)
          × (to_vec to_str later ≡ some values))
  unfolding to_vec
  to_vec-update_strings values s h =
      let (ns, (e, (l, m))) = updated values h in
      (
        record { elements = ns; size = length values },
        (
          update_strings_lem assign init values s ∙ rw e refl,
          rw (sym l, to_vec, slice_all ns) (ap some m),
        ),
      )

-- A sequence of numbers or Booleans that is updated with values has exactly these values, whatever it
-- had before, and nothing is copied out of bounds.
pub to_vec-update_primitives :
    {N : Type 0} (init : N) (values : List N) (s : Sequence N)
    → (later : Sequence N) × ((update_primitives init values s ≡ some later)
        × (to_vec (λ n. n) later ≡ some values))
unfolding update_primitives to_vec
to_vec-update_primitives init values s = (
  record { elements = values; size = length values },
  (
    rw (update_primitives, ptr_copy_all init values) refl,
    rw (to_vec, slice_all values) (ap some (map_same values)),
  ),
)
