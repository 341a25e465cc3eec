-- ===== src/Pending.antt =====
-- The vectors of keyed channels in which the clients of src/clients.rs, src/action_clients.rs and
-- src/action_clients_untyped.rs keep what waits for an answer, and how an answer takes its entry
-- out: `iter().position(..)` and then `swap_remove(idx)`.
pub mod Taking
use r2r.Prelude.{
  ℕ, suc, List, [], ◌∷◌, Option, none, some, Bool, if◌then◌else◌, ◌==◌, get_elem?, set, pop,
}

module _ {ℓ} {A : Type ℓ} where
  -- The index of the first element that satisfies the test.
  unfoldable pub position : (A → Bool) → List A → Option ℕ
  position p [] = none
  position p (x ∷ xs) =
      let rest = position p xs in
      if p x then some 0 else elim rest [ none ↦ none | some i ↦ some (suc i) ]

  -- `Vec::swap_remove`: the last element takes the place of the removed one. `none` is the panic
  -- on an index out of bounds.
  unfoldable pub swap_remove : ℕ → List A → Option (A × List A)
  unfolding pop
  swap_remove i xs = elim (get_elem? xs i) [
    | none ↦ none
    | some x ↦ elim (pop xs) [ none ↦ none | some (last, front) ↦ some (x, set front i last) ]
  ]

-- Entries under a number: a sequence number or a goal id.
abbrev pub Pending {ℓ} : Type ℓ → Type ℓ
Pending V = List (ℕ × V)

module _ {ℓ} {V : Type ℓ} where
  abbrev pub has_key : ℕ → ℕ × V → Bool
  has_key k e = e.0 == k

  -- `iter().find(..)`: the first value under a key.
  unfoldable pub find : ℕ → Pending V → Option V
  find k [] = none
  find k ((j, v) ∷ es) = if j == k then some v else find k es

  -- What a lookup of a key in such a vector comes to: the first entry with the key, and the
  -- entries left. `none` of the inner option says that no entry has the key, `none` of the outer
  -- one is a panic.
  unfoldable pub take_key : ℕ → Pending V → Option (Option (V × Pending V))
  unfolding position swap_remove
  take_key k es = elim (position (has_key k) es) [
    | none ↦ some none
    | some i ↦ elim (swap_remove i es) [ none ↦ none | some (e, rest) ↦ some (some (e.1, rest)) ]
  ]
