-- ===== src/Pending/Taking.antt =====
-- `position` followed by `swap_remove` never panics, and takes out one entry of those in the
-- vector: the first one under the key.
use mathlib.Core.List.{Perm, perm_middle, append-nil}
use mathlib.Core.Path.{subst}
use mathlib.Core.List.Perm
use r2r.Prelude.{
  ℕ, zero, suc, ◌≡◌, ◌⊎◌, inl, inr, refl, sym, ◌∙◌, List, [], ◌∷◌, ◌++◌, Option, none, some, Bool,
  true, false, arith, if◌then◌else◌, ◌==◌, get_elem?, set, Option-cases, All, pop_cons,
}
use r2r.Pending.{position, swap_remove, Pending, has_key, take_key, find}

module _ {ℓ} {A : Type ℓ} where
  -- Overwriting the element at `i` moves nothing else.
  set-perm :
      (xs : List A) (i : ℕ) (x v : A) → get_elem? xs i ≡ some x → Perm (v ∷ xs) (x ∷ set xs i v)
  set-perm [] i x v h = cc
  set-perm (y ∷ xs) zero x v h = let same : y ≡ x = cc in rw same (Perm.swap x v xs)
  set-perm (y ∷ xs) (suc i) x v h =
      Perm.trans (Perm.swap y v xs)
        (Perm.trans (Perm.cons y (set-perm xs i x v h)) (Perm.swap x y _))

  -- An index of `front ++ [last]` is one of `front`, or the last.
  get_elem?-snoc :
      (front : List A) (last : A) (i : ℕ) (x : A)
      → get_elem? (front ++ last ∷ []) i ≡ some x
      → (get_elem? front i ≡ some x) ⊎ ((x ≡ last) × (set front i last ≡ front))
  get_elem?-snoc [] last zero x h = inr (cc, refl)
  get_elem?-snoc [] last (suc i) x h = cc
  get_elem?-snoc (y ∷ front) last zero x h = inl h
  get_elem?-snoc (y ∷ front) last (suc i) x h = elim (get_elem?-snoc front last i x h) [
    | inl e ↦ inl e
    | inr (e, s) ↦ inr (e, cc s)
  ]

  -- `swap_remove` in bounds succeeds, and what it leaves is the vector without that element, up
  -- to order.
  pub swap_remove-perm :
      (xs : List A) (i : ℕ) (x : A)
      → get_elem? xs i ≡ some x
      → (rest : List A) × (swap_remove i xs ≡ some (x, rest)) × Perm xs (x ∷ rest)
  unfolding swap_remove
  swap_remove-perm [] i x h = cc
  swap_remove-perm (y ∷ ys) i x h =
      let (last, front, e, s) = pop_cons y ys in
      let h' : get_elem? (front ++ last ∷ []) i ≡ some x = rw s at h in
      (
        set front i last,
        rw (h, e, swap_remove),
        subst (λ l. Perm l (x ∷ set front i last)) (sym s)
            (Perm.trans
              (subst (λ l. Perm (front ++ last ∷ []) (last ∷ l)) (append-nil front)
                (perm_middle front []))
              (moved (get_elem?-snoc front last i x h'))),
      )
    where
      moved :
          {front : List A} {last : A}
          → (get_elem? front i ≡ some x) ⊎ ((x ≡ last) × (set front i last ≡ front))
          → Perm (last ∷ front) (x ∷ set front i last)
      moved {front} {last} (inl inside) = set-perm front i x last inside
      moved {front} {last} (inr (e, s)) = rw (e, s) (Perm.refl _)

  -- `position` finds an index in bounds, at an element that satisfies the test.
  pub position_sound :
      (p : A → Bool) (xs : List A) (i : ℕ)
      → position p xs ≡ some i
      → (x : A) × (get_elem? xs i ≡ some x) × (p x ≡ true)
  unfolding position
  position_sound p [] i h = cc
  position_sound p (x ∷ xs) zero h = (x, refl, ground arith)
  position_sound p (x ∷ xs) (suc i) h = position_sound p xs i (ground arith)

  -- `position` fails only where no element satisfies the test.
  pub position-none :
      (p : A → Bool) (xs : List A) → position p xs ≡ none → All (λ x. p x ≡ false) xs
  unfolding position
  position-none p [] h = tt
  position-none p (x ∷ xs) h = (ground arith, position-none p xs (ground arith))

module _ {ℓ} {V : Type ℓ} where
  position-find :
      (k : ℕ) (es : Pending V) (i : ℕ)
      → position (has_key k) es ≡ some i
      → (v : V) × (get_elem? es i ≡ some (k, v)) × (find k es ≡ some v)
  unfolding position find
  position-find k [] i h = cc
  position-find k ((j, v) ∷ es) zero h = (v, ground arith, ground arith)
  position-find k ((j, v) ∷ es) (suc i) h =
      let (w, e, f) = position-find k es i (ground arith) in (w, e, ground (arith, h, f))

  position-find-none : (k : ℕ) (es : Pending V) → position (has_key k) es ≡ none → find k es ≡ none
  unfolding position find
  position-find-none k [] h = refl
  position-find-none k ((j, v) ∷ es) h = ground (arith, position-find-none k es)

  -- What taking a key out comes to.
  pub data Takes (k : ℕ) (es : Pending V) (r : Option (Option (V × Pending V))) : Type ℓ where
    missing : find k es ≡ none → r ≡ some none → Takes k es r
    taken :
        (v : V) (rest : Pending V)
        → find k es ≡ some v
        → r ≡ some (some (v, rest))
        → Perm es ((k, v) ∷ rest)
        → Takes k es r

  -- Taking a key out never panics; it gives the first value under the key and leaves all the other
  -- entries, or finds no entry with the key.
  pub take_key-Takes : (k : ℕ) (es : Pending V) → Takes k es (take_key k es)
  unfolding take_key
  take_key-Takes k es = elim (Option-cases (position (has_key k) es)) [
    | inl e ↦ missing (position-find-none k es e) (rw (e, take_key))
    | inr (i, e) ↦
        let (v, at, first) = position-find k es i e in
        let (rest, removed, p) = swap_remove-perm es i (k, v) at in
        taken v rest first (rw (e, take_key) (rw removed)) p
  ]

  -- A new entry is found under its key if the key was free, and hides no other.
  pub find-snoc :
      (k j : ℕ) (v : V) (es : Pending V)
      → find k es ≡ none
      → find j (es ++ (k, v) ∷ []) ≡ (if k == j then some v else find j es)
  unfolding find
  find-snoc k j v [] free = ground arith
  find-snoc k j v ((i, w) ∷ es) free = ground (arith, find-snoc k j v es)

  -- A new entry is found under its key if the key was free.
  pub find_new :
      (k : ℕ) (v : V) (es : Pending V) → find k es ≡ none → find k (es ++ (k, v) ∷ []) ≡ some v
  find_new k v es free = find-snoc k k v es free ∙ ground arith

  -- An entry that is in the vector is taken out.
  pub take_found :
      (k : ℕ) (es : Pending V) (v : V)
      → find k es ≡ some v
      → (rest : Pending V) × (take_key k es ≡ some (some (v, rest)))
  take_found k es v here = elim (take_key-Takes k es) [
    | missing f e ↦ cc (f, here)
    | taken w rest f e p ↦ (rest, ground (arith, f, e, here))
  ]
