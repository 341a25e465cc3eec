-- ===== src/Common/Sorting.antt =====
-- Sorting and removing duplicates, as r2r_common/src/lib.rs does for the names of messages.
use mathlib.Core.Logic.{◌↔◌}
use r2r.Prelude.{
  ◌≡◌, ◌≢◌, refl, List, [], ◌∷◌, ◌++◌, true, false, Bool-cases, inl, inr, ◌⊎◌, All, All-mono, arith,
}
use r2r.Prelude.Bytes.{
  Bytes, same_bytes, same_bytes_sound, same_bytes_refl, bytes_leb, bytes_leb_total,
  bytes_leb_antisym, bytes_leb_trans,
}
use r2r.Common.{insert_sorted, sort, dedup_after, dedup}

-- Some element satisfies `P`.
abbrev pub Has {ℓ} : {A : Type ℓ} → (A → Type 0) → List A → Type 0
Has P [] = ⊥
Has P (x ∷ xs) = P x ⊎ Has P xs

pub Has-append {ℓ} :
    {A : Type ℓ} (P : A → Type 0) (xs ys : List A) → Has P (xs ++ ys) ↔ (Has P xs ⊎ Has P ys)
Has-append P [] ys = (λ h. inr h, λ h. elim h [ inl q ↦ absurd q | inr p ↦ p ])
Has-append P (x ∷ xs) ys = ground (arith, Has-append P xs ys)

-- Each element is below all later ones.
abbrev pub Sorted : List Bytes → Type 0
Sorted [] = Unit
Sorted (x ∷ xs) = All (λ y. bytes_leb x y ≡ true) xs × Sorted xs

-- The same, and different from them.
abbrev pub Ascending : List Bytes → Type 0
Ascending [] = Unit
Ascending (x ∷ xs) = All (λ y. (bytes_leb x y ≡ true) × (x ≢ y)) xs × Ascending xs

All-insert_sorted :
    (P : Bytes → Type 0) (x : Bytes) (ys : List Bytes) → P x → All P ys → All P (insert_sorted x ys)
unfolding insert_sorted
All-insert_sorted P x [] p h = (p, tt)
All-insert_sorted P x (y ∷ ys) p (q, h) = elim (Bool-cases (bytes_leb x y)) [
  | inl e ↦ rw e (p, (q, h))
  | inr e ↦ rw e (q, All-insert_sorted P x ys p h)
]

insert_sorted-Sorted : (x : Bytes) (ys : List Bytes) → Sorted ys → Sorted (insert_sorted x ys)
unfolding insert_sorted
insert_sorted-Sorted x [] h = (tt, tt)
insert_sorted-Sorted x (y ∷ ys) (p, h) = elim (Bool-cases (bytes_leb x y)) [
  | inl e ↦ rw e ((e, All-mono ys (λ z q. bytes_leb_trans x y z e q) p), (p, h))
  | inr e ↦ rw e (
    All-insert_sorted (λ z. bytes_leb y z ≡ true) x ys (bytes_leb_total x y e) p,
    insert_sorted-Sorted x ys h,
  )
]

pub sort-Sorted : (xs : List Bytes) → Sorted (sort xs)
unfolding sort
sort-Sorted [] = tt
sort-Sorted (x ∷ xs) = insert_sorted-Sorted x (sort xs) (sort-Sorted xs)

put_later :
    (x y : Bytes) (ys : List Bytes)
    → bytes_leb x y ≡ false
    → insert_sorted x (y ∷ ys) ≡ y ∷ insert_sorted x ys
unfolding insert_sorted
put_later x y ys e = rw (e, insert_sorted) refl

Has-insert_sorted :
    (P : Bytes → Type 0) (x : Bytes) (ys : List Bytes)
    → Has P (insert_sorted x ys) ↔ (P x ⊎ Has P ys)
unfolding insert_sorted
Has-insert_sorted P x [] = (λ h. h, λ h. h)
Has-insert_sorted P x (y ∷ ys) = elim (Bool-cases (bytes_leb x y)) [
  | inl e ↦ rw e (λ h. h, λ h. h)
  | inr e ↦ let ih = Has-insert_sorted P x ys in rw (put_later x y ys e) (ground (arith, ih))
]

pub Has-sort : (P : Bytes → Type 0) (xs : List Bytes) → Has P (sort xs) ↔ Has P xs
unfolding sort
Has-sort P [] = (λ h. h, λ h. h)
Has-sort P (x ∷ xs) = ground (arith, Has-insert_sorted P x (sort xs), Has-sort P xs)

same_skipped :
    (x y : Bytes) (ys : List Bytes)
    → same_bytes y x ≡ true
    → dedup_after x (y ∷ ys) ≡ dedup_after x ys
unfolding dedup_after
same_skipped x y ys e = rw (e, dedup_after) refl

other_kept :
    (x y : Bytes) (ys : List Bytes)
    → same_bytes y x ≡ false
    → dedup_after x (y ∷ ys) ≡ y ∷ dedup_after y ys
unfolding dedup_after
other_kept x y ys e = rw (e, dedup_after) refl

dedup_after-Ascending :
    (x : Bytes) (ys : List Bytes) → Sorted (x ∷ ys) → Ascending (x ∷ dedup_after x ys)
unfolding dedup_after
dedup_after-Ascending x [] h = (tt, tt)
dedup_after-Ascending x (y ∷ ys) ((p, q), (r, h)) = elim (Bool-cases (same_bytes y x)) [
  | inl e ↦ rw (same_skipped x y ys e) (dedup_after-Ascending x ys (q, h))
  | inr e ↦
      let (above, rest) = dedup_after-Ascending y ys (r, h) in
      let apart : x ≢ y = λ (d : x ≡ y). cc (e, same_bytes_refl y, d) in
      let beyond : (z : Bytes)
          → (bytes_leb y z ≡ true) × (y ≢ z)
          → (bytes_leb x z ≡ true) × (x ≢ z) =
        λ z k. (
          bytes_leb_trans x y z p k.0,
          λ (d : x ≡ z). k.1 (bytes_leb_antisym y z k.0 (rw d at p)),
        ) in
      rw (other_kept x y ys e)
        (((p, apart), All-mono (dedup_after y ys) beyond above), (above, rest))
]

pub dedup-Ascending : (xs : List Bytes) → Sorted xs → Ascending (dedup xs)
unfolding dedup
dedup-Ascending [] h = tt
dedup-Ascending (x ∷ xs) h = dedup_after-Ascending x xs h

Has-dedup_after :
    (P : Bytes → Type 0) (x : Bytes) (ys : List Bytes)
    → Has P (x ∷ dedup_after x ys) ↔ Has P (x ∷ ys)
unfolding dedup_after
Has-dedup_after P x [] = (λ h. h, λ h. h)
Has-dedup_after P x (y ∷ ys) = elim (Bool-cases (same_bytes y x)) [
  | inl e ↦
      let d = same_bytes_sound y x e in
      let ih = Has-dedup_after P x ys in
      let same : P y → P x = λ p. rw d at p in rw (same_skipped x y ys e) (ground (arith, ih, same))
  | inr e ↦ let ih = Has-dedup_after P y ys in rw (other_kept x y ys e) (ground (arith, ih))
]

pub Has-dedup : (P : Bytes → Type 0) (xs : List Bytes) → Has P (dedup xs) ↔ Has P xs
unfolding dedup
Has-dedup P [] = (λ h. h, λ h. h)
Has-dedup P (x ∷ xs) = Has-dedup_after P x xs
