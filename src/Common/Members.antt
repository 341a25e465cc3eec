-- ===== src/Common/Members.antt =====
-- Elements of lists that satisfy a predicate, for the list of messages of r2r_common/src/lib.rs.
use r2r.Prelude.{List, [], ◌∷◌, inl, inr, All, All-mono}
use r2r.Common.Sorting.{Has}

pub Has-pick {ℓ} :
    {A : Type ℓ} (P : A → Type 0) (xs : List A)
    → Has P xs
    → (a : A) × (P a × ((R : A → Type 0) → R a → Has R xs))
Has-pick P [] h = absurd h
Has-pick P (x ∷ xs) (inl p) = (x, (p, λ R r. inl r))
Has-pick P (x ∷ xs) (inr h) = let (a, (p, f)) = Has-pick P xs h in (a, (p, λ R r. inr (f R r)))

pub pick_with {ℓ κ} :
    {A : Type ℓ} {P : A → Type 0} {Q : A → Type κ} (xs : List A)
    → Has P xs
    → All Q xs
    → (a : A) × (P a × Q a)
pick_with [] h all = absurd h
pick_with (x ∷ xs) (inl p) (q, all) = (x, (p, q))
pick_with (x ∷ xs) (inr h) (q, all) = pick_with xs h all

pub Has-with {ℓ κ} :
    {A : Type ℓ} {P : A → Type 0} {Q : A → Type κ} {R : A → Type 0} (xs : List A)
    → ((a : A) → P a → Q a → R a)
    → Has P xs
    → All Q xs
    → Has R xs
Has-with [] f h all = absurd h
Has-with (x ∷ xs) f (inl p) (q, all) = inl (f x p q)
Has-with (x ∷ xs) f (inr h) (q, all) = inr (Has-with xs f h all)

-- Every element is in the list.
pub members : {A : Type 0} (xs : List A) → All (λ x. (R : A → Type 0) → R x → Has R xs) xs
members [] = tt
members (x ∷ xs) = ((λ R r. inl r), All-mono xs (λ a f R r. inr (f R r)) (members xs))
