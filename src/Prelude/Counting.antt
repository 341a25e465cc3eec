-- ===== src/Prelude/Counting.antt =====
-- How often a number occurs in a list: the view in which order does not matter.
use mathlib.Core.List.{Perm, Permᴰ, reverse, reverse-cons}
use mathlib.Core.Logic.{∥∥₁_elim}
use native.Mathlib.Nat.{ℕ_set}
use Prim.Native.Nat.{ℕ, ◌+◌}
use mathlib.Core.Path.{◌≡◌, refl, ap, ◌∙◌}
use mathlib.Core.List.{List, [], ◌∷◌, ◌++◌}
use native.Mathlib.Omega.{arith}
use r2r.Prelude.Tests.{◌==◌, if◌then◌else◌}

module _ (q : ℕ) where
  abbrev pub count : List ℕ → ℕ
  count [] = 0
  count (n ∷ ns) = count ns + (if n == q then 1 else 0)

  pub count-append : (left right : List ℕ) → count (left ++ right) ≡ count left + count right
  count-append [] right = ground arith
  count-append (n ∷ left) right = ground (arith, count-append left right)

  pub count-reverse : (ns : List ℕ) → count (reverse ns) ≡ count ns
  count-reverse [] = refl
  count-reverse (n ∷ ns) =
      ground
        (arith, ap count (reverse-cons n ns), count-append (reverse ns) (n ∷ []), count-reverse ns)

count-permᴰ : (a : ℕ) {xs ys : List ℕ} → Permᴰ xs ys → count a xs ≡ count a ys
count-permᴰ a Permᴰ.nil = refl
count-permᴰ a (Permᴰ.cons e p) = rw e (ground (arith, count-permᴰ a p))
count-permᴰ a (Permᴰ.swap p q) = rw (p, q) (ground arith)
count-permᴰ a (Permᴰ.trans p q) = count-permᴰ a p ∙ count-permᴰ a q

pub count-perm : (a : ℕ) {xs ys : List ℕ} → Perm xs ys → count a xs ≡ count a ys
count-perm a p = ∥∥₁_elim p (ℕ_set _ _) (count-permᴰ a)
