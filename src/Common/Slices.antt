-- ===== src/Common/Slices.antt =====
-- The slices that r2r_common/src/lib.rs takes of the lines of an index file.
use mathlib.Core.List.{append_assoc}
use r2r.Prelude.{
  ℕ, zero, suc, ◌≡◌, ◌≤◌, ◌<◌, ◌+◌, ◌-◌, refl, sym, ap, ◌∙◌, [], ◌∷◌, ◌++◌, some, true, false,
  arith, ◌==◌, leb, length, length-append, any,
}
use r2r.Prelude.Bytes.{Bytes, same_bytes_sound, same_bytes_refl, starts_with, ends_with, take, drop}
use r2r.Common.{cut}

take-drop : (n : ℕ) (l : Bytes) → take n l ++ drop n l ≡ l
take-drop zero l = refl
take-drop (suc n) [] = refl
take-drop (suc n) (x ∷ l) = ap (◌∷◌ x) (take-drop n l)

starts_with_split : (p l : Bytes) → starts_with p l ≡ true → (q : Bytes) × (l ≡ p ++ q)
starts_with_split [] l h = (l, refl)
starts_with_split (x ∷ p) [] h = cc
starts_with_split (x ∷ p) (y ∷ l) h =
    let (q, e) = starts_with_split p l (ground arith) in (q, ground (arith, e))

ends_with_split : (s l : Bytes) → ends_with s l ≡ true → (r : Bytes) × (l ≡ r ++ s)
ends_with_split s l h =
    let n = length l - length s in
    let e : drop n l ≡ s = same_bytes_sound (drop n l) s (ground arith) in
    (take n l, sym (take-drop n l) ∙ ap (◌++◌ (take n l)) e)

any-append : (c : ℕ) (p q : Bytes) → any (λ x. x == c) (p ++ c ∷ q) ≡ true
unfolding any
any-append c [] q = ground arith
any-append c (x ∷ p) q = ground (arith, any-append c p q)

-- A prefix that ends with a character cannot reach into a suffix without it.
no_overlap :
    (c : ℕ) (p q r s : Bytes)
    → p ++ c ∷ q ≡ r ++ s
    → any (λ x. x == c) s ≡ false
    → length p < length r
no_overlap c p q [] s e h =
    let found : any (λ x. x == c) s ≡ true = rw e at (any-append c p q) in cc (found, h)
no_overlap c [] q (x ∷ r) s e h = omega arith
no_overlap c (y ∷ p) q (x ∷ r) s e h = omega (arith, no_overlap c p q r s (cc e) h)

-- The text between a prefix and a suffix that do not overlap.
between : (p q r s : Bytes) → p ++ q ≡ r ++ s → length p ≤ length r → (n : Bytes) × (q ≡ n ++ s)
between [] q r s e h = (r, e)
between (x ∷ p) q [] s e h = absurd (omega (arith, h))
between (x ∷ p) q (y ∷ r) s e h = between p q r s (cc e) (omega (arith, h))

pub middle :
    (c : ℕ) (p s l : Bytes)
    → starts_with (p ++ c ∷ []) l ≡ true
    → ends_with s l ≡ true
    → any (λ x. x == c) s ≡ false
    → (n : Bytes) × (l ≡ (p ++ c ∷ []) ++ (n ++ s))
middle c p s l starts ends h =
    let (q, e) = starts_with_split (p ++ c ∷ []) l starts in
    let (r, f) = ends_with_split s l ends in
    let g = sym e ∙ f in
    let apart = no_overlap c p q r s (sym (append_assoc p (c ∷ []) q) ∙ g) h in
    let (n, k) = between (p ++ c ∷ []) q r s g (omega (arith, apart, length-append p (c ∷ []))) in
    (n, e ∙ ap (◌++◌ (p ++ c ∷ [])) k)

pub starts_with-append : (p q : Bytes) → starts_with p (p ++ q) ≡ true
starts_with-append [] q = refl
starts_with-append (x ∷ p) q = ground (arith, starts_with-append p q)

drop-append : (r s : Bytes) → drop (length r) (r ++ s) ≡ s
drop-append [] s = refl
drop-append (x ∷ r) s = drop-append r s

take-append : (r s : Bytes) → take (length r) (r ++ s) ≡ r
take-append [] s = refl
take-append (x ∷ r) s = ap (◌∷◌ x) (take-append r s)

pub ends_with-append : (r s : Bytes) → ends_with s (r ++ s) ≡ true
ends_with-append r s =
    let e : length (r ++ s) - length s ≡ length r = omega (arith, length-append r s) in
    let f : leb (length s) (length (r ++ s)) ≡ true = ground (arith, length-append r s) in
    rw (f, e, drop-append r s) (same_bytes_refl s)

pub cut_middle : (p n s : Bytes) → cut (length p) (length s) (p ++ (n ++ s)) ≡ some n
unfolding cut
cut_middle p n s =
    let e : length (p ++ (n ++ s)) ≡ length p + (length n + length s) =
      length-append p (n ++ s) ∙ ap (◌+◌ (length p)) (length-append n s) in
    let f : leb (length s) (length p + (length n + length s)) ≡ true = ground arith in
    let g : length p + (length n + length s) - length s ≡ length p + length n = omega arith in
    let h : leb (length p) (length p + length n) ≡ true = ground arith in
    let i : leb (length p + length n) (length p + (length n + length s)) ≡ true = ground arith in
    let j : length p + length n - length p ≡ length n = omega arith in
    rw (e, f, g, h, i, j, drop-append p (n ++ s), take-append n s) refl
