-- ===== src/Common/Names.antt =====
-- The lines of an index file that declare a name, and that they declare one only.
use mathlib.Core.List.{append_cancel_left, append_cancel_right}
use r2r.Prelude.{ℕ, ◌≡◌, ◌≢◌, refl, sym, ap, ◌∙◌, [], ◌∷◌, ◌++◌, arith, inl, inr, ◌⊎◌}
use r2r.Prelude.Bytes.{Bytes, bytes}

-- The folders that an index lists, and what their files end with beside `.idl`.
pub data Kind : Type 0 where
  in_msg in_srv in_action : Kind

abbrev pub folder : Kind → Bytes
folder in_msg = bytes "msg"
folder in_srv = bytes "srv"
folder in_action = bytes "action"

abbrev pub ending : Kind → Bytes
ending in_msg = bytes ".msg"
ending in_srv = bytes ".srv"
ending in_action = bytes ".action"

-- The line is the path of a file of the kind, `name` without its ending.
abbrev pub Declares : Kind → (name l : Bytes) → Type 0
Declares k name l =
    (s : Bytes) × (((s ≡ bytes ".idl") ⊎ (s ≡ ending k))
      × (l ≡ (folder k ++ b'/' ∷ []) ++ (name ++ s)))

abbrev first : Bytes → ℕ
first [] = 0
first (c ∷ l) = c

-- A line declares at most one kind.
pub one_kind : (j k : Kind) (m n l : Bytes) → Declares j m l → Declares k n l → j ≡ k
one_kind in_msg in_msg m n l (s, (c, e)) (t, (d, g)) = refl
one_kind in_srv in_srv m n l (s, (c, e)) (t, (d, g)) = refl
one_kind in_action in_action m n l (s, (c, e)) (t, (d, g)) = refl
one_kind in_msg in_srv m n l (s, (c, e)) (t, (d, g)) = absurd (omega (arith, ap first (sym e ∙ g)))
one_kind in_msg in_action m n l (s, (c, e)) (t, (d, g)) =
    absurd (omega (arith, ap first (sym e ∙ g)))
one_kind in_srv in_msg m n l (s, (c, e)) (t, (d, g)) = absurd (omega (arith, ap first (sym e ∙ g)))
one_kind in_srv in_action m n l (s, (c, e)) (t, (d, g)) =
    absurd (omega (arith, ap first (sym e ∙ g)))
one_kind in_action in_msg m n l (s, (c, e)) (t, (d, g)) =
    absurd (omega (arith, ap first (sym e ∙ g)))
one_kind in_action in_srv m n l (s, (c, e)) (t, (d, g)) =
    absurd (omega (arith, ap first (sym e ∙ g)))

last : Bytes → ℕ
last [] = 0
last (c ∷ []) = c
last (c ∷ d ∷ l) = last (d ∷ l)

last-append : (n : Bytes) (c : ℕ) (s : Bytes) → last (n ++ c ∷ s) ≡ last (c ∷ s)
unfolding last
last-append [] c s = refl
last-append (x ∷ []) c s = refl
last-append (x ∷ y ∷ n) c s = last-append (y ∷ n) c s

-- The two endings of a kind end with different letters.
endings_apart : (k : Kind) (m n : Bytes) → m ++ bytes ".idl" ≢ n ++ ending k
unfolding last
endings_apart in_msg m n e =
    absurd
      (omega (arith, ap last e, last-append m 46 (bytes "idl"), last-append n 46 (bytes "msg")))
endings_apart in_srv m n e =
    absurd
      (omega (arith, ap last e, last-append m 46 (bytes "idl"), last-append n 46 (bytes "srv")))
endings_apart in_action m n e =
    absurd
      (omega (arith, ap last e, last-append m 46 (bytes "idl"), last-append n 46 (bytes "action")))

-- A line declares at most one name.
pub one_name : (k : Kind) (m n l : Bytes) → Declares k m l → Declares k n l → m ≡ n
one_name k m n l (s, (c, e)) (t, (d, g)) =
    let h : m ++ s ≡ n ++ t =
      append_cancel_left (folder k ++ b'/' ∷ []) (m ++ s) (n ++ t) (sym e ∙ g) in
    elim c [
      | inl i ↦ elim d [
        | inl j ↦ append_cancel_right m n (bytes ".idl") (rw (i, j) at h)
        | inr j ↦ absurd (endings_apart k m n (rw (i, j) at h))
      ]
      | inr i ↦ elim d [
        | inl j ↦ absurd (endings_apart k n m (sym (rw (i, j) at h)))
        | inr j ↦ append_cancel_right m n (ending k) (rw (i, j) at h)
      ]
    ]
