-- ===== src/Build/Cutting.antt =====
-- What r2r_msg_gen/src/lib.rs makes of the names that the C library gives, if they are names that
-- ROS allows.
use mathlib.Core.List.{append_assoc}
use r2r.Prelude.{
  ℕ, suc, ◌≡◌, refl, ap, ◌∙◌, [], ◌∷◌, ◌++◌, some, Bool, true, false, not, ◌&&◌, ◌||◌, ◌==◌,
  if◌then◌else◌, any, arith, Bool-cases, inl, inr,
}
use r2r.Prelude.Bytes.{Bytes, bytes, same_bytes, same_bytes_refl}
use r2r.Errors.{ok}
use r2r.Common.{BytesMap}
use r2r.Build.Keys.{key, part}
use r2r.Build.Naming.{
  push_front, split_from, splitn, Library, introspection, last_part, struct_name,
}

-- No two underscores follow each other, and none is last, as in the name of a ROS package.
abbrev pub is_package_name : Bytes → Bool
is_package_name [] = true
is_package_name (c ∷ []) = not (c == b'_')
is_package_name (c ∷ d ∷ l) = not ((c == b'_') && (d == b'_')) && is_package_name (d ∷ l)

-- No underscore, as in the name of a ROS message type.
abbrev pub has_underscore : Bytes → Bool
has_underscore l = any (λ x. x == b'_') l

split_pending :
    (c : ℕ) (l : Bytes)
    → (c == b'_') ≡ false
    → split_from true (c ∷ l) ≡ push_front b'_' (split_from false (c ∷ l))
unfolding split_from
split_pending c l h = rw (h, split_from) refl

split_plain :
    (c : ℕ) (l : Bytes)
    → (c == b'_') ≡ false
    → split_from false (c ∷ l) ≡ push_front c (split_from false l)
unfolding split_from
split_plain c l h = rw (h, split_from) refl

split_seen : (c : ℕ) (l : Bytes) → (c == b'_') ≡ true → split_from false (c ∷ l) ≡ split_from true l
unfolding split_from
split_seen c l h = rw (h, split_from) refl

split_package :
    (m q : Bytes)
    → is_package_name m ≡ true
    → split_from false (m ++ (bytes "__" ++ q)) ≡ m ∷ split_from false q
unfolding split_from
split_package [] q h = refl
split_package (c ∷ []) q h = split_plain c (bytes "__" ++ q) (ground (arith, h))
split_package (c ∷ d ∷ l) q h =
    let ih = split_package (d ∷ l) q (ground (arith, h)) in
    elim (Bool-cases (c == b'_')) [
      | inr e ↦ split_plain c (d ∷ (l ++ (bytes "__" ++ q))) e ∙ ap (push_front c) ih
      | inl e ↦
          let k : c ≡ b'_' = ground (arith, e) in
          split_seen c (d ∷ (l ++ (bytes "__" ++ q))) e
          ∙ (split_pending d (l ++ (bytes "__" ++ q)) (ground (arith, h, e))
              ∙ (ap (push_front b'_') ih ∙ rw k refl))
    ]

split_whole : (p : Bytes) → has_underscore p ≡ false → split_from false p ≡ p ∷ []
unfolding split_from any
split_whole [] h = refl
split_whole (c ∷ p) h =
    split_plain c p (ground (arith, h)) ∙ ap (push_front c) (split_whole p (ground (arith, h)))

splitn_first :
    (k c : ℕ) (n q : Bytes)
    → any (λ x. x == c) n ≡ false
    → splitn (suc (suc k)) c (n ++ c ∷ q) ≡ n ∷ splitn (suc k) c q
unfolding splitn any
splitn_first k c [] q h = let e : (c == c) ≡ true = ground arith in rw (splitn, e) refl
splitn_first k c (x ∷ n) q h =
    let e : (x == c) ≡ false = ground (arith, h) in
    rw (splitn, e) (ap (push_front x) (splitn_first k c n q (ground (arith, h))))

splitn_last :
    (k c : ℕ) (n : Bytes) → any (λ x. x == c) n ≡ false → splitn (suc (suc k)) c n ≡ n ∷ []
unfolding splitn any
splitn_last k c [] h = refl
splitn_last k c (x ∷ n) h =
    let e : (x == c) ≡ false = ground (arith, h) in
    rw (splitn, e) (ap (push_front x) (splitn_last k c n (ground (arith, h))))

-- The part of a service or an action.
pub last_part-part :
    (n s : Bytes)
    → has_underscore n ≡ false
    → has_underscore s ≡ false
    → last_part (part n s) ≡ ok s
unfolding last_part
last_part-part n s h k = rw (last_part, splitn_first 1 b'_' n s h, splitn_last 0 b'_' s k) refl

-- The part of a service of an action.
pub last_part-part-part :
    (n s r : Bytes)
    → has_underscore n ≡ false
    → has_underscore s ≡ false
    → last_part (part (part n s) r) ≡ ok r
unfolding last_part splitn
last_part-part-part n s r h k =
    let e : part (part n s) r ≡ n ++ b'_' ∷ (s ++ b'_' ∷ r) =
      append_assoc n (b'_' ∷ s) (b'_' ∷ r) in
    rw (e, last_part, splitn_first 1 b'_' n (s ++ b'_' ∷ r) h, splitn_first 0 b'_' s r k) refl

introspection_lem :
    {H : Type 0} (lib : Library H) (ptr : H) (m p n : Bytes)
    → is_package_name m ≡ true
    → has_underscore p ≡ false
    → lib.message_namespace ptr ≡ m ++ (bytes "__" ++ p)
    → lib.message_name ptr ≡ n
    → introspection lib ptr ≡ ok (m, p, n, key m p n)
unfolding introspection
introspection_lem lib ptr m p n t u a b =
    rw (introspection, a, split_package m p t, split_whole p u, b) refl

-- If the table has the type, and the C library describes it by its own names, no assertion fails
-- and the struct gets the name, or the last part of it.
pub struct_name_lem :
    {H : Type 0} (lib : Library H) (fns : BytesMap Bytes) (m p n symbol : Bytes)
    → fns (key m p n) ≡ some symbol
    → is_package_name m ≡ true
    → has_underscore p ≡ false
    → lib.message_namespace (lib.call symbol) ≡ m ++ (bytes "__" ++ p)
    → lib.message_name (lib.call symbol) ≡ n
    → struct_name lib fns m p n
      ≡ (if same_bytes p (bytes "srv") || same_bytes p (bytes "action") then last_part n else ok n)
unfolding struct_name
struct_name_lem lib fns m p n symbol e t u a b =
    rw
      (
        struct_name,
        e,
        introspection_lem lib (lib.call symbol) m p n t u a b,
        same_bytes_refl m,
        same_bytes_refl p,
        same_bytes_refl n,
      )
      refl
