-- ===== src/Common/Parsing.antt =====
-- `parse_msgs` of r2r_common/src/lib.rs, on the names that the index gives.
use r2r.Prelude.{
  ℕ, ◌≡◌, refl, ap, List, [], ◌∷◌, ◌++◌, map, some, false, not, ◌==◌, arith, any, All, retain,
}
use r2r.Prelude.Bytes.{Bytes, bytes, same_bytes, split}
use r2r.Common.{RosMsg, parse_msg, parse_all, parse_msgs}

-- The name that an index gives to a message type.
abbrev pub full_name : RosMsg → Bytes
full_name m = m.module_name ++ b'/' ∷ (m.prefix ++ b'/' ∷ m.name)

abbrev pub Undivided : Bytes → Type 0
Undivided l = any (λ x. x == b'/') l ≡ false

-- No part of the name has a slash of its own.
abbrev pub IsPlain : RosMsg → Type 0
IsPlain m = Undivided m.module_name × (Undivided m.prefix × Undivided m.name)

pub split_first :
    (c : ℕ) (p q : Bytes) → any (λ x. x == c) p ≡ false → split c (p ++ c ∷ q) ≡ p ∷ split c q
unfolding split any
split_first c [] q h = ground arith
split_first c (x ∷ p) q h = ground (arith, split_first c p q)

split_last : (c : ℕ) (p : Bytes) → any (λ x. x == c) p ≡ false → split c p ≡ p ∷ []
unfolding split any
split_last c [] h = refl
split_last c (x ∷ p) h = ground (arith, split_last c p)

pub parse_msg-full_name : (m : RosMsg) → IsPlain m → parse_msg (full_name m) ≡ some m
unfolding parse_msg
parse_msg-full_name m (a, (b, c)) =
    rw
      (
        parse_msg,
        split_first b'/' m.module_name (m.prefix ++ b'/' ∷ m.name) a,
        split_first b'/' m.prefix m.name b,
        split_last b'/' m.name c,
      )
      refl

parse_all-full_name : (ms : List RosMsg) → All IsPlain ms → parse_all (map full_name ms) ≡ ms
unfolding parse_all
parse_all-full_name [] h = refl
parse_all-full_name (m ∷ ms) (p, h) =
    rw (parse_all, parse_msg-full_name m p, parse_all-full_name ms h) refl

-- The full names of messages whose parts have no slash are read back as the messages, in order,
-- without those of the package that is left out.
pub parse_msgs-full_name :
    (ms : List RosMsg)
    → All IsPlain ms
    → parse_msgs (map full_name ms)
      ≡ retain (λ m. not (same_bytes m.module_name (bytes "libstatistics_collector"))) ms
unfolding parse_msgs
parse_msgs-full_name ms h = ap (retain _) (parse_all-full_name ms h)
