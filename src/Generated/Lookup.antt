-- ===== src/Generated/Lookup.antt =====
-- The three functions `new_from` that `generate_untyped_helper`, `generate_untyped_service_helper` and
-- `generate_untyped_action_helper` of r2r_msg_gen/src/lib.rs write for the messages of the
-- installation: which type a name stands for. `none` is `Err(Error::InvalidMessageType)`.
use mathlib.Core.Logic.{◌↔◌}
use r2r.Prelude.{
  ◌≡◌, sym, ap, ◌∙◌, List, [], ◌∷◌, Option, none, some, Bool, true, not, ◌&&◌, ◌||◌, if◌then◌else◌,
  arith, All, Bool-cases, inl, inr, ◌⊎◌,
}
use r2r.Prelude.Bytes.{Bytes, bytes, same_bytes, same_bytes_sound, same_bytes_refl}
use r2r.Common.{RosMsg, parse_msg}
use r2r.Common.Parsing.{full_name, IsPlain, parse_msg-full_name}
use r2r.Common.Sorting.{Has}

-- The chain of `if typename == "..." { return Ok(..) }` over the messages that `wanted` leaves.
unfoldable pub typename_chain : (wanted : RosMsg → Bool) → List RosMsg → Bytes → Option RosMsg
typename_chain wanted [] typename = none
typename_chain wanted (msg ∷ msgs) typename =
    let rest = typename_chain wanted msgs typename in
    if wanted msg && same_bytes typename (full_name msg) then some msg else rest

abbrev pub is_message : RosMsg → Bool
is_message msg = not (same_bytes msg.prefix (bytes "srv") || same_bytes msg.prefix (bytes "action"))

abbrev pub is_service : RosMsg → Bool
is_service msg = same_bytes msg.prefix (bytes "srv")

abbrev pub is_action : RosMsg → Bool
is_action msg = same_bytes msg.prefix (bytes "action")

-- `WrappedNativeMsgUntyped::new_from`.
unfoldable pub new_from : List RosMsg → Bytes → Option RosMsg
unfolding typename_chain
new_from msgs typename = typename_chain is_message msgs typename

-- `UntypedServiceSupport::new_from`.
unfoldable pub new_service_from : List RosMsg → Bytes → Option RosMsg
unfolding typename_chain
new_service_from msgs typename = typename_chain is_service msgs typename

-- `UntypedActionSupport::new_from`.
unfoldable pub new_action_from : List RosMsg → Bytes → Option RosMsg
unfolding typename_chain
new_action_from msgs typename = typename_chain is_action msgs typename

full_name_injective : (m n : RosMsg) → IsPlain m → IsPlain n → full_name m ≡ full_name n → m ≡ n
full_name_injective m n p q e =
    cc (sym (parse_msg-full_name m p) ∙ (ap parse_msg e ∙ parse_msg-full_name n q))

module _ (wanted : RosMsg → Bool) where
  chain_finds :
      (msgs : List RosMsg) (typename : Bytes) (m : RosMsg)
      → typename_chain wanted msgs typename ≡ some m
      → Has (λ x. x ≡ m) msgs × ((wanted m ≡ true) × (typename ≡ full_name m))
  unfolding typename_chain
  chain_finds [] typename m e = cc
  chain_finds (msg ∷ msgs) typename m e =
      elim (Bool-cases (wanted msg && same_bytes typename (full_name msg))) [
        | inl hit ↦
            let d : msg ≡ m = cc (rw hit at e) in
            let named = same_bytes_sound typename (full_name msg) (ground (arith, hit)) in
            (inl d, (rw⁻¹ d (ground (arith, hit)), named ∙ ap full_name d))
        | inr other ↦ let (h, rest) = chain_finds msgs typename m (rw other at e) in (inr h, rest)
      ]

  chain_complete :
      (msgs : List RosMsg) (m : RosMsg)
      → All IsPlain msgs
      → IsPlain m
      → Has (λ x. x ≡ m) msgs
      → wanted m ≡ true
      → typename_chain wanted msgs (full_name m) ≡ some m
  unfolding typename_chain
  chain_complete [] m p q h w = absurd h
  chain_complete (msg ∷ msgs) m (p, ps) q h w =
      elim (Bool-cases (wanted msg && same_bytes (full_name m) (full_name msg))) [
        | inl hit ↦
            let e = same_bytes_sound (full_name m) (full_name msg) (ground (arith, hit)) in
            rw hit (ap some (full_name_injective msg m p q (sym e)))
        | inr other ↦ elim h [
          | inl d ↦
              let there : wanted msg ≡ true = ap wanted d ∙ w in
              let f : full_name m ≡ full_name msg = ap full_name (sym d) in
              let same : same_bytes (full_name m) (full_name msg) ≡ true =
                rw f (same_bytes_refl (full_name msg)) in
              absurd (ground (arith, other, there, same))
          | inr later ↦ rw other (chain_complete msgs m ps q later w)
        ]
      ]

  chain_iff :
      (msgs : List RosMsg) (m : RosMsg)
      → All IsPlain msgs
      → IsPlain m
      → (typename_chain wanted msgs (full_name m) ≡ some m)
        ↔ (Has (λ x. x ≡ m) msgs × (wanted m ≡ true))
  chain_iff msgs m p q = (
    (λ e. let (h, (w, f)) = chain_finds msgs (full_name m) m e in (h, w)),
    λ h. chain_complete msgs m p q h.0 h.1,
  )

-- If no part of a name has a slash, the name of a type stands for exactly that type, in the lookup of
-- messages, of services or of actions, if it is in the list and of that kind; and every name that is
-- found is the name of the type that it stands for.
pub new_from_iff :
    (msgs : List RosMsg) (m : RosMsg)
    → All IsPlain msgs
    → IsPlain m
    → ((new_from msgs (full_name m) ≡ some m) ↔ (Has (λ x. x ≡ m) msgs × (is_message m ≡ true)))
      × (((new_service_from msgs (full_name m) ≡ some m)
            ↔ (Has (λ x. x ≡ m) msgs × (is_service m ≡ true)))
          × (((new_action_from msgs (full_name m) ≡ some m)
                ↔ (Has (λ x. x ≡ m) msgs × (is_action m ≡ true)))
              × ((typename : Bytes)
                  → ((new_from msgs typename ≡ some m)
                      ⊎ ((new_service_from msgs typename ≡ some m)
                          ⊎ (new_action_from msgs typename ≡ some m)))
                  → typename ≡ full_name m)))
unfolding new_from new_service_from new_action_from
new_from_iff msgs m p q = (
  chain_iff is_message msgs m p q,
  (
    chain_iff is_service msgs m p q,
    (
      chain_iff is_action msgs m p q,
      λ typename e. elim e [
        | inl f ↦ (chain_finds is_message msgs typename m f).1.1
        | inr g ↦ elim g [
          | inl f ↦ (chain_finds is_service msgs typename m f).1.1
          | inr f ↦ (chain_finds is_action msgs typename m f).1.1
        ]
      ],
    ),
  ),
)
