-- ===== src/Errors/Codes.antt =====
-- `Error::from_rcl_error` of src/error.rs. The numbers of the return codes are constants that the
-- build takes from the rcl headers, so they are the parameter `value`.
use mathlib.Core.Logic.{ite, if_pos, if_neg, ◌≢◌}
use r2r.Prelude.{
  ◌≤◌, arith, ℕ, zero, suc, ◌≡◌, ◌↔◌, inl, inr, refl, ap, ◌∙◌, Bool, true, false, List, [], ◌∷◌,
  Option, none, some, ◌==◌, ==_iff, if◌then◌else◌, Bool-cases, Option-cases,
}
use r2r.Errors.{
  Ret, rcl_ret_ok, rcl_ret_error, rcl_ret_timeout, rcl_ret_bad_alloc, rcl_ret_invalid_argument,
  rcl_ret_unsupported, rcl_ret_already_init, rcl_ret_not_init, rcl_ret_mismatched_rmw_id,
  rcl_ret_topic_name_invalid, rcl_ret_service_name_invalid, rcl_ret_unknown_substitution,
  rcl_ret_already_shutdown, rcl_ret_node_invalid, rcl_ret_node_invalid_name,
  rcl_ret_node_invalid_namespace, rcl_ret_publisher_invalid, rcl_ret_subscription_invalid,
  rcl_ret_subscription_take_failed, rcl_ret_client_invalid, rcl_ret_client_take_failed,
  rcl_ret_service_invalid, rcl_ret_service_take_failed, rcl_ret_timer_invalid,
  rcl_ret_timer_canceled, rcl_ret_wait_set_invalid, rcl_ret_wait_set_empty, rcl_ret_wait_set_full,
  rcl_ret_invalid_remap_rule, rcl_ret_wrong_lexeme, rcl_ret_invalid_param_rule,
  rcl_ret_invalid_log_level_rule, rcl_ret_event_invalid, rcl_ret_event_take_failed,
  rcl_ret_action_name_invalid, rcl_ret_action_goal_accepted, rcl_ret_action_goal_rejected,
  rcl_ret_action_client_invalid, rcl_ret_action_client_take_failed, rcl_ret_action_server_invalid,
  rcl_ret_action_server_take_failed, rcl_ret_action_goal_handle_invalid,
  rcl_ret_action_goal_event_invalid,
}

-- The arms of the match, from the first to the last.
arms : List Ret
arms =
    rcl_ret_ok ∷ rcl_ret_error ∷ rcl_ret_timeout ∷ rcl_ret_bad_alloc ∷ rcl_ret_invalid_argument
    ∷ rcl_ret_unsupported ∷ rcl_ret_already_init ∷ rcl_ret_not_init ∷ rcl_ret_mismatched_rmw_id
    ∷ rcl_ret_topic_name_invalid ∷ rcl_ret_service_name_invalid ∷ rcl_ret_unknown_substitution
    ∷ rcl_ret_already_shutdown ∷ rcl_ret_node_invalid ∷ rcl_ret_node_invalid_name
    ∷ rcl_ret_node_invalid_namespace ∷ rcl_ret_publisher_invalid ∷ rcl_ret_subscription_invalid
    ∷ rcl_ret_subscription_take_failed ∷ rcl_ret_client_invalid ∷ rcl_ret_client_take_failed
    ∷ rcl_ret_service_invalid ∷ rcl_ret_service_take_failed ∷ rcl_ret_timer_invalid
    ∷ rcl_ret_timer_canceled ∷ rcl_ret_wait_set_invalid ∷ rcl_ret_wait_set_empty
    ∷ rcl_ret_wait_set_full ∷ rcl_ret_invalid_remap_rule ∷ rcl_ret_wrong_lexeme
    ∷ rcl_ret_invalid_param_rule ∷ rcl_ret_invalid_log_level_rule ∷ rcl_ret_event_invalid
    ∷ rcl_ret_event_take_failed ∷ rcl_ret_action_name_invalid ∷ rcl_ret_action_goal_accepted
    ∷ rcl_ret_action_goal_rejected ∷ rcl_ret_action_client_invalid
    ∷ rcl_ret_action_client_take_failed ∷ rcl_ret_action_server_invalid
    ∷ rcl_ret_action_server_take_failed ∷ rcl_ret_action_goal_handle_invalid
    ∷ rcl_ret_action_goal_event_invalid ∷ []

-- The first arm whose constant is `e`.
first_arm : (Ret → ℕ) → List Ret → ℕ → Option Ret
first_arm value [] e = none
first_arm value (c ∷ cs) e = if e == value c then some c else first_arm value cs e

-- `none` is the panic of the last arm. `e` is the code as a `u32`.
pub from_rcl_error : (Ret → ℕ) → ℕ → Option Ret
unfolding arms first_arm
from_rcl_error value e = first_arm value arms e

Ret-discrete : Discrete Ret
Ret-discrete = hlevel

has : Ret → List Ret → Bool
has c [] = false
has c (d ∷ ds) = ite (Ret-discrete c d) true (has c ds)

arms-has : (c : Ret) → has c arms ≡ true
unfolding arms has Ret-discrete
arms-has rcl_ret_ok = refl
arms-has _ = refl

-- The place of an arm, from 0.
place : Ret → List Ret → ℕ
place c [] = 0
place c (d ∷ ds) = ite (Ret-discrete c d) 0 (suc (place c ds))

first_arm_first :
    (value : Ret → ℕ) (cs : List Ret) (e : ℕ) (c : Ret)
    → first_arm value cs e ≡ some c
    → (e ≡ value c) × ((d : Ret) → has d cs ≡ true → e ≡ value d → place c cs ≤ place d cs)
unfolding first_arm has place
first_arm_first value [] e c h = cc
first_arm_first value (d ∷ ds) e c h = elim (Bool-cases (e == value d)) [
  | inl hit ↦
      let same : ◌≡◌ {A = Option Ret} (some d) (some c) = rw hit at h in
      let here : c ≡ d = cc same in
      (
        (==_iff _ _).0 hit ∙ ap value (cc same),
        λ q _ _. rw (if_pos (Ret-discrete c d) here) (omega arith),
      )
  | inr miss ↦
      let (found, least) = first_arm_first value ds e c (rw miss at h) in
      (
        found,
        λ q member eq. elim (Ret-discrete q d) [
          | yes p ↦ cc (miss, (==_iff e (value d)).1 (eq ∙ ap value p))
          | no p ↦
              let there = least q (rw (if_neg (Ret-discrete q d) p) at member) eq in
              rw (if_neg (Ret-discrete q d) p) (elim (Ret-discrete c d) [
                | yes r ↦ rw (if_pos (Ret-discrete c d) r) (omega arith)
                | no r ↦ rw (if_neg (Ret-discrete c d) r) (omega (arith, there))
              ])
        ],
      )
]

first_arm-some :
    (value : Ret → ℕ) (cs : List Ret) (e : ℕ) (c : Ret)
    → has c cs ≡ true
    → e ≡ value c
    → (d : Ret) × (first_arm value cs e ≡ some d)
unfolding first_arm has
first_arm-some value [] e c h p = cc
first_arm-some value (d ∷ ds) e c h p = elim (Bool-cases (e == value d)) [
  | inl hit ↦ (d, rw hit refl)
  | inr miss ↦ elim (Ret-discrete c d) [
    | yes q ↦ cc (miss, (==_iff e (value d)).1 (p ∙ ap value q))
    | no q ↦
        let (f, g) = first_arm-some value ds e c (rw (if_neg (Ret-discrete c d) q) at h) p in
        (f, rw miss g)
  ]
]

-- The place of a return code in the source.
abbrev pub number : Ret → ℕ
number rcl_ret_ok = 0
number rcl_ret_error = 1
number rcl_ret_timeout = 2
number rcl_ret_bad_alloc = 3
number rcl_ret_invalid_argument = 4
number rcl_ret_unsupported = 5
number rcl_ret_already_init = 6
number rcl_ret_not_init = 7
number rcl_ret_mismatched_rmw_id = 8
number rcl_ret_topic_name_invalid = 9
number rcl_ret_service_name_invalid = 10
number rcl_ret_unknown_substitution = 11
number rcl_ret_already_shutdown = 12
number rcl_ret_node_invalid = 13
number rcl_ret_node_invalid_name = 14
number rcl_ret_node_invalid_namespace = 15
number rcl_ret_publisher_invalid = 16
number rcl_ret_subscription_invalid = 17
number rcl_ret_subscription_take_failed = 18
number rcl_ret_client_invalid = 19
number rcl_ret_client_take_failed = 20
number rcl_ret_service_invalid = 21
number rcl_ret_service_take_failed = 22
number rcl_ret_timer_invalid = 23
number rcl_ret_timer_canceled = 24
number rcl_ret_wait_set_invalid = 25
number rcl_ret_wait_set_empty = 26
number rcl_ret_wait_set_full = 27
number rcl_ret_invalid_remap_rule = 28
number rcl_ret_wrong_lexeme = 29
number rcl_ret_invalid_param_rule = 30
number rcl_ret_invalid_log_level_rule = 31
number rcl_ret_event_invalid = 32
number rcl_ret_event_take_failed = 33
number rcl_ret_action_name_invalid = 34
number rcl_ret_action_goal_accepted = 35
number rcl_ret_action_goal_rejected = 36
number rcl_ret_action_client_invalid = 37
number rcl_ret_action_client_take_failed = 38
number rcl_ret_action_server_invalid = 39
number rcl_ret_action_server_take_failed = 40
number rcl_ret_action_goal_handle_invalid = 41
number rcl_ret_action_goal_event_invalid = 42

number-place : (c : Ret) → number c ≡ place c arms
unfolding place arms Ret-discrete
number-place rcl_ret_ok = refl
number-place _ = refl

at : ℕ → List Ret → Option Ret
at n [] = none
at zero (d ∷ ds) = some d
at (suc n) (d ∷ ds) = at n ds

at-place : (c : Ret) (ds : List Ret) → has c ds ≡ true → at (place c ds) ds ≡ some c
unfolding at place has
at-place c [] h = cc
at-place c (d ∷ ds) h = elim (Ret-discrete c d) [
  | yes p ↦ rw (if_pos _ p) (cc p)
  | no p ↦ rw (if_neg _ p) (at-place c ds (rw (if_neg _ p) at h))
]

number-injective : (a b : Ret) → number a ≡ number b → a ≡ b
number-injective a b e =
    cc (
      at-place a arms (arms-has a),
      at-place b arms (arms-has b),
      number-place a,
      number-place b,
      e,
    )

-- `from_rcl_error` gives a return code exactly when the number is the constant of that code and of
-- no code that comes before it in the source, whatever the constants are; two may be the same.
pub from_rcl_error_iff :
    (value : Ret → ℕ) (e : ℕ) (c : Ret)
    → (from_rcl_error value e ≡ some c)
      ↔ ((e ≡ value c) × ((d : Ret) → e ≡ value d → number c ≤ number d))
unfolding from_rcl_error
from_rcl_error_iff value e c = (
  (λ h.
      let (found, least) = first_arm_first value arms e c h in
      (found, λ d eq. rw (number-place c, number-place d) (least d (arms-has d) eq))),
  (λ p.
      let (d, h) = first_arm-some value arms e c (arms-has c) p.0 in
      let (found, least) = first_arm_first value arms e d h in
      let before = least c (arms-has c) p.0 in
      let same : number c ≡ number d =
        omega (arith, p.1 d found, before, number-place c, number-place d) in
      rw (number-injective c d same) h),
)

-- `from_rcl_error` panics exactly on the numbers that are no return code.
pub from_rcl_error-panics_iff :
    (value : Ret → ℕ) (e : ℕ) → (from_rcl_error value e ≡ none) ↔ ((c : Ret) → e ≢ value c)
unfolding from_rcl_error
from_rcl_error-panics_iff value e = (
  (λ h c p. cc (h, (first_arm-some value arms e c (arms-has c) p).1)),
  (λ h. elim (Option-cases (from_rcl_error value e)) [
    | inl p ↦ p
    | inr (c, p) ↦ absurd (h c (first_arm_first value arms e c p).0)
  ]),
)
