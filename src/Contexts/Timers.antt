-- ===== src/Contexts/Timers.antt =====
-- The timers of the nodes of a context of src/context.rs, which outlive it.
use mathlib.Core.Path.{subst}
use r2r.Prelude.{
  ℕ, zero, suc, ◌+◌, ◌-◌, ◌≤◌, ◌≡◌, refl, ap, ◌∙◌, List, ◌∷◌, ◌++◌, ◌==◌, if◌then◌else◌, arith,
  Bool-cases, inl, inr,
}
use r2r.Errors.{Ret, is_ok}
use r2r.Contexts.{
  Call, timer_init, timer_fini, clock_init, clock_fini, World, create_timer, end_timer, fini_timers,
  set_timers, holds,
}
use r2r.Contexts.Order.{
  IsRunning, inits, finis, timer_inits, timer_finis, OnlyTimers, Shut, IsOrdered, AreTimed,
  IsOrderly, AreBalanced, running, runs, length-without,
}

fini_timers-append :
    (n k : ℕ) (after rest : List Call)
    → fini_timers n k (after ++ rest) ≡ fini_timers n k after ++ rest
unfolding fini_timers
fini_timers-append n zero after rest = refl
fini_timers-append n (suc k) after rest = fini_timers-append n k _ rest

fini_timers-IsRunning :
    (n k : ℕ) (calls : List Call) → IsRunning calls → IsRunning (fini_timers n k calls)
unfolding fini_timers
fini_timers-IsRunning n zero calls r = r
fini_timers-IsRunning n (suc k) calls r = fini_timers-IsRunning n k _ r

fini_timers-OnlyTimers :
    (n k : ℕ) (calls : List Call) → OnlyTimers calls → OnlyTimers (fini_timers n k calls)
unfolding fini_timers
fini_timers-OnlyTimers n zero calls o = o
fini_timers-OnlyTimers n (suc k) calls o = fini_timers-OnlyTimers n k _ o

-- The nodes are as before, no timer is initialized, and `k` timers of the node are finalized.
fini_timers_lem :
    (n k m : ℕ) (calls : List Call)
    → let after = fini_timers n k calls in
      (inits m after ≡ inits m calls)
      × (finis m after ≡ finis m calls)
      × (timer_inits m after ≡ timer_inits m calls)
      × (timer_finis m after ≡ (if n == m then k else 0) + timer_finis m calls)
unfolding fini_timers
fini_timers_lem n zero m calls = (refl, refl, refl, ground arith)
fini_timers_lem n (suc k) m calls =
    let (i, f, t, g) = fini_timers_lem n k m (clock_fini n ∷ timer_fini n ∷ calls) in
    (i, f, t, ground (arith, g))

fini_timers-Shut : (n k : ℕ) (calls : List Call) → Shut calls → Shut (fini_timers n k calls)
fini_timers-Shut n k calls (before, after, e, r, b, o) = (
  before,
  fini_timers n k after,
  ap (fini_timers n k) e ∙ fini_timers-append n k after _,
  r,
  b,
  fini_timers-OnlyTimers n k after o,
)

-- The order of the calls does not mind timers that are finalized.
pub fini_timers-IsOrdered :
    (n k strong : ℕ) (w : World) (timers : ℕ → ℕ)
    → w.strong ≡ strong
    → IsOrdered w
    → IsOrdered (record w { timers = timers; calls = fini_timers n k w.calls })
unfolding AreBalanced
fini_timers-IsOrdered n k zero w timers e o =
    let shut : Shut w.calls = rw (IsOrdered, e) at o in
    rw (IsOrdered, e) (fini_timers-Shut n k w.calls shut)
fini_timers-IsOrdered n k (suc s) w timers e o =
    let (r, b) = running w s e o in
    runs (record w { timers = timers; calls = fini_timers n k w.calls }) s e
      (fini_timers-IsRunning n k w.calls r)
      (λ m. let (i, f, _, _) = fini_timers_lem n k m w.calls in omega (arith, b m, i, f))

-- Timers that leave a node are finalized.
pub fini_timers-AreTimed :
    (n k left : ℕ) (w : World)
    → w.timers n ≡ k + left
    → AreTimed w
    → AreTimed (record w { timers = set_timers n left w.timers; calls = fini_timers n k w.calls })
unfolding set_timers
fini_timers-AreTimed n k left w e t m =
    let (_, _, i, f) = fini_timers_lem n k m w.calls in
    elim (Bool-cases (n == m)) [
      | inl hit ↦
          let same : n ≡ m = ground (arith, hit) in
          let here : w.timers m ≡ k + left = subst (λ q. w.timers q ≡ k + left) same e in
          rw (set_timers, hit) (omega (arith, t m, i, rw hit at f, here))
      | inr miss ↦ rw (set_timers, miss) (omega (arith, t m, i, rw miss at f))
    ]

pub end_timer-IsOrderly :
    (n : ℕ) (w : World) → IsOrderly w → 1 ≤ w.timers n → IsOrderly (end_timer n w)
unfolding end_timer set_timers
end_timer-IsOrderly n w (c, o, t, q) le = (
  c,
  fini_timers-IsOrdered n 1 w.strong w (set_timers n (w.timers n - 1) w.timers) refl o,
  fini_timers-AreTimed n 1 (w.timers n - 1) w (omega (arith, le)) t,
  λ m h. ground (arith, q m h),
)

pub create_timer-IsOrderly :
    (clock timer : Ret) (n : ℕ) (w : World)
    → IsOrderly w
    → 1 ≤ holds n w.nodes
    → IsOrderly (create_timer clock timer n w)
unfolding create_timer set_timers AreBalanced
create_timer-IsOrderly clock timer n w (c, o, t, q) le =
    let k = w.strong - 1 in
    let e : w.strong ≡ suc k = omega (arith, c, length-without n w.nodes le) in
    let (r, b) = running w k e o in
    elim (Bool-cases (is_ok clock)) [
      | inr f ↦ rw (create_timer, f) (c, o, t, q)
      | inl f ↦ elim (Bool-cases (is_ok timer)) [
        | inl g ↦
            let more = record w {
              timers = set_timers n (suc (w.timers n)) w.timers;
              calls = timer_init n ∷ clock_init n ∷ w.calls;
            } in
            rw (create_timer, f, g)
              (
                c,
                runs more k e r b,
                λ m. elim (Bool-cases (n == m)) [
                  | inl hit ↦
                      let same : n ≡ m = ground (arith, hit) in rw (hit, same) (omega (arith, t m))
                  | inr miss ↦ rw miss (omega (arith, t m))
                ],
                λ m h. elim (Bool-cases (n == m)) [
                  | inl hit ↦
                      let same : n ≡ m = ground (arith, hit) in
                      absurd (omega (arith, subst (λ x. 1 ≤ holds x w.nodes) same le, h))
                  | inr miss ↦ rw miss (q m h)
                ],
              )
        | inr g ↦
            let tried = record w { calls = clock_fini n ∷ clock_init n ∷ w.calls } in
            rw (create_timer, f, g) (c, runs tried k e r b, t, q)
      ]
    ]
