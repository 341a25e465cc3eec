-- ===== src/Contexts/Order.antt =====
-- The order of the calls of rcl in any history of a context of src/context.rs.
use mathlib.Core.Path.{subst}
use r2r.Prelude.{
  ℕ, zero, suc, ◌+◌, ◌-◌, ◌≤◌, ◌≡◌, refl, ap, ◌∙◌, List, [], ◌∷◌, ◌++◌, false, ◌==◌, if◌then◌else◌,
  length, arith, Bool-cases, inl, inr,
}
use r2r.Errors.{Ret, is_ok}
use r2r.Contexts.{
  Call, rcl_init, rcl_shutdown, context_fini, node_init, node_fini, timer_init, timer_fini,
  clock_init, clock_fini, World, drop_handle, drop_context, create_node, without, holds,
}

-- rcl was not shut down.
abbrev pub IsRunning : List Call → Type 0
IsRunning [] = Unit
IsRunning (rcl_init ∷ calls) = IsRunning calls
IsRunning (rcl_shutdown ∷ calls) = ⊥
IsRunning (context_fini ∷ calls) = ⊥
IsRunning (node_init n ∷ calls) = IsRunning calls
IsRunning (node_fini n ∷ calls) = IsRunning calls
IsRunning (timer_init n ∷ calls) = IsRunning calls
IsRunning (timer_fini n ∷ calls) = IsRunning calls
IsRunning (clock_init n ∷ calls) = IsRunning calls
IsRunning (clock_fini n ∷ calls) = IsRunning calls

abbrev pub inits : ℕ → List Call → ℕ
inits n [] = 0
inits n (node_init m ∷ calls) = (if m == n then 1 else 0) + inits n calls
inits n (_ ∷ calls) = inits n calls

abbrev pub finis : ℕ → List Call → ℕ
finis n [] = 0
finis n (node_fini m ∷ calls) = (if m == n then 1 else 0) + finis n calls
finis n (_ ∷ calls) = finis n calls

abbrev pub timer_inits : ℕ → List Call → ℕ
timer_inits n [] = 0
timer_inits n (timer_init m ∷ calls) = (if m == n then 1 else 0) + timer_inits n calls
timer_inits n (_ ∷ calls) = timer_inits n calls

abbrev pub timer_finis : ℕ → List Call → ℕ
timer_finis n [] = 0
timer_finis n (timer_fini m ∷ calls) = (if m == n then 1 else 0) + timer_finis n calls
timer_finis n (_ ∷ calls) = timer_finis n calls

-- Timers and their clocks are finalized, and nothing else happens.
abbrev pub OnlyTimers : List Call → Type 0
OnlyTimers [] = Unit
OnlyTimers (timer_fini n ∷ calls) = OnlyTimers calls
OnlyTimers (clock_fini n ∷ calls) = OnlyTimers calls
OnlyTimers (_ ∷ calls) = ⊥

-- rcl was shut down and the context finalized after every node was, and before nothing but timers.
abbrev pub Shut : List Call → Type 0
Shut calls =
    (before : List Call) × (after : List Call) × (calls
      ≡ after ++ (context_fini ∷ rcl_shutdown ∷ before))
    × IsRunning before
    × ((n : ℕ) → inits n before ≡ finis n before)
    × OnlyTimers after

-- While somebody shares the context, rcl runs, and each node is initialized once more than finalized
-- exactly if it is there; after that, it was shut down.
abbrev pub IsOrdered : World → Type 0
IsOrdered w = elim w.strong [
  | zero ↦ Shut w.calls
  | suc k ↦ IsRunning w.calls × ((n : ℕ) → inits n w.calls ≡ holds n w.nodes + finis n w.calls)
]

-- Each timer was initialized once more than finalized exactly if it is there.
abbrev pub AreTimed : World → Type 0
AreTimed w = (n : ℕ) → timer_inits n w.calls ≡ w.timers n + timer_finis n w.calls

-- A node that is not there has no timers.
abbrev pub AreOwned : World → Type 0
AreOwned w = (n : ℕ) → holds n w.nodes ≡ 0 → w.timers n ≡ 0

-- The owners of the handle are counted, and the calls are in order.
abbrev pub IsOrderly : World → Type 0
IsOrderly w = (w.strong ≡ w.contexts + length w.nodes) × IsOrdered w × AreTimed w × AreOwned w

unfoldable pub AreBalanced : List ℕ → List Call → Type 0
AreBalanced nodes calls = (n : ℕ) → inits n calls ≡ holds n nodes + finis n calls

pub running :
    (w : World) (k : ℕ)
    → w.strong ≡ suc k
    → IsOrdered w
    → IsRunning w.calls × AreBalanced w.nodes w.calls
unfolding AreBalanced
running w k e ordered = rw (IsOrdered, e) at ordered

pub runs :
    (w : World) (k : ℕ)
    → w.strong ≡ suc k
    → IsRunning w.calls
    → AreBalanced w.nodes w.calls
    → IsOrdered w
unfolding AreBalanced
runs w k e r b = rw (IsOrdered, e) (r, b)

unheld : (nodes : List ℕ) → length nodes ≡ 0 → (n : ℕ) → holds n nodes ≡ 0
unheld [] e n = refl
unheld (m ∷ nodes) e n = absurd (omega (arith, e))

pub drop_handle-IsOrdered :
    (w : World) (k : ℕ)
    → w.strong ≡ suc k
    → k ≡ w.contexts + length w.nodes
    → IsRunning w.calls
    → AreBalanced w.nodes w.calls
    → IsOrdered (drop_handle w)
unfolding drop_handle AreBalanced
drop_handle-IsOrdered w zero e c r b =
    let left : w.strong - 1 ≡ 0 = omega (arith, e) in
    let gone : length w.nodes ≡ 0 = omega (arith, c) in
    rw (IsOrdered, drop_handle, left)
      (
        w.calls,
        [],
        rw (drop_handle, left) refl,
        r,
        λ n. b n ∙ omega (arith, unheld w.nodes gone n),
        tt,
      )
drop_handle-IsOrdered w (suc k) e c r b =
    let left : w.strong - 1 ≡ suc k = omega (arith, e) in
    let more : (suc k == 0) ≡ false = ground arith in
    let kept : w.calls ≡ (drop_handle w).calls = rw (drop_handle, left, more) refl in
    runs (drop_handle w) k left (subst IsRunning kept r) (subst (AreBalanced w.nodes) kept b)

pub holds-without :
    (n m : ℕ) (nodes : List ℕ)
    → 1 ≤ holds n nodes
    → holds m nodes ≡ (if n == m then 1 else 0) + holds m (without n nodes)
unfolding without
holds-without n m [] le = absurd (omega (arith, le))
holds-without n m (x ∷ nodes) le = elim (Bool-cases (x == n)) [
  | inl e ↦
      let d : x ≡ n = ground (arith, e) in
      rw (without, e) (ap (λ q. (if q == m then 1 else 0) + holds m nodes) d)
  | inr e ↦
      let ih = holds-without n m nodes (omega (arith, rw e at le)) in
      rw (without, e) (omega (arith, ih))
]

pub length-without :
    (n : ℕ) (nodes : List ℕ) → 1 ≤ holds n nodes → length nodes ≡ suc (length (without n nodes))
unfolding without
length-without n [] le = absurd (omega (arith, le))
length-without n (x ∷ nodes) le = elim (Bool-cases (x == n)) [
  | inl e ↦ rw (without, e) refl
  | inr e ↦
      let ih = length-without n nodes (omega (arith, rw e at le)) in
      rw (without, e) (omega (arith, ih))
]

pub drop_handle-AreTimed : (w : World) → AreTimed w → AreTimed (drop_handle w)
unfolding drop_handle
drop_handle-AreTimed w t n = elim (Bool-cases (w.strong - 1 == 0)) [
  | inl e ↦ rw (drop_handle, e) (t n)
  | inr e ↦ rw (drop_handle, e) (t n)
]

pub drop_context-IsOrderly : (w : World) → IsOrderly w → 1 ≤ w.contexts → IsOrderly (drop_context w)
unfolding drop_context drop_handle AreBalanced
drop_context-IsOrderly w (c, o, t, q) le =
    let k = w.strong - 1 in
    let e : w.strong ≡ suc k = omega (arith, c, le) in
    let (r, b) = running w k e o in
    let fewer = record w { contexts = w.contexts - 1 } in
    (
      omega (arith, c, le),
      drop_handle-IsOrdered fewer k e (omega (arith, c, le)) r b,
      drop_handle-AreTimed fewer t,
      q,
    )

pub create_node-IsOrderly :
    (ret : Ret) (w : World) → IsOrderly w → 1 ≤ w.contexts → IsOrderly (create_node ret w)
unfolding create_node AreBalanced
create_node-IsOrderly ret w (c, o, t, q) le = elim (Bool-cases (is_ok ret)) [
  | inr f ↦ rw (create_node, f) (drop_context-IsOrderly w (c, o, t, q) le)
  | inl f ↦
      let k = w.strong - 1 in
      let e : w.strong ≡ suc k = omega (arith, c, le) in
      let (r, b) = running w k e o in
      let more = record w {
        contexts = w.contexts - 1;
        nodes = w.next ∷ w.nodes;
        next = suc w.next;
        calls = node_init w.next ∷ w.calls;
      } in
      rw (create_node, f)
        (
          omega (arith, c, le),
          runs more k e r (λ n. omega (arith, b n)),
          t,
          λ n h. q n (omega (arith, h)),
        )
]
