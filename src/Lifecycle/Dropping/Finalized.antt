-- ===== src/Lifecycle/Dropping/Finalized.antt =====
-- What the calls of src/nodes.rs that destroy entities finalize.
use r2r.Prelude.{
  ℕ, ◌+◌, ◌≡◌, refl, List, [], ◌∷◌, map, Bool, if◌then◌else◌, arith, not, retain, Bool-cases, inl,
  inr,
}
use r2r.Prelude.Counting.{count}
use r2r.Lifecycle.{
  Handle, Kind, timer, clock, action_server, Event, finalized, destroy_each, destroy_servers,
  drop_timers,
}
use r2r.Lifecycle.Balance.{one, made, gone, same_kind}

-- How often an entity is among some of a kind.
abbrev pub among : Kind → Handle → Kind → List Handle → ℕ
among j h k hs = if same_kind j k then count h hs else 0

among_cons :
    (j : Kind) (h : Handle) (k : Kind) (x : Handle) (hs : List Handle)
    → among j h k (x ∷ hs) ≡ one j h k x + among j h k hs
unfolding one
among_cons j h k x hs = ground arith

pub made-destroy_each :
    (j : Kind) (h : Handle) (k : Kind) (hs : List Handle) (es : List Event)
    → made j h (destroy_each k hs es) ≡ made j h es
unfolding destroy_each
made-destroy_each j h k [] es = refl
made-destroy_each j h k (x ∷ hs) es = made-destroy_each j h k hs (finalized k x ∷ es)

pub gone-destroy_each :
    (j : Kind) (h : Handle) (k : Kind) (hs : List Handle) (es : List Event)
    → gone j h (destroy_each k hs es) ≡ gone j h es + among j h k hs
unfolding destroy_each
gone-destroy_each j h k [] es = ground arith
gone-destroy_each j h k (x ∷ hs) es =
    omega (arith, gone-destroy_each j h k hs (finalized k x ∷ es), among_cons j h k x hs)

pub made-drop_timers :
    (j : Kind) (h : Handle) (ts : List (Handle × Handle)) (es : List Event)
    → made j h (drop_timers ts es) ≡ made j h es
unfolding drop_timers
made-drop_timers j h [] es = refl
made-drop_timers j h ((x, c) ∷ ts) es =
    made-drop_timers j h ts (finalized clock c ∷ finalized timer x ∷ es)

pub gone-drop_timers :
    (j : Kind) (h : Handle) (ts : List (Handle × Handle)) (es : List Event)
    → gone j h (drop_timers ts es)
      ≡ gone j h es + (among j h timer (map (λ t. t.0) ts) + among j h clock (map (λ t. t.1) ts))
unfolding drop_timers
gone-drop_timers j h [] es = ground arith
gone-drop_timers j h ((x, c) ∷ ts) es = omega (
  arith,
  gone-drop_timers j h ts (finalized clock c ∷ finalized timer x ∷ es),
  among_cons j h timer x (map (λ t. t.0) ts),
  among_cons j h clock c (map (λ t. t.1) ts),
)

pub made-destroy_servers :
    (j : Kind) (h : Handle) (ss : List (Handle × Handle)) (es : List Event)
    → made j h (destroy_servers ss es) ≡ made j h es
unfolding destroy_servers
made-destroy_servers j h [] es = refl
made-destroy_servers j h ((x, c) ∷ ss) es =
    made-destroy_servers j h ss (finalized clock c ∷ finalized action_server x ∷ es)

pub gone-destroy_servers :
    (j : Kind) (h : Handle) (ss : List (Handle × Handle)) (es : List Event)
    → gone j h (destroy_servers ss es)
      ≡ gone j h es
        + (among j h action_server (map (λ s. s.0) ss) + among j h clock (map (λ s. s.1) ss))
unfolding destroy_servers
gone-destroy_servers j h [] es = ground arith
gone-destroy_servers j h ((x, c) ∷ ss) es = omega (
  arith,
  gone-destroy_servers j h ss (finalized clock c ∷ finalized action_server x ∷ es),
  among_cons j h action_server x (map (λ s. s.0) ss),
  among_cons j h clock c (map (λ s. s.1) ss),
)

-- What is kept and what is left out, together.
pub retain-partition {ℓ} :
    {A : Type ℓ} (h : Handle) (f : A → Handle) (d : A → Bool) (xs : List A)
    → count h (map f xs)
      ≡ count h (map f (retain (λ x. not (d x)) xs)) + count h (map f (retain d xs))
unfolding retain
retain-partition h f d [] = refl
retain-partition h f d (x ∷ xs) = elim (Bool-cases (d x)) [
  | inl e ↦ rw e (omega (arith, retain-partition h f d xs))
  | inr e ↦ rw e (omega (arith, retain-partition h f d xs))
]

pub retain_split :
    (h : Handle) (d : Handle → Bool) (hs : List Handle)
    → count h hs ≡ count h (retain (λ x. not (d x)) hs) + count h (retain d hs)
unfolding retain
retain_split h d [] = refl
retain_split h d (x ∷ hs) = elim (Bool-cases (d x)) [
  | inl e ↦ rw e (omega (arith, retain_split h d hs))
  | inr e ↦ rw e (omega (arith, retain_split h d hs))
]
