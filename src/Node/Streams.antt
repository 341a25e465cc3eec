-- ===== src/Node/Streams.antt =====
-- src/nodes.rs: how `spin_once` serves the streams that are ready, and drops those whose receiver
-- is gone.
pub mod Survivors
use r2r.Prelude.{ℕ, List, [], ◌∷◌, Bool, true, false, if◌then◌else◌, ◌==◌, ◌++◌, not, any, retain}
use r2r.Node.{Stream}

-- `removed.contains(..)`.
abbrev pub contains : List ℕ → ℕ → Bool
contains removed h = any (λ r. r == h) removed

module _ {S : Type 0} (t : Stream S) where
  -- The loop over the streams, zipped with the wait set: the streams, and the handles to remove,
  -- in order.
  unfoldable pub handle_ready : List S → List Bool → List S × List ℕ
  handle_ready [] ready = ([], [])
  handle_ready (s ∷ ss) [] = (s ∷ ss, [])
  handle_ready (s ∷ ss) (ready ∷ rs) =
      let (rest, removed) = handle_ready ss rs in
      let (dropped, s') = t.handle_incoming s in
      if ready
      then (if dropped
          then (t.destroy s' ∷ rest, t.handle (t.destroy s') ∷ removed)
          else (s' ∷ rest, removed))
      else (s ∷ rest, removed)

  -- The loop, and then `retain`.
  unfoldable pub serve : List S → List Bool → List S
  unfolding handle_ready retain any
  serve ss ready =
      let (left, removed) = handle_ready ss ready in
      retain (λ s. not (contains removed (t.handle s))) left
