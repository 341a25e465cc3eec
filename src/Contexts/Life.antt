-- ===== src/Contexts/Life.antt =====
-- Any history of a context of src/context.rs that nodes with timers share.
use r2r.Prelude.{[], ◌∷◌}
use r2r.Contexts.{rcl_init, World}

abbrev pub first_world : World
first_world = record {
  strong = 1;
  contexts = 1;
  nodes = [];
  timers = λ n. 0;
  next = 0;
  calls = rcl_init ∷ [];
}
