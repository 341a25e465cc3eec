-- ===== src/Prelude/Maps.antt =====
-- `HashMap` with numeric keys, as the function that `get` computes. The program never iterates
-- over the maps modelled so.
use r2r.Prelude.Tests.{◌==◌, if◌then◌else◌}
use Prim.Native.Nat.{ℕ}
use mathlib.Core.Option.{Option, none, some}

abbrev pub HashMap {ℓ} : Type ℓ → Type ℓ
HashMap V = ℕ → Option V

module _ {ℓ} {V : Type ℓ} where
  abbrev pub empty : HashMap V
  empty q = none

  abbrev pub insert : ℕ → V → HashMap V → HashMap V
  insert k v m q = if k == q then some v else m q

  abbrev pub remove : ℕ → HashMap V → HashMap V
  remove k m q = if k == q then none else m q
