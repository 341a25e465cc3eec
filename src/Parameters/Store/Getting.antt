-- ===== src/Parameters/Store/Getting.antt =====
-- A get request after a set request of the parameters of a node of src/nodes.rs.
use r2r.Prelude.{◌≡◌, List, [], ◌∷◌, Option, none, some}
use Prim.Native.String.{String}
use r2r.Parameters.{ParameterValue, ParameterValueMsg, not_set}
use r2r.Parameters.Messages.{IsMsgOf}
use r2r.Parameters.Store.{Store}

module _ {Double : Type 0} where
  -- Every entry of a set request is the message of the value that stands in its place, by name.
  abbrev pub AreMsgs :
      List (String × ParameterValue Double) → List (String × ParameterValueMsg Double) → Type 0
  AreMsgs [] [] = Unit
  AreMsgs ((k, v) ∷ values) ((l, m) ∷ ps) = (k ≡ l) × IsMsgOf v m × AreMsgs values ps
  AreMsgs [] (p ∷ ps) = ⊥
  AreMsgs (v ∷ values) [] = ⊥

  -- The value that is set, or what says that there is none.
  abbrev pub or_unset : Option (ParameterValue Double) → ParameterValue Double
  or_unset none = not_set
  or_unset (some v) = v

  -- Each name has its message in the answer, and the message is that of the value of the name.
  abbrev pub Answers :
      (String → ParameterValue Double) → List String → List (ParameterValueMsg Double) → Type 0
  Answers value [] [] = Unit
  Answers value (n ∷ names) (m ∷ ms) = IsMsgOf (value n) m × Answers value names ms
  Answers value [] (m ∷ ms) = ⊥
  Answers value (n ∷ names) [] = ⊥
