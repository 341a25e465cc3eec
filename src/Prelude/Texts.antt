-- ===== src/Prelude/Texts.antt =====
-- Equality tests on texts, and maps keyed by texts.
use Prim.Native.String.{String}
use text.Mathlib.Text.{◌==◌}
use text.Mathlib.TextEquality.{eq_iff}
use mathlib.Core.Path.{◌≡◌}
use mathlib.Core.Logic.{◌↔◌}
use mathlib.Core.Bool.{Bool, true}
use mathlib.Core.Option.{Option, none, some}
use r2r.Prelude.Tests.{if◌then◌else◌}

abbrev pub same_text : String → String → Bool
same_text a b = a == b

pub same_text_iff : (a b : String) → (same_text a b ≡ true) ↔ (a ≡ b)
same_text_iff = eq_iff

-- `HashMap<String, V>`, as the function that `get` computes.
abbrev pub TextMap {ℓ} : Type ℓ → Type ℓ
TextMap V = String → Option V

module _ {ℓ} {V : Type ℓ} where
  abbrev pub empty_texts : TextMap V
  empty_texts q = none

  abbrev pub insert_text : String → V → TextMap V → TextMap V
  insert_text k v m q = if same_text k q then some v else m q
