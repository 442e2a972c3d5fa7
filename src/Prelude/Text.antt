-- ===== src/Prelude/Text.antt =====
-- Equality of `std::string` as a decision.
use Prim.Native.String.{String}
use mathlib.Core.Path.{sym, ◌∙◌}
use mathlib.Core.Logic.{inl, inr}
use mathlib.Core.Bool.{false≢true}
use text.Mathlib.Text.{◌==◌ as str_eq}
use text.Mathlib.TextEquality.{eq_iff}
use mesh_pp.Prelude.Tests.{Bool-cases}

unfoldable pub string_discrete : Discrete String
unfolding Bool-cases
string_discrete s t = elim (Bool-cases (str_eq s t)) [
  | inl e ↦ yes ((eq_iff s t).0 e)
  | inr e ↦ no (λ p. false≢true (sym e ∙ (eq_iff s t).1 p))
]
