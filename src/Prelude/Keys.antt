-- ===== src/Prelude/Keys.antt =====
-- The decision of equality of texts, which the maps keyed by identifiers use.
use text.Mathlib.Text.{◌==◌}
use text.Mathlib.TextEquality.{eq_iff}
use mathlib.Core.Path.{◌≡◌, refl, sym, ◌∙◌}
use mathlib.Core.Logic.{◌↔◌}
use mathlib.Core.Bool.{Bool, true, false, false≢true}
pub use Prim.Native.String.{String}

abbrev decide_by {ℓ} : {P : Type ℓ} (t : Bool) → (t ≡ true) ↔ P → Dec P
decide_by true e = yes (e.0 refl)
decide_by false e = no (λ p. false≢true (e.1 p))

unfoldable pub String_discrete : Discrete String
String_discrete s t = decide_by (s == t) (eq_iff s t)

-- Two texts that compare as different.
pub apart : (s t : String) → (s == t) ≡ false → (s ≡ t → ⊥)
apart s t e h = false≢true (sym e ∙ (eq_iff s t).1 h)
