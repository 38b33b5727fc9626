-- ===== src/Prelude/Text.antt =====
-- Texts: compared whole as `String`, walked as the list of their code points.
use Prim.Native.Nat.{ℕ}
use Prim.Native.Char.{code}
use Prim.Native.String.{String}
use mathlib.Core.Bool.{Bool, true, false, ◌||◌}
use mathlib.Core.List.{List, [], ◌∷◌}
use mathlib.Core.Option.{Option, none, some}
use text.Mathlib.Text.{◌==◌ as str_eq}
use zgcmaster.Prelude.Tests.{◌==◌}

-- The code points of a text: its bytes, if it is ASCII. `String` has its own `[]` and `∷`.
abbrev pub codes : String → List ℕ
codes String.[] = []
codes (String.◌∷◌ c s) = code c ∷ codes s

infix 50 ◌is◌
abbrev pub ◌is◌ : String → String → Bool
s is t = str_eq s t

abbrev pub contains : List String → String → Bool
contains [] s = false
contains (t ∷ ts) s = t is s || contains ts s

-- `strip_prefix` of the standard library.
abbrev pub strip_prefix : List ℕ → List ℕ → Option (List ℕ)
strip_prefix [] s = some s
strip_prefix (c ∷ p) [] = none
strip_prefix (c ∷ p) (d ∷ s) = elim (c == d) [ true ↦ strip_prefix p s | false ↦ none ]

abbrev pub starts_with : List ℕ → List ℕ → Bool
starts_with p s = elim (strip_prefix p s) [ none ↦ false | some r ↦ true ]

-- `contains` of the standard library on a text.
abbrev pub has_infix : List ℕ → List ℕ → Bool
has_infix p [] = starts_with p []
has_infix p (d ∷ s) = starts_with p (d ∷ s) || has_infix p s

abbrev pub join : String → String → String
join String.[] t = t
join (String.◌∷◌ c s) t = String.◌∷◌ c (join s t)
