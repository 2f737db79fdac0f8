-- ===== src/Prelude/Texts.antt =====
-- Texts joined by a separator, and texts in a list.
use Prim.Native.String.{String, ◌++◌}
use mathlib.Core.Bool.{Bool}
use mathlib.Core.List.{List, [], ◌∷◌}
use text.Mathlib.Text.{◌==◌}
use aic_verifier.Prelude.Lists.{any}

-- `strings.Join` with the separator first
unfoldable pub join : String → List String → String
join sep [] = ""
join sep (x ∷ []) = x
join sep (x ∷ y ∷ ys) = x ++ (sep ++ join sep (y ∷ ys))

abbrev pub contains : List String → String → Bool
contains xs x = any (λ y. x == y) xs
