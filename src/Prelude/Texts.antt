-- ===== src/Prelude/Texts.antt =====
-- Texts as lists of code points, where the code walks them.
use Prim.Native.Nat.{ℕ}
use Prim.Native.Char.{code}
use Prim.Native.String.{String}
use mathlib.Core.List.{List, [], ◌∷◌}

-- `String` has its own `[]` and `∷`.
abbrev pub code_points : String → List ℕ
code_points String.[] = []
code_points (String.◌∷◌ letter more) = code letter ∷ code_points more
