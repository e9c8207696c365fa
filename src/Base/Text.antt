-- ===== src/Base/Text.antt =====
-- Texts, as the list of their code points, with the literals of the source and the parts of a
-- `format!`.
use Prim.Native.Nat.{ℕ}
use Prim.Native.Char.{code}
use Prim.Native.String.{String}
use mathlib.Core.List.{List, [], ◌∷◌, ◌++◌}

abbrev pub Text : Type 0
Text = List ℕ

abbrev pub codes : String → Text
codes String.[] = []
codes (String.◌∷◌ c s) = code c ∷ codes s

-- A literal of several lines.
abbrev pub lines : List String → Text
lines [] = []
lines (s ∷ []) = codes s
lines (s ∷ (t ∷ ss)) = codes s ++ (b'\n' ∷ lines (t ∷ ss))

-- `join` on a vector of strings.
unfoldable pub join : Text → List Text → Text
join separator [] = []
join separator (s ∷ []) = s
join separator (s ∷ (t ∷ ss)) = s ++ (separator ++ join separator (t ∷ ss))

-- `format!`, of its literal parts and arguments in order.
unfoldable pub format : List Text → Text
format [] = []
format (s ∷ ss) = s ++ format ss
