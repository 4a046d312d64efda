-- ===== src/Prelude/Text.antt =====
-- C strings as lists of byte values. The end of a list reads as the NUL byte.
use Prim.Native.Nat.{ℕ}
use Prim.Native.Char.{code}
use Prim.Native.String.{String}
use mathlib.Core.List.{List, [], ◌∷◌}

abbrev pub codes : String → List ℕ
codes String.[] = []
codes (String.◌∷◌ c s) = code c ∷ codes s

-- `*str`
abbrev pub peek : List ℕ → ℕ
peek [] = 0
peek (c ∷ cs) = c
