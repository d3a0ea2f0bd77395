-- ===== src/FilesPanel/Unary.antt =====
-- A way to print a number and read it back, whole or its half, for the examples.
use Prim.Native.Nat.{ℕ, zero, suc, ◌/◌}
use Prim.Native.String.{String, [], ◌∷◌}
use mathlib.Core.Path.{◌≡◌, refl, ap}
use oh_my_terminal.FilesPanel.{Parsed, value}

abbrev pub bump : Parsed → Parsed
bump (value n) = value (suc n)
bump x = x

unfoldable pub print : ℕ → String
print zero = []
print (suc n) = "1" ∷ print n

unfoldable pub parse_int : String → Parsed
parse_int [] = value zero
parse_int (c ∷ s) = bump (parse_int s)

pub parse_int-print : (n : ℕ) → parse_int (print n) ≡ value n
unfolding parse_int print
parse_int-print zero = refl
parse_int-print (suc n) = rw (parse_int-print n) refl

-- Two steps are a pixel.
abbrev pub halve : Parsed → Parsed
halve (value n) = value (n / 2)
halve x = x

abbrev pub parse_half : String → Parsed
parse_half s = halve (parse_int s)

pub parse_half-print : (n : ℕ) → parse_half (print n) ≡ value (n / 2)
parse_half-print n = ap halve (parse_int-print n)
