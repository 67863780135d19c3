-- ===== src/Base/Text.antt =====
-- Byte literals of the source.
use Prim.Native.Nat.{ℕ}
use Prim.Native.Char.{code}
use Prim.Native.String.{String}
use mathlib.Core.Path.{◌≡◌, refl}
use mathlib.Core.List.{List, [], ◌∷◌, ◌++◌}

-- The code points of a literal; the literals of the source are ASCII, so these are its bytes.
abbrev pub codes : String → List ℕ
codes String.[] = []
codes (String.◌∷◌ c s) = code c ∷ codes s

-- A literal that ends in `\r\n`.
abbrev pub crlf : List ℕ
crlf = 13 ∷ 10 ∷ []

abbrev pub line : String → List ℕ
line s = codes s ++ crlf

line_test : line "+OK" ≡ b'+' ∷ b'O' ∷ b'K' ∷ b'\r' ∷ b'\n' ∷ []
line_test = refl
