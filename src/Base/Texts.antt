-- ===== src/Base/Texts.antt =====
-- Python texts, as far as the program looks into them: `s.strip()` and `len(s)`.
use Prim.Native.Nat.{ℕ}
use Prim.Native.Char.{code}
use Prim.Native.String.{String}
use mathlib.Core.Bool.{Bool, true, false, not, ◌&&◌, ◌||◌}
use mathlib.Core.List.{List, [], ◌∷◌}
use quanti_qmt.Base.Tests.{leb, ltb, nat_beq, if◌then◌else◌}
use quanti_qmt.Base.Lists.{all}

-- The code points of a text.
abbrev pub codes : String → List ℕ
codes (String.◌∷◌ first rest) = code first ∷ codes rest
codes String.[] = []

-- The code points that `str.isspace` accepts.
abbrev pub is_space : ℕ → Bool
is_space c =
    (leb 9 c && leb c 13)
    || (leb 28 c && leb c 32)
    || nat_beq c 133
    || nat_beq c 160
    || nat_beq c 5760
    || (leb 8192 c && leb c 8202)
    || nat_beq c 8232
    || nat_beq c 8233
    || nat_beq c 8239
    || nat_beq c 8287
    || nat_beq c 12288

-- `not s.strip()`
unfoldable pub blank : String → Bool
blank s = all is_space (codes s)

abbrev ends_well : List ℕ → Bool
ends_well [] = true
ends_well (c ∷ []) = not (is_space c)
ends_well (c ∷ d ∷ cs) = ends_well (d ∷ cs)

abbrev starts_well : List ℕ → Bool
starts_well [] = true
starts_well (c ∷ cs) = not (is_space c)

-- `s == s.strip()`
unfoldable pub is_stripped : String → Bool
is_stripped s = starts_well (codes s) && ends_well (codes s)

-- The order of texts, by code points.
abbrev pub codes_le : List ℕ → List ℕ → Bool
codes_le [] ds = true
codes_le (c ∷ cs) [] = false
codes_le (c ∷ cs) (d ∷ ds) = if nat_beq c d then codes_le cs ds else ltb c d

unfoldable pub text_le : String → String → Bool
text_le s t = codes_le (codes s) (codes t)
