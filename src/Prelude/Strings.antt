-- ===== src/Prelude/Strings.antt =====
-- Texts as lists of code points, and the functions of Go's `strings` that the source calls.
use Prim.Native.Nat.{ℕ, ◌+◌}
use Prim.Native.Char.{code}
use Prim.Native.String.{String}
use mathlib.Core.Bool.{Bool, ◌&&◌, ◌||◌}
use mathlib.Core.Option.{Option, none, some}
use mathlib.Core.List.{[], ◌∷◌, reverse}
use casper_cloud.Prelude.Tests.{Text, leb, ◌==◌, if◌then◌else◌}

-- The code points of a literal.
abbrev pub codes : String → Text
codes String.[] = []
codes (String.◌∷◌ c s) = code c ∷ codes s

-- `unicode.IsSpace`
unfoldable pub is_space : ℕ → Bool
is_space c =
    (leb 9 c && leb c 13)
    || c == 32
    || c == 0x85
    || c == 0xa0
    || c == 0x1680
    || (leb 0x2000 c && leb c 0x200a)
    || c == 0x2028
    || c == 0x2029
    || c == 0x202f
    || c == 0x205f
    || c == 0x3000

-- Drops the leading points that pass the test.
unfoldable pub trim_left : (ℕ → Bool) → Text → Text
trim_left p [] = []
trim_left p (c ∷ s) = if p c then trim_left p s else c ∷ s

-- Drops the points that pass the test at both ends.
unfoldable pub trim : (ℕ → Bool) → Text → Text
unfolding trim_left
trim p s = reverse (trim_left p (reverse (trim_left p s)))

-- `strings.TrimSpace`
unfoldable pub trim_space : Text → Text
unfolding trim is_space
trim_space s = trim is_space s

-- `strings.ToLower` on ASCII; other points stay. (No other point has a lower case among the letters
-- that the source compares with.)
unfoldable pub to_lower : Text → Text
to_lower [] = []
to_lower (c ∷ s) = (if leb b'A' c && leb c b'Z' then c + 32 else c) ∷ to_lower s

-- What is left behind a prefix, if the text has it.
unfoldable pub cut_prefix : Text → Text → Option Text
cut_prefix [] s = some s
cut_prefix (p ∷ ps) [] = none
cut_prefix (p ∷ ps) (c ∷ s) = if p == c then cut_prefix ps s else none
