-- ===== src/Common/Text.antt =====
-- Texts as lists of code points. The case maps are those of ASCII, the only letters that the
-- program's own words have.
use Prim.Native.Char.{code}
use Prim.Native.String.{String}
use skyeye.Common.Tests.{leb, if◌then◌else◌}
use Prim.Native.Nat.{ℕ, ◌+◌}
use mathlib.Core.Bool.{◌&&◌}
use mathlib.Core.List.{List, [], ◌∷◌, map}

abbrev pub Text : Type 0
Text = List ℕ

abbrev pub codes : String → Text
codes String.[] = []
codes (String.◌∷◌ letter letters) = code letter ∷ codes letters

unfoldable pub lower : ℕ → ℕ
lower c = if leb b'A' c && leb c b'Z' then c + 32 else c

-- strings.ToLower
unfoldable pub to_lower : Text → Text
unfolding lower
to_lower = map lower
