-- ===== src/Coalitions.antt =====
-- pkg/coalitions/coalition.go, and IsSpectator of pkg/simpleradio/types/coalition.go.
use skyeye.Common.{ℕ, Bool, not, ◌&&◌, if◌then◌else◌, nat_eq}

abbrev pub Coalition : Type 0
Coalition = ℕ

abbrev pub red : Coalition
red = 1

abbrev pub blue : Coalition
blue = 2

abbrev pub neutrals : Coalition
neutrals = 3

unfoldable pub opposite : Coalition → Coalition
opposite c = if nat_eq c red then blue else if nat_eq c blue then red else neutrals

-- SRS takes any other number than those of red and blue for a spectator.
unfoldable pub is_spectator : Coalition → Bool
is_spectator c = not (nat_eq c red) && not (nat_eq c blue)
