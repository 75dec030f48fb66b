-- ===== src/Controller/Radar.antt =====
-- What the controller asks of the radar (pkg/radar/radar.go: FindUnit) and of the radio client
-- (IsOnFrequency): the interface between the components, which skyeye.Interfaces fills.
use skyeye.Common.{
  ℕ, ◌≡◌, Option, none, some, Bool, List, if◌then◌else◌, not, ◌||◌, contains, list_Eq, ◌++◌, [],
  ◌∷◌,
}
use skyeye.Common.Text.{Text}
use skyeye.Trackfiles.{Point, Trackfile}

-- A snapshot of the contacts, with the distance on the globe (of paulmach/orb).
pub record Units : Type 0 where
  pub find_unit : ℕ → Option Trackfile
  pub distance : Point → Point → ℕ
  pub nautical_mile : ℕ
  pub find_unit_id : (id : ℕ) (t : Trackfile) → find_unit id ≡ some t → t.contact.id ≡ id

-- The radio client and the callsign parser, as a broadcast uses them.
pub record Audience : Type 0 where
  pub is_on_frequency : Text → Bool
  pub parse_pilot_callsign : Text → Option Text
  pub requires_srs : Bool

abbrev pub add_callsign : Option Text → List Text → List Text
add_callsign none callsigns = callsigns
add_callsign (some callsign) callsigns =
    if contains callsigns callsign then callsigns else callsigns ++ callsign ∷ []

-- addFriendlyToBroadcast
unfoldable pub add_friendly_to_broadcast : Audience → List Text → Trackfile → List Text
add_friendly_to_broadcast audience callsigns friendly =
    if not audience.requires_srs || audience.is_on_frequency friendly.contact.name
    then add_callsign (audience.parse_pilot_callsign friendly.contact.name) callsigns
    else callsigns
