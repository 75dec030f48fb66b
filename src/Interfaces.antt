-- ===== src/Interfaces.antt =====
-- The interfaces that one part has of another, filled: the radar's FindUnit (pkg/radar/radar.go) for
-- the controller, the radio client's IsOnFrequency for its calls, and the parser's callsigns
-- (pkg/parser/parser.go, ParsePilotCallsign) for both.
pub mod Merges
pub mod Tracks
mod Tests
mod TrackTests
use skyeye.Common.{ℕ, ◌≡◌, Bool, true, Option, some, List, contains, list_Eq}
use skyeye.Common.Text.{Text}
use skyeye.Trackfiles.{Point, Trackfile}
use skyeye.Radio.Types.{Float64}
use skyeye.Radio.Clients.{Client, is_name_on_frequency}
use skyeye.Radar.Database.{Database, Names, get_by_id}
use skyeye.Radar.Scope.Collection.{IsStore, keyed_lookup}
use skyeye.Parser.Scanner.{Language}
use skyeye.Parser.Normalize.{parse_pilot_callsign}
use skyeye.Controller.Radar.{Units, Audience}

pub get_by_id_keyed :
    (d : Database)
    → IsStore d.contacts
    → (id : ℕ) (t : Trackfile) → get_by_id id d ≡ some t
    → t.contact.id ≡ id
unfolding get_by_id
get_by_id_keyed d v id t h = keyed_lookup id d.contacts v.keyed h

-- The scope's database answers by ID: every trackfile stands under its own.
abbrev pub units_of : (d : Database) → IsStore d.contacts → (Point → Point → ℕ) → ℕ → Units
units_of d v distance nautical_mile = record {
  find_unit = λ id. get_by_id id d;
  distance = distance;
  nautical_mile = nautical_mile;
  find_unit_id = get_by_id_keyed d v;
}

-- Who hears the controller.
abbrev pub audience_of : Language → List (Text × Text) → Float64 → Client → Bool → Audience
audience_of language alternates float client requires_srs = record {
  is_on_frequency = λ name. is_name_on_frequency float name client;
  parse_pilot_callsign = parse_pilot_callsign language alternates;
  requires_srs = requires_srs;
}

-- The names of the contact database, with go-edlib's search.
abbrev pub names_of :
    Language
    → List (Text × Text)
    → (search : Text → List Text → Option Text)
    → ((s : Text) (ks : List Text) (k : Text) → search s ks ≡ some k → contains ks k ≡ true)
    → Names
names_of language alternates search law = record {
  parse_pilot_callsign = parse_pilot_callsign language alternates;
  fuzzy_search = search;
  fuzzy_search-contains = law;
}
