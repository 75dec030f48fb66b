-- ===== src/Radar/Store/Samples.antt =====
-- A scope at the start of a mission.
use skyeye.Common.{◌≡◌, true, List, [], Option, none, some, arith, contains, list_Eq}
use skyeye.Common.Text.{Text, codes}
use skyeye.Radar.Database.{Names, empty}
use skyeye.Radar.Scope.{Scope}
use skyeye.Radar.Store.Indexed.{empty-IsIndexed}
use skyeye.Radar.Store.Agreement.{IsSound}

abbrev pub nothing : Option Text
nothing = none

pub no_search : (s : Text) (ks : List Text) (k : Text) → nothing ≡ some k → contains ks k ≡ true
no_search s ks k h = absurd (ground arith)

abbrev pub names : Names
names = record {
  parse_pilot_callsign = λ name. some (codes "eagle 1");
  fuzzy_search = λ s ks. none;
  fuzzy_search-contains = no_search;
}

abbrev pub begun : Scope
begun = record {
  mission_time = 0;
  bullseyes = [];
  contacts = empty;
  pending_fades = [];
  fade_deadline = 0;
}

pub begun-IsSound : IsSound begun
begun-IsSound = record {
  store = record { unique = tt; keyed = tt };
  index = λ c h. empty-IsIndexed c h;
}
