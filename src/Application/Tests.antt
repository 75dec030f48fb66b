-- ===== src/Application/Tests.antt =====
-- A text handled from end to end, and the theorems at this text.
use skyeye.Common.{◌≡◌, true, List, [], Option, none, some, arith, list_Eq, contains}
use skyeye.Common.Text.{Text, codes, lower, to_lower}
use skyeye.Trackfiles.{Point}
use skyeye.Radar.Database.{Names, before_bar}
use skyeye.Radar.Samples.{sensors, globe}
use skyeye.Radar.InsertionSort.{insertion_sort}
use skyeye.Parser.Samples.{setting, dope, no_declare}
use skyeye.Parser.Normalize.{
  is_prefix, replace_from, replace_all, replace_alternates, to_space, join, keep_characters,
  trim_left, trim_right, trim_space, fields_from, fields, normalize,
}
use skyeye.Controller.Calls.{Call}
use skyeye.Controller.Handlers.{Controller}
use skyeye.Controller.Samples.{geometry, controller}
use skyeye.Application.{World, handle_text}
use skyeye.Application.Answers.{IsHandled, handle_text-IsHandled}

abbrev nothing : Option Text
nothing = none

no_search : (s : Text) (ks : List Text) (k : Text) → nothing ≡ some k → contains ks k ≡ true
no_search s ks k h = absurd (ground arith)

abbrev names : Names
names = record {
  parse_pilot_callsign = λ name. some (codes "eagle 1");
  fuzzy_search = λ s ks. none;
  fuzzy_search-contains = no_search;
}

abbrev here : Point
here = record { lon = 1; lat = 1 }

abbrev world : World
world = record {
  scope = record {
    mission_time = 1;
    bullseyes = [];
    contacts = record { contacts = []; callsign_idx = [] };
    pending_fades = [];
    fade_deadline = 0;
  };
  center = here;
  now = 1;
}

handle_text-IsHandled_example :
    (after : Controller × List Call) × (handle_text sensors globe insertion_sort geometry names
        (λ g. 5)
        setting
        9
        world
        dope
        controller
      ≡ some after)
    × IsHandled sensors globe insertion_sort geometry names (λ g. 5) setting dope controller after
unfolding normalize before_bar to_lower lower to_space keep_characters trim_space trim_left
    trim_right replace_alternates replace_all replace_from is_prefix fields fields_from join
handle_text-IsHandled_example =
    handle_text-IsHandled sensors globe insertion_sort geometry names (λ g. 5) setting 9 world dope
      controller (omega arith) no_declare
