-- ===== src/Radar/Store.antt =====
-- pkg/radar/radar.go and faded.go: what the scope promises of its contacts, as a map from IDs that
-- forgets the index of callsigns and the order of the database, and the events that change it.
pub mod Indexed
pub mod Agreement
pub mod Updating
pub mod Fading
pub mod Collecting
pub mod Refinement
pub mod Samples
mod Tests
use skyeye.Common.{
  ℕ, ◌+◌, ◌*◌, ◌≡◌, Bool, true, false, not, ◌&&◌, List, [], ◌∷◌, ◌++◌, Option, none, some, nat_eq,
  ltb, if◌then◌else◌, ◌==◌, nat_Eq, ◌>>=◌, length, contains,
}
use skyeye.Trackfiles.{Trackfile, new_trackfile, update}
use skyeye.Radar.Database.{Names}
use skyeye.Radar.Grouping.{Sensors}
use skyeye.Radar.Scope.{
  Scope, Updated, second, handle_update, handle_garbage_collection, handle_started,
}
use skyeye.Radar.Scope.Collection.{unless_expired}
use skyeye.Radar.Fades.{FadeEvent, fade, fade_tick, collect_faded}

-- What the goroutines of Run wait for, and SetMissionTime.
pub data Event : Type 0 where
  updated : Updated → Event
  faded : FadeEvent → Event
  garbage_tick : Event
  started : Event
  set_mission_time : ℕ → Event

abbrev pub handle_fade : Sensors → FadeEvent → Scope → Scope
handle_fade sensors e s = (collect_faded sensors e s).0

-- A turn of one of the goroutines; `none` is a panic.
unfoldable pub handle : Sensors → Names → Event → Scope → Option Scope
handle sensors names (updated u) s = handle_update names u s
handle sensors names (faded e) s = some (handle_fade sensors e s)
handle sensors names garbage_tick s = some (handle_garbage_collection s).0
handle sensors names started s = some (handle_started s)
handle sensors names (set_mission_time time) s = some (record s { mission_time = time })

unfoldable pub handle_all : Sensors → Names → List Event → Scope → Option Scope
handle_all sensors names [] s = some s
handle_all sensors names (e ∷ es) s = do
  s' ← handle sensors names e s
  handle_all sensors names es s'

-- The contacts by ID, the mission time, and the fades that wait.
pub record Store : Type 0 where
  pub find : ℕ → Option Trackfile
  pub time : ℕ
  pub pending : List ℕ
  pub deadline : ℕ

-- A new contact is stored without the frame that announced it.
abbrev pub seen_again : Updated → Option Trackfile → Trackfile
seen_again u none = new_trackfile u.labels
seen_again u (some t) = update u.frame t

unfoldable pub step_fade : FadeEvent → Store → Store
step_fade (fade id now) m = record m {
  deadline = now + 15 * second;
  pending = m.pending ++ id ∷ [];
}
step_fade (fade_tick now) m =
    if not (nat_eq (length m.pending) 0) && ltb m.deadline now
    then record m { find = λ id. if contains m.pending id then none else m.find id; pending = [] }
    else m

unfoldable pub step : Event → Store → Store
step (updated u) m = record m {
  find = λ id. if u.labels.id == id then some (seen_again u (m.find id)) else m.find id;
}
step (faded e) m = step_fade e m
step garbage_tick m =
    if nat_eq (length m.pending) 0
    then record m { find = λ id. unless_expired m.time (m.find id) }
    else m
step started m = record m { find = λ id. none }
step (set_mission_time time) m = record m { time = time }

unfoldable pub steps : List Event → Store → Store
steps [] m = m
steps (e ∷ es) m = steps es (step e m)
