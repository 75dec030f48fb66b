-- ===== src/Controller/Handlers.antt =====
-- pkg/controller/controller.go, callbacks.go, picture.go, threat.go and the request handlers: the
-- controller's state and the calls it publishes. What the radar and the radio client answer (a
-- count of clients, nearby groups, a picture, a found callsign) are arguments.
pub mod Callbacks
pub mod Pictures
use skyeye.Common.{
  ℕ, ◌+◌, ◌<◌, Bool, true, false, not, ◌&&◌, ◌||◌, List, [], ◌∷◌, ◌++◌, Option, none, some, nat_eq,
  ltb, if◌then◌else◌, length,
}
use skyeye.Common.Text.{Text, codes}
use skyeye.Coalitions.{Coalition, opposite}
use skyeye.Trackfiles.{Trackfile, is_last_known_point_zero}
use skyeye.Controller.Calls.{
  Call, faded_call, threat_call, picture_response, radio_check_response, alpha_check_response,
  tripwire_response, negative_radar_contact_response, say_again_response,
}
use skyeye.Controller.Radar.{Units, Audience}
use skyeye.Controller.Merges.{Merged, remove, merged_with}
use skyeye.Controller.Threats.{
  Cooldowns, ThreatCall, remove_cooldown, reset_cooldowns, broadcast_threat,
}

pub record Controller : Type 0 where
  pub coalition : Coalition
  pub picture_broadcast_interval : ℕ
  pub picture_broadcast_deadline : ℕ
  pub was_last_picture_clean : Bool
  pub enable_threat_monitoring : Bool
  pub threat_cooldowns : Cooldowns
  pub merges : Merged

-- controller.remove
unfoldable pub remove_id : ℕ → Controller → Controller
remove_id id c = record c {
  threat_cooldowns = remove_cooldown id c.threat_cooldowns;
  merges = remove id c.merges;
}

unfoldable pub remove_ids : List ℕ → Controller → Controller
remove_ids [] c = c
remove_ids (id ∷ ids) c = remove_ids ids (remove_id id c)

unfoldable pub handle_started : Controller → Controller
handle_started c = record c {
  merges = [];
  threat_cooldowns = reset_cooldowns c.threat_cooldowns;
  was_last_picture_clean = false;
}

unfoldable pub handle_removed : Trackfile → Controller → Controller
handle_removed t c = remove_id t.contact.id c

-- `humans` is HumansOnFrequency, `nearby` the number of friendly groups near the location.
unfoldable pub handle_faded : List ℕ → Coalition → ℕ → ℕ → Controller → Controller × List Call
handle_faded ids coalition humans nearby c = (
  remove_ids ids c,
  if nat_eq coalition (opposite c.coalition) && ltb 0 nearby && ltb 0 humans
      then faded_call ids ∷ []
      else [],
)

-- The groups of a picture, each with the count of its merges.
unfoldable pub fill_in_all : List (List ℕ) → Merged → List (List ℕ × ℕ)
fill_in_all [] m = []
fill_in_all (ids ∷ groups) m = (ids, merged_with ids m) ∷ fill_in_all groups m

unfoldable pub broadcast_picture :
    ℕ → Bool → ℕ → ℕ → List (List ℕ) → Controller → Controller × List Call
broadcast_picture now force_broadcast clients count groups c =
    if not force_broadcast && nat_eq clients 0 then (c, []) else (
      record c {
        picture_broadcast_deadline = now + c.picture_broadcast_interval;
        was_last_picture_clean = nat_eq count 0;
      },
      if c.was_last_picture_clean && nat_eq count 0 && not force_broadcast
          then []
          else picture_response count (fill_in_all groups c.merges) ∷ [],
    )

abbrev pub threat_calls : Option ThreatCall → List Call
threat_calls none = []
threat_calls (some call) = threat_call call ∷ []

-- The loop of broadcastThreats, over groups with the friendlies that they threaten.
unfoldable pub broadcast_each_threat :
    Units → Audience → ℕ → ℕ → List (List ℕ × List ℕ) → Controller → Controller × List Call
broadcast_each_threat units audience now later [] c = (c, [])
broadcast_each_threat units audience now later ((hostiles, friends) ∷ threats) c =
    let (t, call) =
      broadcast_threat units audience now later c.merges hostiles friends c.threat_cooldowns in
    let (c', calls) =
      broadcast_each_threat units audience now later threats (record c { threat_cooldowns = t }) in
    (c', threat_calls call ++ calls)

unfoldable pub broadcast_threats :
    Units → Audience → ℕ → ℕ → List (List ℕ × List ℕ) → Controller → Controller × List Call
broadcast_threats units audience now later threats c =
    if not c.enable_threat_monitoring
    then (c, [])
    else broadcast_each_threat units audience now later threats c

-- findCallsign, given what the radar found: the callsign, and a trackfile that has a position.
unfoldable pub find_callsign : Option (Text × Trackfile) → Text × Option Trackfile
find_callsign none = ([], none)
find_callsign (some (callsign, t)) =
    if is_last_known_point_zero t then (callsign, none) else (callsign, some t)

unfoldable pub handle_radio_check : Text → Option (Text × Trackfile) → Call
handle_radio_check callsign found =
    let (found_callsign, t) = find_callsign found in
    elim t [
      | none ↦ radio_check_response callsign false
      | some _ ↦ radio_check_response found_callsign true
    ]

-- The location is that of the trackfile, from the bullseye.
unfoldable pub handle_alpha_check : Text → Option (Text × Trackfile) → Call
handle_alpha_check callsign found =
    let (found_callsign, t) = find_callsign found in
    elim t [
      | none ↦ alpha_check_response callsign none
      | some u ↦ alpha_check_response found_callsign (some u)
    ]

unfoldable pub handle_tripwire : Text → Option (Text × Trackfile) → Call
handle_tripwire callsign found =
    let (found_callsign, t) = find_callsign found in
    elim t [
      | none ↦ negative_radar_contact_response callsign
      | some _ ↦ tripwire_response found_callsign
    ]

unfoldable pub handle_unable_to_understand : Option (Text × Trackfile) → Call
handle_unable_to_understand none = say_again_response (codes "last caller")
handle_unable_to_understand (some (callsign, t)) = say_again_response callsign
