-- ===== src/Controller/Tests.antt =====
-- Runs of the controller on small inputs, and the theorems at such inputs.
use skyeye.Common.{
  ℕ, ◌-◌, ◌≡◌, refl, not, ◌||◌, ◌&&◌, true, false, List, [], ◌∷◌, none, some, arith, leb,
  if◌then◌else◌, contains, lookup, list_eq, list_Eq, nat_Eq, insert, discard,
}
use skyeye.Common.Text.{codes}
use skyeye.Coalitions.{blue}
use skyeye.Trackfiles.{Point, Trackfile}
use skyeye.Radar.Database.{get_by_id}
use skyeye.Interfaces.{units_of}
use skyeye.Controller.Radar.{Units, Audience, add_friendly_to_broadcast}
use skyeye.Controller.Callsigns.{IsDistinct}
use skyeye.Controller.Merges.{
  Merged, Merges, merge, is_merged, remove, remove_friend, update_merges_for_contact,
  broadcast_merges, friendlies_merged_with, merged_with, is_group_merged_with_friendly,
}
use skyeye.Controller.Merges.Tracker.{IsTracker, is_merged-merge}
use skyeye.Controller.Merges.Hysteresis.{is_merge, was_merged, is_merged-update_merges_for_contact}
use skyeye.Controller.Merges.Broadcast.{is_supported, broadcast_merges_supported}
use skyeye.Controller.Threats.{
  Cooldowns, ThreatCall, recently_notified, broadcast_threat, threatened_callsigns,
  extend_cooldowns, extend_cooldown, is_on_cooldown,
}
use skyeye.Controller.Threats.Suppression.{
  Change, broadcast, forgot, change_all, broadcast_threat_suppressed,
}
use skyeye.Controller.Threats.Calls.{any_threatened, broadcast_threat_names}
use skyeye.Controller.Handlers.{Controller, broadcast_picture}
use skyeye.Controller.Handlers.Pictures.{Turn, broadcast_turns, broadcast_picture_quiet}

abbrev flight : ℕ → ℕ → Trackfile
flight id lon = record {
  contact = record { id = id; name = codes "Eagle 1"; coalition = blue; acmi_name = codes "F-15C" };
  track =
      record { time = 1; point = record { lon = lon; lat = 1 }; altitude = 0; heading = 0 } ∷ [];
}

abbrev store : List (ℕ × Trackfile)
store = (7, flight 7 10) ∷ (9, flight 9 12) ∷ []

-- Points are on a line, a mile is one.
abbrev on_line : Point → Point → ℕ
on_line p q = if leb p.lon q.lon then q.lon - p.lon else p.lon - q.lon

abbrev units : Units
unfolding lookup
units =
    units_of (record { contacts = store; callsign_idx = [] })
      (record { unique = (refl, (refl, tt)); keyed = (refl, (refl, tt)) }) on_line 1

abbrev audience : Audience
audience = record {
  is_on_frequency = λ name. true;
  parse_pilot_callsign = λ name. some (codes "eagle 1");
  requires_srs = true;
}

abbrev merged : Merged
merged = (7, 9 ∷ 8 ∷ []) ∷ (6, 9 ∷ []) ∷ []

merged-IsTracker : IsTracker merged
unfolding lookup
merged-IsTracker = (refl, (λ e. cc), (refl, (λ e. cc), tt))

is_merged-merge_example : is_merged 5 9 (merge 5 9 merged) ≡ (is_merged 5 9 merged || true)
is_merged-merge_example = is_merged-merge 5 9 5 9 merged

-- The last friend of a hostile takes its entry along.
removed : remove 9 merged ≡ (7, 8 ∷ []) ∷ []
unfolding remove remove_friend lookup discard
removed = refl

is_merged-update_merges_for_contact_example :
    (is_merged 7 9 (update_merges_for_contact units (flight 7 10) (flight 9 12) []).0
      ≡ is_merge units
          (flight 7 10)
          (flight 9 12)
          (was_merged units (flight 7 10) (flight 9 12) []))
    × ((update_merges_for_contact units (flight 7 10) (flight 9 12) []).1 ≡ (
        not (was_merged units (flight 7 10) (flight 9 12) [])
        && is_merge units (flight 7 10) (flight 9 12) false))
is_merged-update_merges_for_contact_example =
    is_merged-update_merges_for_contact units (flight 7 10) (flight 9 12) [] 7 9

-- Four miles, then two, then five.
abbrev sightings : List (Trackfile × Trackfile)
sightings =
    (flight 7 10, flight 9 14) ∷ (flight 7 10, flight 9 12) ∷ (flight 7 10, flight 9 15) ∷ []

abbrev reported : Merges
reported = (7 ∷ [], flight 9 12 ∷ []) ∷ []

broadcast_merges_supported_example :
    IsTracker (broadcast_merges units audience reported merged).0
    × (is_merged 6 9 (broadcast_merges units audience reported merged).0 ≡ true
        → is_supported reported 6 9 ≡ true)
broadcast_merges_supported_example =
    broadcast_merges_supported units audience reported merged 6 9 merged-IsTracker

abbrev cooldowns : Cooldowns
cooldowns = record { cooldown = 100; cooldowns = (7, 40) ∷ [] }

abbrev called : Cooldowns
called = record { cooldown = 100; cooldowns = (7, 151) ∷ (5, 151) ∷ [] }

abbrev call : ThreatCall
call = record { callsigns = codes "eagle 1" ∷ []; group_ids = 7 ∷ 5 ∷ []; merged_count = 0 }

threat_broadcast :
    broadcast_threat units audience 50 51 [] (7 ∷ 5 ∷ []) (9 ∷ []) cooldowns ≡ (called, some call)
unfolding broadcast_threat recently_notified is_on_cooldown threatened_callsigns
    is_group_merged_with_friendly is_merged add_friendly_to_broadcast extend_cooldowns
    extend_cooldown merged_with friendlies_merged_with get_by_id lookup insert contains list_eq
threat_broadcast = refl

-- Another group is called in between, and a contact of neither fades.
abbrev between : List Change
between = broadcast 60 61 [] (3 ∷ []) (9 ∷ []) ∷ forgot 4 ∷ []

broadcast_threat_suppressed_example :
    let c = change_all units audience between called in
    broadcast_threat units audience 150 152 merged (5 ∷ []) (8 ∷ []) c ≡ (c, none)
unfolding contains
broadcast_threat_suppressed_example =
    broadcast_threat_suppressed units audience 50 51 150 152 [] merged (7 ∷ 5 ∷ []) (5 ∷ [])
      (9 ∷ []) (8 ∷ []) between cooldowns threat_broadcast (λ j h. ground arith)
      (omega arith, (refl, tt)) (omega arith)

broadcast_threat_names_example :
    (contains call.callsigns (codes "eagle 1")
      ≡ any_threatened units audience [] (7 ∷ 5 ∷ []) (9 ∷ []) (codes "eagle 1"))
    × IsDistinct call.callsigns
    × (recently_notified 50 (7 ∷ 5 ∷ []) cooldowns ≡ false)
broadcast_threat_names_example =
    broadcast_threat_names units audience 50 51 [] (7 ∷ 5 ∷ []) (9 ∷ []) cooldowns (codes "eagle 1")
      threat_broadcast

abbrev controller : Controller
controller = record {
  coalition = blue;
  picture_broadcast_interval = 120;
  picture_broadcast_deadline = 0;
  was_last_picture_clean = false;
  enable_threat_monitoring = true;
  threat_cooldowns = called;
  merges = merged;
}

abbrev turn : ℕ → ℕ → Turn
turn now clients = record { now = now; clients = clients; count = 0; groups = [] }

broadcast_picture_quiet_example :
    (broadcast_turns
      (turn 9 1 ∷ turn 10 0 ∷ turn 11 3 ∷ [])
      (broadcast_picture 8 true 0 0 [] controller).0).1
    ≡ []
broadcast_picture_quiet_example =
    broadcast_picture_quiet 8 true 0 [] controller (turn 9 1 ∷ turn 10 0 ∷ turn 11 3 ∷ []) refl
      (refl, (refl, (refl, tt)))
