-- ===== src/Controller/Threats.antt =====
-- pkg/controller/threat.go: the cooldowns of hostile IDs, and the threat calls that they suppress.
-- Times are nanoseconds; a handler reads the clock when it tests the cooldowns and again when it
-- extends them. A group is its IDs, as the radar's Threats reports it.
pub mod Suppression
pub mod Calls
use skyeye.Common.{
  ℕ, ◌+◌, Bool, true, false, not, ◌&&◌, ◌||◌, List, [], ◌∷◌, ◌++◌, Option, none, some, ltb,
  if◌then◌else◌, nat_Eq, lookup, insert, delete,
}
use skyeye.Common.Text.{Text}
use skyeye.Trackfiles.{Trackfile}
use skyeye.Controller.Radar.{Units, Audience, add_friendly_to_broadcast}
use skyeye.Controller.Merges.{Merged, is_group_merged_with_friendly, merged_with}

pub record Cooldowns : Type 0 where
  pub cooldown : ℕ
  pub cooldowns : List (ℕ × ℕ)

unfoldable pub extend_cooldown : ℕ → ℕ → Cooldowns → Cooldowns
extend_cooldown now id t = record t { cooldowns = insert id (now + t.cooldown) t.cooldowns }

unfoldable pub is_on_cooldown : ℕ → ℕ → Cooldowns → Bool
is_on_cooldown now id t = elim (lookup id t.cooldowns) [ none ↦ false | some until ↦ ltb now until ]

unfoldable pub remove_cooldown : ℕ → Cooldowns → Cooldowns
remove_cooldown id t = record t { cooldowns = delete id t.cooldowns }

abbrev pub reset_cooldowns : Cooldowns → Cooldowns
reset_cooldowns t = record t { cooldowns = [] }

-- The loop that sets `recentlyNotified`.
unfoldable pub recently_notified : ℕ → List ℕ → Cooldowns → Bool
recently_notified now [] t = true
recently_notified now (id ∷ ids) t = is_on_cooldown now id t && recently_notified now ids t

unfoldable pub extend_cooldowns : ℕ → List ℕ → Cooldowns → Cooldowns
extend_cooldowns now [] t = t
extend_cooldowns now (id ∷ ids) t = extend_cooldowns now ids (extend_cooldown now id t)

pub record ThreatCall : Type 0 where
  pub callsigns : List Text
  pub group_ids : List ℕ
  -- Whether the group is declared a furball, with the count of its merges.
  pub merged_count : ℕ

module _ (units : Units) (audience : Audience) where
  abbrev pub add_found : Option Trackfile → List Text → List Text
  add_found none callsigns = callsigns
  add_found (some friendly) callsigns = add_friendly_to_broadcast audience callsigns friendly

  -- The loop over the threatened friendlies.
  unfoldable pub threatened_callsigns : Merged → List ℕ → List ℕ → List Text → List Text
  threatened_callsigns m hostiles [] callsigns = callsigns
  threatened_callsigns m hostiles (friend ∷ friends) callsigns =
      threatened_callsigns m hostiles friends (
        if is_group_merged_with_friendly hostiles friend m
        then callsigns
        else add_found (units.find_unit friend) callsigns)

  abbrev pub call_if_any :
      ℕ → Merged → List ℕ → List Text → Cooldowns → Cooldowns × Option ThreatCall
  call_if_any later m hostiles [] t = (t, none)
  call_if_any later m hostiles (c ∷ cs) t = (
    extend_cooldowns later hostiles t,
    some (record {
      callsigns = c ∷ cs;
      group_ids = hostiles;
      merged_count = merged_with hostiles m;
    }),
  )

  unfoldable pub broadcast_threat :
      ℕ → ℕ → Merged → List ℕ → List ℕ → Cooldowns → Cooldowns × Option ThreatCall
  broadcast_threat now later m hostiles friends t =
      if recently_notified now hostiles t
      then (t, none)
      else call_if_any later m hostiles (threatened_callsigns m hostiles friends []) t
