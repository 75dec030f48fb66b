-- ===== src/Radar/Merging.antt =====
-- pkg/radar/merged.go: the groups of the other side that are merged with someone. The range loops
-- visit the contacts in the order of the list.
pub mod Reports
use skyeye.Common.{
  ℕ, ◌*◌, Bool, true, false, not, ◌&&◌, ◌||◌, List, [], ◌∷◌, ◌++◌, Option, none, some, nat_eq, ltb,
  if◌then◌else◌, nat_Eq, contains, insert,
}
use skyeye.Brevity.{category_eq, rotary_wing}
use skyeye.Encyclopedia.Airframes.{category_of}
use skyeye.Coalitions.{Coalition, opposite}
use skyeye.Trackfiles.{Trackfile, last_known, is_last_known_point_zero}
use skyeye.Radar.Grouping.{Sensors, Group, contacts, object_ids, find_group_for_aircraft}

-- A group, and the contacts it is merged with.
abbrev pub Report : Type 0
Report = Group × List Trackfile

unfoldable pub values_of : List (ℕ × Trackfile) → List Trackfile
values_of [] = []
values_of ((id, t) ∷ m) = t ∷ values_of m

module _ (sensors : Sensors) where
  open sensors use {get_aircraft_data, distance, nautical_mile}

  -- The tests of the loop of mergesForContact.
  unfoldable pub is_merged_with : Trackfile → Trackfile → Bool
  is_merged_with t other =
      not (nat_eq t.contact.coalition other.contact.coalition)
      && not (is_last_known_point_zero other)
      && ltb (distance (last_known t).point (last_known other).point) (5 * nautical_mile)

  -- The loop of mergesForContact, into the map by ID; a contact without a position is merged with no one.
  unfoldable pub merges_for_contact :
      Trackfile → List Trackfile → List (ℕ × Trackfile) → List (ℕ × Trackfile)
  merges_for_contact t [] m = m
  merges_for_contact t (other ∷ others) m = merges_for_contact t others (
      if not (is_last_known_point_zero t) && is_merged_with t other
      then insert other.contact.id other m
      else m)

  -- The loop over the contacts of a group.
  unfoldable pub merges_for_group :
      List Trackfile → List Trackfile → List (ℕ × Trackfile) → List (ℕ × Trackfile)
  merges_for_group values [] m = m
  merges_for_group values (t ∷ ts) m = merges_for_group values ts (merges_for_contact t values m)

  unfoldable pub is_helicopter : Trackfile → Bool
  is_helicopter t = elim (get_aircraft_data t.contact.acmi_name) [
    | none ↦ false
    | some known ↦ category_eq (category_of known) rotary_wing
  ]

  -- The checks at the start of the loop of Merges.
  unfoldable pub is_candidate : Coalition → List ℕ → Trackfile → Bool
  is_candidate coalition visited t =
      not (contains visited t.contact.id)
      && nat_eq t.contact.coalition (opposite coalition)
      && not (is_last_known_point_zero t)
      && not (is_helicopter t)

  abbrev pub report_unless_empty : Group → List Trackfile → List Report → List Report
  report_unless_empty g [] reports = reports
  report_unless_empty g (t ∷ ts) reports = (g, t ∷ ts) ∷ reports

  -- The loop over the contacts, with the IDs that were visited.
  unfoldable pub merges_from : Coalition → List Trackfile → List Trackfile → List ℕ → List Report
  merges_from coalition values [] visited = []
  merges_from coalition values (t ∷ ts) visited =
      let g = find_group_for_aircraft sensors values t in
      let joined = values_of (merges_for_group values (contacts g) []) in
      let rest = merges_from coalition values ts (object_ids g ++ visited) in
      let skipped = merges_from coalition values ts visited in
      if is_candidate coalition visited t then report_unless_empty g joined rest else skipped

  unfoldable pub merges : Coalition → List Trackfile → List Report
  merges coalition values = merges_from coalition values values []
