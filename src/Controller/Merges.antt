-- ===== src/Controller/Merges.antt =====
-- pkg/controller/merged.go: the merges of hostiles with friendlies, as a map of hostile IDs to sets
-- of friendly IDs, and the calls that announce them. What the radar's Merges returns is an argument,
-- in the order in which the loop visits it.
pub mod Tracker
pub mod Hysteresis
pub mod Broadcast
use skyeye.Common.{
  ℕ, ◌+◌, ◌*◌, Bool, true, false, not, ◌&&◌, ◌||◌, List, [], ◌∷◌, ◌++◌, Option, none, some, ltb,
  if◌then◌else◌, nat_Eq, map, length, contains, add, discard, lookup, insert, delete,
}
use skyeye.Common.Text.{Text}
use skyeye.Trackfiles.{Trackfile, last_known, is_last_known_point_zero}
use skyeye.Radar.Grouping.{id_of}
use skyeye.Controller.Radar.{Units, Audience, add_friendly_to_broadcast}

abbrev pub Merged : Type 0
Merged = List (ℕ × List ℕ)

abbrev pub or_empty : Option (List ℕ) → List ℕ
or_empty none = []
or_empty (some ids) = ids

unfoldable pub merge : ℕ → ℕ → Merged → Merged
merge hostile friend m = insert hostile (add friend (or_empty (lookup hostile m))) m

unfoldable pub friendlies_merged_with : ℕ → Merged → List ℕ
friendlies_merged_with hostile m = or_empty (lookup hostile m)

unfoldable pub is_merged : ℕ → ℕ → Merged → Bool
is_merged hostile friend m = contains (or_empty (lookup hostile m)) friend

-- A set that became empty leaves the map.
abbrev pub put : ℕ → List ℕ → Merged → Merged
put hostile [] m = delete hostile m
put hostile (id ∷ ids) m = insert hostile (id ∷ ids) m

unfoldable pub separate : ℕ → ℕ → Merged → Merged
separate hostile friend m = elim (lookup hostile m) [
  | none ↦ m
  | some ids ↦ put hostile (discard friend ids) m
]

-- An entry that has lost a friend: none, if the set is empty.
abbrev pub entry_unless_empty : ℕ → List ℕ → Merged → Merged
entry_unless_empty hostile [] m = m
entry_unless_empty hostile (id ∷ ids) m = (hostile, id ∷ ids) ∷ m

-- The loop of `remove` over all hostiles.
unfoldable pub remove_friend : ℕ → Merged → Merged
remove_friend friend [] = []
remove_friend friend ((hostile, ids) ∷ m) =
    entry_unless_empty hostile (discard friend ids) (remove_friend friend m)

unfoldable pub remove : ℕ → Merged → Merged
remove id m = elim (lookup id m) [ none ↦ remove_friend id m | some ids ↦ delete id m ]

unfoldable pub keep : List ℕ → Merged → Merged
keep ids [] = []
keep ids ((hostile, friends) ∷ m) =
    let kept = keep ids m in if contains ids hostile then (hostile, friends) ∷ kept else kept

-- A hostile group's IDs, and the friendlies it is near.
abbrev pub Merges : Type 0
Merges = List (List ℕ × List Trackfile)

abbrev pub hostile_ids : Merges → List ℕ
hostile_ids [] = []
hostile_ids ((ids, friendlies) ∷ merges) = ids ++ hostile_ids merges

abbrev pub call_unless_empty : List Text → List (List Text) → List (List Text)
call_unless_empty [] calls = calls
call_unless_empty (c ∷ cs) calls = (c ∷ cs) ∷ calls

module _ (units : Units) where
  open units use {distance, nautical_mile, find_unit}

  abbrev pub range : Trackfile → Trackfile → ℕ
  range hostile friendly = distance (last_known friendly).point (last_known hostile).point

  -- brevity.MergeEntryDistance and MergeExitDistance
  unfoldable pub entered_merge : Trackfile → Trackfile → Bool
  entered_merge hostile friendly = ltb (range hostile friendly) (3 * nautical_mile)

  unfoldable pub exited_merge : Trackfile → Trackfile → Bool
  exited_merge hostile friendly = ltb (5 * nautical_mile) (range hostile friendly)

  unfoldable pub update_merges_for_contact : Trackfile → Trackfile → Merged → Merged × Bool
  update_merges_for_contact hostile friendly m =
      let h = hostile.contact.id in
      let f = friendly.contact.id in
      if is_last_known_point_zero friendly || is_last_known_point_zero hostile
      then (separate h f m, false)
      else if not (is_merged h f m) && entered_merge hostile friendly
      then (merge h f m, true)
      else if is_merged h f m && exited_merge hostile friendly
      then (separate h f m, false)
      else (m, false)

  -- The innermost loop, over the friendlies.
  unfoldable pub update_friendlies : Trackfile → List Trackfile → Merged → Merged × List Trackfile
  update_friendlies hostile [] m = (m, [])
  update_friendlies hostile (f ∷ fs) m =
      let step = update_merges_for_contact hostile f m in
      let (m', new) = update_friendlies hostile fs step.0 in (m', if step.1 then f ∷ new else new)

  -- The loop that separates those who are no longer near.
  unfoldable pub separate_others : ℕ → List ℕ → List ℕ → Merged → Merged
  separate_others hostile friends [] m = m
  separate_others hostile friends (old ∷ olds) m =
      separate_others hostile friends olds
        (if contains friends old then m else separate hostile old m)

  abbrev pub update_found : ℕ → Option Trackfile → List Trackfile → Merged → Merged × List Trackfile
  update_found hostile none friendlies m = (remove hostile m, [])
  update_found hostile (some t) friendlies m = update_friendlies t friendlies m

  -- The body of the loop over the IDs of the hostile group.
  unfoldable pub update_hostile : ℕ → List Trackfile → Merged → Merged × List Trackfile
  update_hostile hostile friendlies m =
      update_found hostile (find_unit hostile) friendlies
        (separate_others hostile (map id_of friendlies) (friendlies_merged_with hostile m) m)

  unfoldable pub update_merges_for_group :
      List ℕ → List Trackfile → Merged → Merged × List Trackfile
  update_merges_for_group [] friendlies m = (m, [])
  update_merges_for_group (hostile ∷ hostiles) friendlies m =
      let (m1, new) = update_hostile hostile friendlies m in
      let (m2, more) = update_merges_for_group hostiles friendlies m1 in (m2, new ++ more)

  unfoldable pub create_merged_call : Audience → List Text → List Trackfile → List Text
  create_merged_call audience callsigns [] = callsigns
  create_merged_call audience callsigns (f ∷ fs) =
      create_merged_call audience (add_friendly_to_broadcast audience callsigns f) fs

  -- The loop over the groups, with the callsigns of the calls it makes.
  unfoldable pub broadcast_groups : Audience → Merges → Merged → Merged × List (List Text)
  broadcast_groups audience [] m = (m, [])
  broadcast_groups audience ((ids, friendlies) ∷ merges) m =
      let (m1, new) = update_merges_for_group ids friendlies m in
      let (m2, calls) = broadcast_groups audience merges m1 in
      (m2, call_unless_empty (create_merged_call audience [] new) calls)

  unfoldable pub broadcast_merges : Audience → Merges → Merged → Merged × List (List Text)
  broadcast_merges audience merges m =
      broadcast_groups audience merges (keep (hostile_ids merges) m)

-- The count that fillInMergeDetails gives a group; a group with a count is a furball.
unfoldable pub merged_with : List ℕ → Merged → ℕ
merged_with [] m = 0
merged_with (id ∷ ids) m = length (friendlies_merged_with id m) + merged_with ids m

unfoldable pub is_group_merged_with_friendly : List ℕ → ℕ → Merged → Bool
is_group_merged_with_friendly [] friend m = false
is_group_merged_with_friendly (id ∷ ids) friend m =
    is_merged id friend m || is_group_merged_with_friendly ids friend m
