-- ===== src/Radar/Nearest/Sector.antt =====
-- pkg/radar/nearest.go: what FindNearestGroupInSector finds, which is not always the nearest.
use skyeye.Common.{
  ℕ, ◌≡◌, refl, Bool, true, false, List, [], ◌∷◌, ◌++◌, Option, none, some, if◌then◌else◌, All,
}
use skyeye.Trackfiles.{Point, Trackfile}
use skyeye.Radar.Grouping.{Sensors, find_group_for_aircraft}
use skyeye.Radar.Nearest.{Query, is_sector_contact, sector_from, find_nearest_group_in_sector}

module _ (sensors : Sensors) (float_le : ℕ → ℕ → Bool) (query : Query)
    (in_sector : Point → Bool) where
  abbrev is_contact : Trackfile → Bool
  is_contact t = is_sector_contact sensors float_le query in_sector t

  abbrev from : List Trackfile → Option Trackfile → Option Trackfile
  from values nearest = sector_from sensors float_le query in_sector values nearest

  from-append :
      (xs ys : List Trackfile) (nearest : Option Trackfile)
      → from (xs ++ ys) nearest ≡ from ys (from xs nearest)
  unfolding sector_from
  from-append [] ys nearest = refl
  from-append (x ∷ xs) ys nearest = from-append xs ys (if is_contact x then some x else nearest)

  from-none :
      (xs : List Trackfile) (nearest : Option Trackfile)
      → All (λ t. is_contact t ≡ false) xs
      → from xs nearest ≡ nearest
  unfolding sector_from
  from-none [] nearest v = refl
  from-none (x ∷ xs) nearest v = rw v.0 (from-none xs nearest v.1)

  -- FindNearestGroupInSector answers with the group of the contact that the loop visits last of
  -- those in the sector, whatever the distances of the contacts before it are: it keeps no distance
  -- to compare with.
  pub find_nearest_group_in_sector_last :
      (before : List Trackfile) (t : Trackfile) (after : List Trackfile)
      → is_contact t ≡ true
      → All (λ u. is_contact u ≡ false) after
      → find_nearest_group_in_sector sensors float_le query in_sector (before ++ t ∷ after)
        ≡ some (find_group_for_aircraft sensors (before ++ t ∷ after) t)
  unfolding find_nearest_group_in_sector
  find_nearest_group_in_sector_last before t after here v =
      rw (from-append before (t ∷ after) none)
        (rw (last_one t after (from before none) here v) refl)
    where
      last_one :
          (t : Trackfile) (after : List Trackfile) (nearest : Option Trackfile)
          → is_contact t ≡ true
          → All (λ u. is_contact u ≡ false) after
          → from (t ∷ after) nearest ≡ some t
      last_one t after nearest here v = unfold sector_from in rw here (from-none after (some t) v)
