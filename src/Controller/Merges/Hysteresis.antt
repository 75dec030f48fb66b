-- ===== src/Controller/Merges/Hysteresis.antt =====
-- When a hostile and a friendly merge, and when they separate.
use skyeye.Common.{
  ℕ, ◌+◌, ◌≡◌, refl, ap, Bool, true, false, not, ◌&&◌, ◌||◌, List, [], ◌∷◌, arith, nat_eq,
  nat_eq_iff, if◌then◌else◌, nat_Eq, All,
}
use skyeye.Trackfiles.{Trackfile, is_last_known_point_zero}
use skyeye.Controller.Radar.{Units}
use skyeye.Controller.Merges.{
  Merged, is_merged, entered_merge, exited_merge, update_merges_for_contact,
}
use skyeye.Controller.Merges.Tracker.{is_merged-merge, is_merged-separate}

module _ (units : Units) where
  open units use {nautical_mile}

  -- Whether the two are to be merged: a merge begins within three miles, and ends beyond five.
  abbrev pub is_merge : Trackfile → Trackfile → Bool → Bool
  is_merge hostile friendly was =
      not (is_last_known_point_zero friendly || is_last_known_point_zero hostile)
      && (if was
          then not (exited_merge units hostile friendly)
          else entered_merge units hostile friendly)

  abbrev pub was_merged : Trackfile → Trackfile → Merged → Bool
  was_merged hostile friendly m = is_merged hostile.contact.id friendly.contact.id m

  -- An update of a pair changes that pair only. It is merged afterwards exactly when both have a
  -- position and it was merged and has not gone beyond five miles, or was not merged and is within
  -- three; and a new merge is reported exactly when one begins.
  pub is_merged-update_merges_for_contact :
      (hostile friendly : Trackfile) (m : Merged) (j g : ℕ)
      → (is_merged j g (update_merges_for_contact units hostile friendly m).0 ≡ (
          if nat_eq hostile.contact.id j && nat_eq friendly.contact.id g
          then is_merge hostile friendly (was_merged hostile friendly m)
          else is_merged j g m))
        × ((update_merges_for_contact units hostile friendly m).1
            ≡ (not (was_merged hostile friendly m) && is_merge hostile friendly false))
  unfolding update_merges_for_contact
  is_merged-update_merges_for_contact hostile friendly m j g =
      let h = hostile.contact.id in
      let f = friendly.contact.id in
      ground (
        arith,
        is_merged-merge h f j g m,
        is_merged-separate h f j g m,
        nat_eq_iff h j,
        nat_eq_iff f g,
        ap (λ x. is_merged x g m) {x = h} {y = j},
        ap (λ x. is_merged h x m) {x = f} {y = g},
      )

  -- The runs of one pair's updates, with the number of the merges that they report.
  unfoldable pub observe : List (Trackfile × Trackfile) → Merged → Merged × ℕ
  observe [] m = (m, 0)
  observe ((hostile, friendly) ∷ sightings) m =
      let step = update_merges_for_contact units hostile friendly m in
      let (m', count) = observe sightings step.0 in (m', (if step.1 then 1 else 0) + count)

  -- A sighting of the pair in which both have a position, not more than five miles apart.
  pub record IsNear (h f : ℕ) (sighting : Trackfile × Trackfile) : Type 0 where
    pub hostile_id : sighting.0.contact.id ≡ h
    pub friend_id : sighting.1.contact.id ≡ f
    pub located :
        (is_last_known_point_zero sighting.1 || is_last_known_point_zero sighting.0) ≡ false
    pub inside : exited_merge units sighting.0 sighting.1 ≡ false

  -- A merged pair that stays within five miles, however it moves in and out of the three miles of
  -- the entry, stays merged and is not reported again.
  pub observe_quiet :
      (h f : ℕ) (sightings : List (Trackfile × Trackfile)) (m : Merged)
      → All (IsNear h f) sightings
      → is_merged h f m ≡ true
      → (is_merged h f (observe sightings m).0 ≡ true) × ((observe sightings m).1 ≡ 0)
  unfolding observe
  observe_quiet h f [] m near e = (e, refl)
  observe_quiet h f ((hostile, friendly) ∷ sightings) m near e =
      let n = near.0 in
      let same : was_merged hostile friendly m ≡ true = rw (n.hostile_id, n.friend_id) e in
      let (after, new) = is_merged-update_merges_for_contact hostile friendly m h f in
      let still : is_merged h f (update_merges_for_contact units hostile friendly m).0 ≡ true =
        ground (arith, after, same, e, n.located, n.inside) in
      let (last, count) =
        observe_quiet h f sightings (update_merges_for_contact units hostile friendly m).0 near.1
          still in
      (last, ground (arith, new, same, count))
