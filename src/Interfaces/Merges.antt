-- ===== src/Interfaces/Merges.antt =====
-- The radar's Merges (pkg/radar/merged.go) as the controller's broadcastMerges
-- (pkg/controller/merged.go) takes it.
use skyeye.Common.{
  ℕ, ◌≡◌, inl, inr, true, ◌&&◌, List, [], ◌∷◌, arith, nat_eq, nat_eq_iff, nat_Eq, Bool-cases, map,
  contains, All,
}
use skyeye.Coalitions.{Coalition}
use skyeye.Trackfiles.{Trackfile}
use skyeye.Radar.Grouping.{Sensors, contacts, id_of, object_ids}
use skyeye.Radar.Merging.{Report, merges}
use skyeye.Radar.Merging.Reports.{IsMergedWith, IsReport, merges-IsReport}
use skyeye.Controller.Radar.{Units, Audience}
use skyeye.Controller.Merges.{Merged, Merges, is_merged, broadcast_merges}
use skyeye.Controller.Merges.Tracker.{IsTracker}
use skyeye.Controller.Merges.Broadcast.{is_supported, broadcast_merges_supported}

abbrev pub reported : List Report → Merges
reported [] = []
reported ((g, friendlies) ∷ rs) = (object_ids g, friendlies) ∷ reported rs

module _ (sensors : Sensors) (coalition : Coalition) (values : List Trackfile) where
  -- The radar's evidence for a merge: a group with the hostile, and a contact under the friendly's ID
  -- that is within five miles of someone of the group.
  pub record IsSeen (hostile friend : ℕ) : Type 0 where
    pub report : Report
    pub other : Trackfile
    pub valid : IsReport sensors coalition values report
    pub in_group : contains (object_ids report.0) hostile ≡ true
    pub friend_id : other.contact.id ≡ friend
    pub near : IsMergedWith sensors (contacts report.0) other

  find_friend :
      (P : Trackfile → Type 0) (fs : List Trackfile) (g : ℕ)
      → contains (map id_of fs) g ≡ true
      → All P fs
      → (f : Trackfile) × (f.contact.id ≡ g) × P f
  unfolding contains
  find_friend P [] g h v = absurd (ground arith)
  find_friend P (f ∷ fs) g h v = elim (Bool-cases (nat_eq f.contact.id g)) [
    | inl same ↦ (f, (nat_eq_iff f.contact.id g).0 same, v.0)
    | inr other ↦ find_friend P fs g (rw other at h) v.1
  ]

  is_supported-IsSeen :
      (rs : List Report) (j g : ℕ)
      → All (IsReport sensors coalition values) rs
      → is_supported (reported rs) j g ≡ true
      → IsSeen j g
  unfolding is_supported
  is_supported-IsSeen [] j g v h = absurd (ground arith)
  is_supported-IsSeen ((group, fs) ∷ rs) j g v h =
      elim (Bool-cases (contains (object_ids group) j && contains (map id_of fs) g)) [
        | inl here ↦
            let (f, id, near) =
              find_friend (IsMergedWith sensors (contacts group)) fs g (ground arith)
                (v.0).merged in
            record {
              report = (group, fs);
              other = f;
              valid = v.0;
              in_group = ground arith;
              friend_id = id;
              near = near;
            }
        | inr elsewhere ↦ is_supported-IsSeen rs j g v.1 (ground arith)
      ]

  -- After broadcastMerges has taken what the radar's Merges reports, every pair that the controller
  -- holds for merged has the radar's evidence: the hostile is in a reported group of the opposite
  -- coalition, and a contact with the friendly's ID is within five miles of a member of that group.
  pub broadcast_merges-IsSeen :
      (units : Units) (audience : Audience) (m : Merged) (j g : ℕ)
      → IsTracker m
      → is_merged j g
          (broadcast_merges units audience (reported (merges sensors coalition values)) m).0
        ≡ true
      → IsSeen j g
  broadcast_merges-IsSeen units audience m j g v h =
      let rs = merges sensors coalition values in
      is_supported-IsSeen rs j g (merges-IsReport sensors coalition values)
        ((broadcast_merges_supported units audience (reported rs) m j g v).1 h)
