-- ===== src/Radar/Nearest/Least.antt =====
-- pkg/radar/nearest.go: what FindNearestTrackfile finds.
use skyeye.Common.{
  ℕ, ◌<◌, ◌≤◌, ◌≡◌, refl, ◌⊎◌, inl, inr, Bool, true, ◌&&◌, List, [], ◌∷◌, Option, none, some, ltb,
  arith, Bool-cases, IsOneOf, All,
}
use skyeye.Trackfiles.{Trackfile}
use skyeye.Radar.Grouping.{Sensors}
use skyeye.Radar.Nearest.{Query, distance_to, is_wanted, nearest_from, find_nearest_trackfile}

module _ (sensors : Sensors) (float_le : ℕ → ℕ → Bool) (query : Query) where
  abbrev dist : Trackfile → ℕ
  dist t = distance_to sensors float_le query t

  -- A wanted contact is at least as far away.
  unfoldable pub IsBeyond : ℕ → Trackfile → Type 0
  IsBeyond d t = is_wanted sensors float_le query t ≡ true → d ≤ dist t

  -- The contact is wanted and nearer than the bound, and no wanted contact of the list is nearer.
  pub record IsNearest (d : ℕ) (values : List Trackfile) (t : Trackfile) : Type 0 where
    pub listed : IsOneOf t values
    pub wanted : is_wanted sensors float_le query t ≡ true
    pub within : dist t < d
    pub least : All (IsBeyond (dist t)) values

  -- The search ends with what it began with if no wanted contact is nearer, else with a nearest one.
  unfoldable pub IsFound : ℕ → List Trackfile → Option Trackfile → Option Trackfile → Type 0
  IsFound d values before after =
      ((after ≡ before) × All (IsBeyond d) values)
      ⊎ ((t : Trackfile) × (after ≡ some t) × IsNearest d values t)

  IsFound-nearer :
      (d : ℕ) (t : Trackfile) (ts : List Trackfile) (before after : Option Trackfile)
      → is_wanted sensors float_le query t ≡ true
      → dist t < d
      → IsFound (dist t) ts (some t) after
      → IsFound d (t ∷ ts) before after
  unfolding IsFound IsBeyond IsOneOf
  IsFound-nearer d t ts before after w near (inl (same, least)) = inr (
    t,
    same,
    record { listed = inl refl; wanted = w; within = near; least = (λ _. omega arith, least) },
  )
  IsFound-nearer d t ts before after w near (inr (u, same, v)) = inr (
    u,
    same,
    record {
      listed = inr v.listed;
      wanted = v.wanted;
      within = omega (arith, v.within);
      least = (λ _. omega (arith, v.within), v.least);
    },
  )

  IsFound-skip :
      (d : ℕ) (t : Trackfile) (ts : List Trackfile) (before after : Option Trackfile)
      → IsBeyond d t
      → IsFound d ts before after
      → IsFound d (t ∷ ts) before after
  unfolding IsFound IsBeyond IsOneOf
  IsFound-skip d t ts before after far (inl (same, least)) = inl (same, (far, least))
  IsFound-skip d t ts before after far (inr (u, same, v)) = inr (
    u,
    same,
    record {
      listed = inr v.listed;
      wanted = v.wanted;
      within = v.within;
      least = (λ w. omega (arith, v.within, far w), v.least);
    },
  )

  nearest_from-IsFound :
      (ts : List Trackfile) (d : ℕ) (before : Option Trackfile)
      → IsFound d ts before (nearest_from sensors float_le query ts d before)
  unfolding nearest_from
  nearest_from-IsFound [] d before = unfold IsFound in inl (refl, tt)
  nearest_from-IsFound (t ∷ ts) d before =
      elim (Bool-cases (is_wanted sensors float_le query t && ltb (dist t) d)) [
        | inl nearer ↦ rw nearer (
            IsFound-nearer d t ts before (nearest_from sensors float_le query ts (dist t) (some t))
              (ground arith) (ground arith) (nearest_from-IsFound ts (dist t) (some t)))
        | inr farther ↦ rw farther (
            IsFound-skip d t ts before (nearest_from sensors float_le query ts d before)
              (unfold IsBeyond in λ w. ground arith) (nearest_from-IsFound ts d before))
      ]

  -- FindNearestTrackfile returns a contact that is wanted (of the coalition and the category, valid,
  -- and in the layer of altitudes), is within the radius, and is the nearest such contact; it returns
  -- none only if every wanted contact is as far away as the radius or farther.
  pub find_nearest_trackfile-IsFound :
      (values : List Trackfile)
      → IsFound query.radius values none (find_nearest_trackfile sensors float_le query values)
  unfolding find_nearest_trackfile
  find_nearest_trackfile-IsFound values = nearest_from-IsFound values query.radius none
