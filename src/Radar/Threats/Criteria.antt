-- ===== src/Radar/Threats/Criteria.antt =====
-- pkg/radar/threat.go: whom Threats reports, and as threatened by whom.
use skyeye.Common.{
  ℕ, ◌<◌, ◌≡◌, ◌≢◌, refl, ◌⊎◌, inl, inr, true, false, not, ◌&&◌, List, [], ◌∷◌, ◌++◌, ltb, arith,
  nat_eq, nat_eq_iff, nat_Eq, contains, Bool-cases, IsOneOf, All, All-append, All-imply, All-intro,
}
use skyeye.Coalitions.{Coalition}
use skyeye.Brevity.{Category, category_eq, fixed_wing, rotary_wing}
use skyeye.Trackfiles.{Trackfile}
use skyeye.Radar.Database.{Database}
use skyeye.Radar.Grouping.{
  Sensors, Group, object_ids, category, is_valid_track, find_group_for_aircraft,
}
use skyeye.Radar.Nearby.{Globe, Sort, point, find_nearby_groups}
use skyeye.Radar.Nearby.Cover.{IsAround, find_nearby_groups-IsAround}
use skyeye.Radar.Threats.{
  Threat, group_threat_radius, enumerate_from, enumerate_groups, is_within_threat_radius,
  is_helo_versus_plane, threatened_ids, threat_area, threat_unless_empty, threats_of, threats,
}

module _ (sensors : Sensors) (globe : Globe) (sort : Sort) (mandatory : ℕ) (coalition : Coalition)
    (d : Database) (values : List Trackfile) where
  -- The group of a valid contact of the coalition.
  pub record IsHostile (g : Group) : Type 0 where
    pub lead : Trackfile
    pub listed : IsOneOf lead values
    pub hostile : lead.contact.coalition ≡ coalition
    pub valid : is_valid_track sensors lead ≡ true
    pub grouped : g ≡ find_group_for_aircraft sensors values lead

  -- A friendly group near the hostile one, within its threat radius or the mandatory one, and no
  -- planes where the hostile group is one of helicopters.
  pub record IsThreatened (g friendly : Group) : Type 0 where
    pub near :
        IsAround sensors globe
          (threat_area sensors globe sort mandatory coalition g)
          values
          values
          friendly
    pub within :
        (sensors.distance (point sensors globe g) (point sensors globe friendly)
          < group_threat_radius sensors g)
        ⊎ (sensors.distance (point sensors globe g) (point sensors globe friendly) < mandatory)
    pub fair : (category sensors g ≢ rotary_wing) ⊎ (category sensors friendly ≢ fixed_wing)

  pub record IsThreatenedId (g : Group) (id : ℕ) : Type 0 where
    pub friendly : Group
    pub member : contains (object_ids friendly) id ≡ true
    pub threatened : IsThreatened g friendly

  pub record IsThreat (t : Threat) : Type 0 where
    pub hostile : IsHostile t.hostile
    pub some_id : t.ids ≢ []
    pub each : All (IsThreatenedId t.hostile) t.ids

  abbrev enumerated : List Trackfile → List ℕ → List Group
  enumerated ts visited = enumerate_from sensors coalition values ts visited

  enumerate_from-IsHostile :
      (ts : List Trackfile) (visited : List ℕ)
      → ((t : Trackfile) → IsOneOf t ts → IsOneOf t values)
      → All IsHostile (enumerated ts visited)
  unfolding enumerate_from IsOneOf
  enumerate_from-IsHostile [] visited sub = tt
  enumerate_from-IsHostile (t ∷ ts) visited sub =
      let later = λ (u : Trackfile) (listed : IsOneOf u ts). sub u (inr listed) in
      let g = find_group_for_aircraft sensors values t in
      elim (Bool-cases (contains visited t.contact.id)) [
        | inl seen ↦ rw seen (enumerate_from-IsHostile ts visited later)
        | inr unseen ↦ elim (Bool-cases (nat_eq t.contact.coalition coalition)) [
          | inr other ↦
              rw (unseen, other) (enumerate_from-IsHostile ts (t.contact.id ∷ visited) later)
          | inl same ↦ elim (Bool-cases (is_valid_track sensors t)) [
            | inr invalid ↦
                rw (unseen, same, invalid)
                  (enumerate_from-IsHostile ts (t.contact.id ∷ visited) later)
            | inl valid ↦
                rw (unseen, same, valid)
                  (
                    record {
                      lead = t;
                      listed = sub t (inl refl);
                      hostile = (nat_eq_iff t.contact.coalition coalition).0 same;
                      valid = valid;
                      grouped = refl;
                    },
                    enumerate_from-IsHostile ts (object_ids g ++ t.contact.id ∷ visited) later,
                  )
          ]
        ]
      ]

  category_eq-ne : (c k : Category) → category_eq c k ≡ false → c ≢ k
  unfolding category_eq
  category_eq-ne c k h = λ e. ground arith

  IsThreatened-intro :
      (g friendly : Group)
      → IsAround sensors globe
          (threat_area sensors globe sort mandatory coalition g)
          values
          values
          friendly
      → is_within_threat_radius sensors globe sort mandatory g friendly ≡ true
      → is_helo_versus_plane sensors globe sort mandatory g friendly ≡ false
      → IsThreatened g friendly
  unfolding is_within_threat_radius is_helo_versus_plane
  IsThreatened-intro g friendly near within fair =
      let d = sensors.distance (point sensors globe g) (point sensors globe friendly) in
      record {
        near = near;
        within = elim (Bool-cases (ltb d (group_threat_radius sensors g))) [
          | inl inside ↦ inl (ground arith)
          | inr outside ↦ inr (ground arith)
        ];
        fair = elim (Bool-cases (category_eq (category sensors g) rotary_wing)) [
          | inl helo ↦ inr (category_eq-ne (category sensors friendly) fixed_wing (ground arith))
          | inr plane ↦ inl (category_eq-ne (category sensors g) rotary_wing plane)
        ];
      }

  all_contained :
      (ids others : List ℕ)
      → ((id : ℕ) → contains ids id ≡ true → contains others id ≡ true)
      → All (λ id. contains others id ≡ true) ids
  unfolding contains
  all_contained [] others sub = tt
  all_contained (id ∷ ids) others sub = (
    sub id (rw ((nat_eq_iff id id).1 refl) refl),
    all_contained ids others (λ other h. sub other (ground arith)),
  )

  threatened_ids-All :
      (g : Group) (friendlies : List Group)
      → All
          (IsAround sensors globe
            (threat_area sensors globe sort mandatory coalition g)
            values
            values)
          friendlies
      → All (IsThreatenedId g) (threatened_ids sensors globe sort mandatory g friendlies)
  unfolding threatened_ids
  threatened_ids-All g [] v = tt
  threatened_ids-All g (f ∷ fs) v =
      elim (Bool-cases (
        is_within_threat_radius sensors globe sort mandatory g f
        && not (is_helo_versus_plane sensors globe sort mandatory g f))) [
          | inr no_threat ↦ rw no_threat (threatened_ids-All g fs v.1)
          | inl threat ↦
              let threatened = IsThreatened-intro g f v.0 (ground arith) (ground arith) in
              rw threat (
                All-append (IsThreatenedId g) (object_ids f)
                  (threatened_ids sensors globe sort mandatory g fs)
                  (All-imply (λ id. contains (object_ids f) id ≡ true) (IsThreatenedId g)
                    (λ id member. record { friendly = f; member = member; threatened = threatened })
                    (object_ids f) (all_contained (object_ids f) (object_ids f) (λ id h. h)))
                  (threatened_ids-All g fs v.1))
        ]

  threat_unless_empty-All :
      (g : Group) (ids : List ℕ) (rest : List Threat)
      → IsHostile g
      → All (IsThreatenedId g) ids
      → All IsThreat rest
      → All IsThreat (threat_unless_empty sensors globe sort mandatory d g ids rest)
  threat_unless_empty-All g [] rest h each v = v
  threat_unless_empty-All g (id ∷ ids) rest h each v =
      (record { hostile = h; some_id = λ e. ground arith; each = each }, v)

  threats_of-IsThreat :
      (gs : List Group)
      → All IsHostile gs
      → All IsThreat (threats_of sensors globe sort mandatory coalition d values gs)
  unfolding threats_of
  threats_of-IsThreat [] v = tt
  threats_of-IsThreat (g ∷ gs) v =
      let area = threat_area sensors globe sort mandatory coalition g in
      let friendlies = find_nearby_groups sensors globe sort area values in
      threat_unless_empty-All g (threatened_ids sensors globe sort mandatory g friendlies)
        (threats_of sensors globe sort mandatory coalition d values gs) v.0
        (threatened_ids-All g friendlies (
          All-intro (IsAround sensors globe area values values) friendlies
            (find_nearby_groups-IsAround sensors globe area sort values)))
        (threats_of-IsThreat gs v.1)

  -- Every group that Threats reports is the group of a valid contact of the coalition, with at least
  -- one ID; and each ID is a member's of a group of the opposite coalition that is near the hostile
  -- group, within its threat radius or the mandatory one, and not of planes where the hostile group
  -- is one of helicopters.
  pub threats-IsThreat : All IsThreat (threats sensors globe sort mandatory coalition d values)
  unfolding threats enumerate_groups
  threats-IsThreat =
      threats_of-IsThreat (enumerated values [])
        (enumerate_from-IsHostile values [] (λ t listed. listed))
