-- ===== src/Radar/Merging/Reports.antt =====
-- Whom the radar reports as merged.
use skyeye.Common.{
  ℕ, ◌≡◌, ◌≢◌, ◌<◌, ◌*◌, ◌⊎◌, inl, inr, true, false, not, ◌&&◌, List, [], ◌∷◌, ◌++◌, arith, nat_eq,
  nat_eq_iff, nat_Eq, Bool-cases, insert, All,
}
use skyeye.Coalitions.{Coalition, opposite}
use skyeye.Trackfiles.{Trackfile, last_known, is_last_known_point_zero}
use skyeye.Radar.Grouping.{Sensors, Group, contacts, object_ids, find_group_for_aircraft}
use skyeye.Radar.Grouping.Closure.{IsGroupOf, find_group_for_aircraft_closure}
use skyeye.Radar.Merging.{
  Report, values_of, is_merged_with, merges_for_contact, merges_for_group, is_candidate,
  report_unless_empty, merges_from, merges,
}

module _ (sensors : Sensors) where
  -- Two contacts of different coalitions, both with a position, less than five miles apart.
  pub record IsMergedPair (t other : Trackfile) : Type 0 where
    pub opposed : t.contact.coalition ≢ other.contact.coalition
    pub here : is_last_known_point_zero t ≡ false
    pub there : is_last_known_point_zero other ≡ false
    pub close :
        sensors.distance (last_known t).point (last_known other).point < 5 * sensors.nautical_mile

  is_merged_with-IsMergedPair :
      (t other : Trackfile)
      → is_last_known_point_zero t ≡ false
      → is_merged_with sensors t other ≡ true
      → IsMergedPair t other
  unfolding is_merged_with
  is_merged_with-IsMergedPair t other here h = record {
    opposed = λ e. ground (arith, nat_eq_iff t.contact.coalition other.contact.coalition);
    here = here;
    there = ground arith;
    close = ground arith;
  }

  -- Someone of the list is merged with the contact.
  abbrev pub IsMergedWith : List Trackfile → Trackfile → Type 0
  IsMergedWith [] other = ⊥
  IsMergedWith (t ∷ ts) other = IsMergedPair t other ⊎ IsMergedWith ts other

  insert-All :
      (P : ℕ × Trackfile → Type 0) (id : ℕ) (t : Trackfile) (m : List (ℕ × Trackfile))
      → P (id, t)
      → All P m
      → All P (insert id t m)
  unfolding insert
  insert-All P id t [] p h = (p, tt)
  insert-All P id t ((k, v) ∷ m) p h = elim (Bool-cases (nat_eq k id)) [
    | inl same ↦ rw same (p, h.1)
    | inr other ↦ rw other (h.0, insert-All P id t m p h.1)
  ]

  merges_for_contact-All :
      (P : ℕ × Trackfile → Type 0) (t : Trackfile) (values : List Trackfile)
      (m : List (ℕ × Trackfile))
      → ((o : Trackfile)
          → is_last_known_point_zero t ≡ false
          → is_merged_with sensors t o ≡ true
          → P (o.contact.id, o))
      → All P m
      → All P (merges_for_contact sensors t values m)
  unfolding merges_for_contact
  merges_for_contact-All P t [] m near h = h
  merges_for_contact-All P t (o ∷ os) m near h =
      elim (Bool-cases (not (is_last_known_point_zero t) && is_merged_with sensors t o)) [
        | inl holds ↦ rw holds (
            merges_for_contact-All P t os (insert o.contact.id o m) near
              (insert-All P o.contact.id o m (near o (ground arith) (ground arith)) h))
        | inr fails ↦ rw fails (merges_for_contact-All P t os m near h)
      ]

  merges_for_group-All :
      (P : ℕ × Trackfile → Type 0) (values ts : List Trackfile) (m : List (ℕ × Trackfile))
      → ((o : Trackfile) → IsMergedWith ts o → P (o.contact.id, o))
      → All P m
      → All P (merges_for_group sensors values ts m)
  unfolding merges_for_group
  merges_for_group-All P values [] m near h = h
  merges_for_group-All P values (t ∷ ts) m near h =
      merges_for_group-All P values ts (merges_for_contact sensors t values m)
        (λ o w. near o (inr w))
        (merges_for_contact-All P t values m
          (λ o z w. near o (inl (is_merged_with-IsMergedPair t o z w))) h)

  values-All :
      (Q : Trackfile → Type 0) (m : List (ℕ × Trackfile))
      → All (λ (x : ℕ × Trackfile). Q x.1) m
      → All Q (values_of m)
  unfolding values_of
  values-All Q [] h = tt
  values-All Q ((id, t) ∷ m) h = (h.0, values-All Q m h.1)

  -- A report is of the group of a contact of the other coalition that has a position, and of
  -- contacts of another coalition than a member of the group, with a position within five miles of
  -- that member's.
  pub record IsReport (coalition : Coalition) (values : List Trackfile) (r : Report) : Type 0 where
    pub leader : Trackfile
    pub hostile : leader.contact.coalition ≡ opposite coalition
    pub group : IsGroupOf sensors values leader r.0
    pub merged : All (IsMergedWith (contacts r.0)) r.1

  report-All :
      (P : Report → Type 0) (g : Group) (ts : List Trackfile) (reports : List Report)
      → P (g, ts)
      → All P reports
      → All P (report_unless_empty sensors g ts reports)
  report-All P g [] reports p h = h
  report-All P g (t ∷ ts) reports p h = (p, h)

  candidate :
      (coalition : Coalition) (visited : List ℕ) (t : Trackfile)
      → is_candidate sensors coalition visited t ≡ true
      → (t.contact.coalition ≡ opposite coalition) × (is_last_known_point_zero t ≡ false)
  unfolding is_candidate
  candidate coalition visited t holds =
      (ground (arith, nat_eq_iff t.contact.coalition (opposite coalition)), ground arith)

  merges_from-IsReport :
      (coalition : Coalition) (values ts : List Trackfile) (visited : List ℕ)
      → All (IsReport coalition values) (merges_from sensors coalition values ts visited)
  unfolding merges_from
  merges_from-IsReport coalition values [] visited = tt
  merges_from-IsReport coalition values (t ∷ ts) visited =
      let g = find_group_for_aircraft sensors values t in
      elim (Bool-cases (is_candidate sensors coalition visited t)) [
        | inr fails ↦ rw fails (merges_from-IsReport coalition values ts visited)
        | inl holds ↦
            let (own, located) = candidate coalition visited t holds in
            rw holds (
              report-All (IsReport coalition values) g _ _
                (record {
                  leader = t;
                  hostile = own;
                  group = find_group_for_aircraft_closure sensors values t located;
                  merged =
                      values-All (IsMergedWith (contacts g))
                        (merges_for_group sensors values (contacts g) [])
                        (merges_for_group-All (λ (x : ℕ × Trackfile). IsMergedWith (contacts g) x.1)
                          values (contacts g) [] (λ o w. w) tt);
                })
                (merges_from-IsReport coalition values ts (object_ids g ++ visited)))
      ]

  -- Every group that Merges reports is the group of a contact of the opposite coalition, and every
  -- contact reported with it is of another coalition than some member of the group, has a position,
  -- and is within five miles of that member.
  pub merges-IsReport :
      (coalition : Coalition) (values : List Trackfile)
      → All (IsReport coalition values) (merges sensors coalition values)
  unfolding merges
  merges-IsReport coalition values = merges_from-IsReport coalition values values []
