-- ===== src/Radar/Nearby/Cover.antt =====
-- pkg/radar/nearby.go: the groups that findNearbyGroups finds are those of the contacts in the area.
use skyeye.Common.{
  ℕ, ◌≡◌, refl, ap, ◌⊎◌, inl, inr, true, false, List, [], ◌∷◌, ◌++◌, arith, nat_eq_iff, nat_Eq,
  contains, contains-append, Bool-cases, IsOneOf,
}
use skyeye.Trackfiles.{Trackfile}
use skyeye.Radar.Grouping.{Sensors, Group, object_ids, id_of, find_group_for_aircraft}
use skyeye.Radar.Grouping.Closure.{first-find_group_for_aircraft}
use skyeye.Radar.Nearby.{Globe, Sort, Area, is_in_area, nearby_from, find_nearby_groups}

module _ (sensors : Sensors) where
  pub own_id-find_group_for_aircraft :
      (values : List Trackfile) (t : Trackfile)
      → contains (object_ids (find_group_for_aircraft sensors values t)) t.contact.id ≡ true
  unfolding object_ids contains
  own_id-find_group_for_aircraft values t =
      rw (ap id_of (first-find_group_for_aircraft sensors values t))
        (rw ((nat_eq_iff t.contact.id t.contact.id).1 refl) refl)

module _ (sensors : Sensors) (globe : Globe) (area : Area) where
  -- The group of a contact of the database that is in the area and not excluded.
  pub record IsAround (values ts : List Trackfile) (g : Group) : Type 0 where
    pub lead : Trackfile
    pub listed : IsOneOf lead ts
    pub allowed : contains area.excluded_ids lead.contact.id ≡ false
    pub here : is_in_area sensors globe area lead ≡ true
    pub grouped : g ≡ find_group_for_aircraft sensors values lead

  abbrev from : List Trackfile → List Trackfile → List ℕ → List Group
  from values ts visited = nearby_from sensors globe area values ts visited

  weaken :
      (values ts : List Trackfile) (t : Trackfile) (g : Group)
      → IsAround values ts g
      → IsAround values (t ∷ ts) g
  unfolding IsOneOf
  weaken values ts t g v = record {
    lead = v.lead;
    listed = inr v.listed;
    allowed = v.allowed;
    here = v.here;
    grouped = v.grouped;
  }

  -- What a turn of the loop does with a contact.
  data Turn (values ts : List Trackfile) (t : Trackfile) (visited : List ℕ) : Type 0 where
    taken :
        contains area.excluded_ids t.contact.id ≡ false
        → is_in_area sensors globe area t ≡ true
        → from values (t ∷ ts) visited
          ≡ find_group_for_aircraft sensors values t
            ∷ from values ts (object_ids (find_group_for_aircraft sensors values t) ++ visited)
        → Turn values ts t visited
    skipped :
        (contains area.excluded_ids t.contact.id ≡ true)
          ⊎ (contains visited t.contact.id ≡ true)
          ⊎ (is_in_area sensors globe area t ≡ false)
        → from values (t ∷ ts) visited ≡ from values ts visited
        → Turn values ts t visited

  turn : (values ts : List Trackfile) (t : Trackfile) (visited : List ℕ) → Turn values ts t visited
  unfolding nearby_from
  turn values ts t visited = elim (Bool-cases (contains area.excluded_ids t.contact.id)) [
    | inl excluded ↦ skipped (inl excluded) (rw excluded refl)
    | inr allowed ↦ elim (Bool-cases (contains visited t.contact.id)) [
      | inl seen ↦ skipped (inr (inl seen)) (rw (allowed, seen) refl)
      | inr unseen ↦ elim (Bool-cases (is_in_area sensors globe area t)) [
        | inl here ↦ taken allowed here (rw (allowed, unseen, here) refl)
        | inr away ↦ skipped (inr (inr away)) (rw (allowed, unseen, away) refl)
      ]
    ]
  ]

  from_nil : (values : List Trackfile) (visited : List ℕ) → from values [] visited ≡ []
  unfolding nearby_from
  from_nil values visited = refl

  nearby_from-IsAround :
      (values ts : List Trackfile) (visited : List ℕ) (g : Group)
      → IsOneOf g (from values ts visited)
      → IsAround values ts g
  unfolding IsOneOf
  nearby_from-IsAround values [] visited g listed = absurd (rw (from_nil values visited) at listed)
  nearby_from-IsAround values (t ∷ ts) visited g listed = elim (turn values ts t visited) [
    | skipped _ e ↦ weaken values ts t g (nearby_from-IsAround values ts visited g (rw e at listed))
    | taken allowed here e ↦
        let next = find_group_for_aircraft sensors values t in
        let either : IsOneOf g (next ∷ from values ts (object_ids next ++ visited)) =
          rw e at listed in
        elim either [
          | inl same ↦ record {
            lead = t;
            listed = inl refl;
            allowed = allowed;
            here = here;
            grouped = same;
          }
          | inr later ↦
              weaken values ts t g
                (nearby_from-IsAround values ts (object_ids next ++ visited) g later)
        ]
  ]

  -- A group of the list has the contact's ID.
  abbrev pub IsCovered : Trackfile → List Group → Type 0
  IsCovered t gs = (g : Group) × IsOneOf g gs × (contains (object_ids g) t.contact.id ≡ true)

  cover_first :
      (values ts : List Trackfile) (t : Trackfile) (visited : List ℕ)
      → contains area.excluded_ids t.contact.id ≡ false
      → is_in_area sensors globe area t ≡ true
      → (contains visited t.contact.id ≡ true) ⊎ IsCovered t (from values (t ∷ ts) visited)
  cover_first values ts t visited allowed here = elim (turn values ts t visited) [
    | skipped (inl excluded) e ↦ absurd (ground arith)
    | skipped (inr (inl seen)) e ↦ inl seen
    | skipped (inr (inr away)) e ↦ absurd (ground arith)
    | taken _ _ e ↦
        let next = find_group_for_aircraft sensors values t in
        inr
          (next, rw e (unfold IsOneOf in inl refl), own_id-find_group_for_aircraft sensors values t)
  ]

  cover_later :
      (values ts : List Trackfile) (u t : Trackfile) (visited : List ℕ)
      → ((seen : List ℕ) → (contains seen t.contact.id ≡ true) ⊎ IsCovered t (from values ts seen))
      → (contains visited t.contact.id ≡ true) ⊎ IsCovered t (from values (u ∷ ts) visited)
  cover_later values ts u t visited ih = elim (turn values ts u visited) [
    | skipped _ e ↦ rw e (ih visited)
    | taken _ _ e ↦
        let ids = object_ids (find_group_for_aircraft sensors values u) in
        elim (ih (ids ++ visited)) [
          | inl seen ↦ elim (Bool-cases (contains ids t.contact.id)) [
            | inl grouped ↦ inr (
              find_group_for_aircraft sensors values u,
              rw e (unfold IsOneOf in inl refl),
              grouped,
            )
            | inr other ↦ inl (ground (arith, contains-append ids visited t.contact.id))
          ]
          | inr (g, listed, grouped) ↦ inr (g, rw e (unfold IsOneOf in inr listed), grouped)
        ]
  ]

  nearby_from-IsCovered :
      (values ts : List Trackfile) (visited : List ℕ) (t : Trackfile)
      → IsOneOf t ts
      → contains area.excluded_ids t.contact.id ≡ false
      → is_in_area sensors globe area t ≡ true
      → (contains visited t.contact.id ≡ true) ⊎ IsCovered t (from values ts visited)
  unfolding IsOneOf
  nearby_from-IsCovered values [] visited t listed allowed here = elim listed [ ]
  nearby_from-IsCovered values (u ∷ ts) visited t (inl same) allowed here =
      rw (← same) (cover_first values ts t visited allowed here)
  nearby_from-IsCovered values (u ∷ ts) visited t (inr later) allowed here =
      cover_later values ts u t visited
        (λ seen. nearby_from-IsCovered values ts seen t later allowed here)

  -- Every group that findNearbyGroups returns is the group of a contact that matches, is in the bound
  -- and the layer, and is not excluded.
  pub find_nearby_groups-IsAround :
      (sort : Sort) (values : List Trackfile) (g : Group)
      → IsOneOf g (find_nearby_groups sensors globe sort area values)
      → IsAround values values g
  unfolding find_nearby_groups
  find_nearby_groups-IsAround sort values g listed =
      nearby_from-IsAround values values [] g
        ((sort.sort_func-IsOneOf _ (from values values []) g).0 listed)

  -- Every contact of the database that matches, is in the bound and the layer, and is not excluded
  -- has its ID in a group that findNearbyGroups returns.
  pub find_nearby_groups-IsCovered :
      (sort : Sort) (values : List Trackfile) (t : Trackfile)
      → IsOneOf t values
      → contains area.excluded_ids t.contact.id ≡ false
      → is_in_area sensors globe area t ≡ true
      → IsCovered t (find_nearby_groups sensors globe sort area values)
  unfolding find_nearby_groups contains
  find_nearby_groups-IsCovered sort values t listed allowed here =
      elim (nearby_from-IsCovered values values [] t listed allowed here) [
        | inl seen ↦ absurd (ground arith)
        | inr (g, found, grouped) ↦
            (g, (sort.sort_func-IsOneOf _ (from values values []) g).1 found, grouped)
      ]
