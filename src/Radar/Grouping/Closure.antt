-- ===== src/Radar/Grouping/Closure.antt =====
-- The group of a contact: who is in it, who must be, and that the fuel is enough.
use mathlib.Core.List.{append-nil}
use mathlib.Core.Path.{subst}
use skyeye.Common.{
  ℕ, zero, suc, ◌≤◌, ◌<◌, ◌≡◌, refl, sym, ap, inl, inr, false, List, [], ◌∷◌, arith, nat_Eq,
  Bool-cases, length, contains, All,
}
use skyeye.Trackfiles.{Trackfile, is_last_known_point_zero}
use skyeye.Radar.Grouping.{
  Group, Sensors, contacts, object_ids, append_contact, category, is_neighbour, add_loop,
  add_nearby_aircraft, find_group_for_aircraft,
}
use skyeye.Radar.Grouping.Members.{
  missing, missing_mono, missing_le_length, HasId, missing_append, IsIn, IsIn-append, IsIn-last,
}
use skyeye.Radar.Grouping.Growth.{IsLinked, IsClosed, Grown, Grown-skip, Grown-join}

module _ (sensors : Sensors) where
  -- The recursive call does its work for every group that misses at most as many contacts.
  abbrev Grows : List Trackfile → ℕ → (Trackfile → Group → Group) → Type 0
  Grows values fuel rec =
      (o : Trackfile) (g : Group)
      → IsIn o (contacts g)
      → missing values (object_ids g) < fuel
      → Grown sensors values values o g (rec o g)

  add_loop-Grown :
      (values os : List Trackfile) (fuel : ℕ) (rec : Trackfile → Group → Group) (this : Trackfile)
      (g : Group)
      → Grows values fuel rec
      → All (λ o. HasId o.contact.id values) os
      → IsIn this (contacts g)
      → missing values (object_ids g) ≤ fuel
      → Grown sensors values os this g (add_loop sensors rec this os g)
  unfolding add_loop
  add_loop-Grown values [] fuel rec this g ih known here m = record {
    new = [];
    grows = ap (λ r. record g { rest = r }) (sym (append-nil g.rest));
    closed_this = tt;
    closed_new = tt;
    linked_new = tt;
  }
  add_loop-Grown values (o ∷ os) fuel rec this g ih known here m =
      elim (Bool-cases (contains (object_ids g) o.contact.id)) [
        | inl old ↦ rw old (
            Grown-skip sensors values os this o g _ (inl old)
              (add_loop-Grown values os fuel rec this g ih known.1 here m))
        | inr new ↦ elim (Bool-cases (is_neighbour sensors (category sensors g) this o)) [
          | inr apart ↦
              rw (new, apart)
                (Grown-skip sensors values os this o g _ (inr apart)
                  (add_loop-Grown values os fuel rec this g ih known.1 here m))
          | inl near ↦
              let g1 = append_contact o g in
              let fewer = missing_append values o g known.0 new in
              let w1 = ih o g1 (inr (IsIn-last o g.rest)) (omega (arith, fewer)) in
              let here1 : IsIn this (contacts (rec o g1)) =
                subst (λ x. IsIn this (contacts x)) (sym w1.grows)
                  (IsIn-append this (contacts g1) w1.new
                    (IsIn-append this (contacts g) (o ∷ []) here)) in
              let m1 : missing values (object_ids (rec o g1)) ≤ fuel =
                subst (λ x. missing values (object_ids x) ≤ fuel) (sym w1.grows)
                  (omega (arith, missing_mono values g1 w1.new, fewer)) in
              rw (new, near)
                (Grown-join sensors values os this o g (rec o g1) _ here near w1
                  (add_loop-Grown values os fuel rec this (rec o g1) ih known.1 here1 m1))
        ]
      ]

  All-known :
      (ts values : List Trackfile)
      → All (λ o. HasId o.contact.id values) ts
      → (v : Trackfile) → All (λ o. HasId o.contact.id (v ∷ values)) ts
  All-known [] values h v = tt
  All-known (t ∷ ts) values h v = (inr h.0, All-known ts values h.1 v)

  known_self : (values : List Trackfile) → All (λ o. HasId o.contact.id values) values
  known_self [] = tt
  known_self (v ∷ vs) = (inl refl, All-known vs vs (known_self vs) v)

  add_nearby_aircraft-Grown :
      (fuel : ℕ) (values : List Trackfile)
      → Grows values fuel (add_nearby_aircraft sensors fuel values)
  unfolding add_nearby_aircraft
  add_nearby_aircraft-Grown zero values this g here m = elim m [ ]
  add_nearby_aircraft-Grown (suc fuel) values this g here m =
      add_loop-Grown values values fuel (add_nearby_aircraft sensors fuel values) this g
        (add_nearby_aircraft-Grown fuel values) (known_self values) here (omega arith)

  abbrev pub IsGroupOf : List Trackfile → Trackfile → Group → Type 0
  IsGroupOf values t g =
      (g.first ≡ t)
      × All (IsLinked sensors (category sensors g) (contacts g)) g.rest
      × All (IsClosed sensors values g) (contacts g)

  Grown-IsGroupOf :
      (values : List Trackfile) (t : Trackfile) (r : Group)
      → Grown sensors values values t (record { first = t; rest = [] }) r
      → IsGroupOf values t r
  Grown-IsGroupOf values t r w = (
    ap (λ (x : Group). x.first) w.grows,
    subst (All (IsLinked sensors (category sensors r) (contacts r)))
        (sym (ap (λ (x : Group). x.rest) w.grows)) w.linked_new,
    subst (All (IsClosed sensors values r)) (sym (ap contacts w.grows)) (
      subst (IsClosed sensors values r) (sym (ap (λ (x : Group). t) w.grows)) w.closed_this,
      w.closed_new,
    ),
  )

  find_group_located :
      (values : List Trackfile) (t : Trackfile)
      → is_last_known_point_zero t ≡ false
      → find_group_for_aircraft sensors values t
        ≡ add_nearby_aircraft sensors
            (suc (length values))
            values
            t
            (record { first = t; rest = [] })
  unfolding find_group_for_aircraft
  find_group_located values t located = rw located refl

  -- Located or not, a contact comes first in its group.
  pub first-find_group_for_aircraft :
      (values : List Trackfile) (t : Trackfile)
      → (find_group_for_aircraft sensors values t).first ≡ t
  unfolding find_group_for_aircraft
  first-find_group_for_aircraft values t = elim (Bool-cases (is_last_known_point_zero t)) [
    | inl nowhere ↦ rw nowhere refl
    | inr located ↦
        let g : Group = record { first = t; rest = [] } in
        rw located (
          ap (λ (x : Group). x.first)
            (add_nearby_aircraft-Grown (suc (length values)) values t g (inl refl)
              (omega (arith, missing_le_length values (object_ids g)))).grows)
  ]

  -- The group of a contact that has a position begins with that contact. Every other member has a
  -- member for which it is a neighbour (of its coalition and category, valid, with a tag in
  -- common, and within the spread), and every contact of the database that is a neighbour of any
  -- member has its ID in the group: the recursion stops only when nothing is left to add.
  pub find_group_for_aircraft_closure :
      (values : List Trackfile) (t : Trackfile)
      → is_last_known_point_zero t ≡ false
      → IsGroupOf values t (find_group_for_aircraft sensors values t)
  find_group_for_aircraft_closure values t located =
      let g : Group = record { first = t; rest = [] } in
      subst (IsGroupOf values t) (sym (find_group_located values t located)) (
        Grown-IsGroupOf values t _ (
          add_nearby_aircraft-Grown (suc (length values)) values t g (inl refl)
            (omega (arith, missing_le_length values (object_ids g)))))
