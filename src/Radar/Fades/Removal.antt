-- ===== src/Radar/Fades/Removal.antt =====
-- What handleFaded removes, and whom it reports.
use skyeye.Common.{
  ℕ, ◌≡◌, refl, ap, ◌∙◌, ◌⊎◌, inl, inr, true, ◌||◌, List, [], ◌∷◌, ◌++◌, Option, none, some, arith,
  nat_eq_iff, if◌then◌else◌, ◌==◌, nat_Eq, Bool-cases, map, contains,
}
use skyeye.Trackfiles.{Trackfile}
use skyeye.Radar.Database.{Database, get_by_id, delete_contact}
use skyeye.Radar.Database.Lookup.{get_by_id-delete_contact}
use skyeye.Radar.Grouping.{Sensors, Group}
use skyeye.Radar.Grouping.Closure.{first-find_group_for_aircraft}
use skyeye.Radar.Scope.{Scope}
use skyeye.Radar.Fades.{
  FadedCall, faded_call, is_trackfile_in_group, is_grouped, group_of, join_groups, collect_groups,
  delete_all, handle_faded, trackfile_of,
}

pub get_by_id-delete_all :
    (ids : List ℕ) (d : Database) (j : ℕ)
    → get_by_id j (delete_all ids d) ≡ (if contains ids j then none else get_by_id j d)
unfolding delete_all contains
get_by_id-delete_all [] d j = refl
get_by_id-delete_all (id ∷ ids) d j =
    get_by_id-delete_all ids (delete_contact id d).0 j
    ∙ ground (arith, get_by_id-delete_contact id j d)

-- Someone reports a contact.
abbrev pub IsReported : Trackfile → List FadedCall → Type 0
IsReported t [] = ⊥
IsReported t (c ∷ cs) = (is_trackfile_in_group t c.group ≡ true) ⊎ IsReported t cs

grouped-append :
    (t : Trackfile) (gs hs : List Group)
    → is_grouped t (gs ++ hs) ≡ (is_grouped t gs || is_grouped t hs)
unfolding is_grouped
grouped-append t [] hs = refl
grouped-append t (g ∷ gs) hs = ground (arith, grouped-append t gs hs)

is_grouped-IsReported :
    (t : Trackfile) (gs : List Group) → is_grouped t gs ≡ true → IsReported t (map faded_call gs)
unfolding is_grouped
is_grouped-IsReported t [] h = absurd (ground arith)
is_grouped-IsReported t (g ∷ gs) h = elim (Bool-cases (is_trackfile_in_group t g)) [
  | inl e ↦ inl e
  | inr e ↦ inr (is_grouped-IsReported t gs (rw e at h))
]

module _ (sensors : Sensors) where
  -- A contact in the group that it begins.
  own_group : (d : Database) (t : Trackfile) → is_trackfile_in_group t (group_of sensors d t) ≡ true
  unfolding is_trackfile_in_group
  own_group d t = ground (
    arith,
    nat_eq_iff t.contact.id t.contact.id,
    ap (λ (x : Trackfile). x.contact.id)
        (first-find_group_for_aircraft sensors (map trackfile_of d.contacts) t),
  )

  join_keeps :
      (d : Database) (found : Option Trackfile) (gs : List Group) (t : Trackfile)
      → is_grouped t gs ≡ true
      → is_grouped t (join_groups sensors d found gs) ≡ true
  unfolding join_groups
  join_keeps d none gs t h = h
  join_keeps d (some u) gs t h = ground (arith, grouped-append t gs (group_of sensors d u ∷ []))

  collect_keeps :
      (d : Database) (ids : List ℕ) (gs : List Group) (t : Trackfile)
      → is_grouped t gs ≡ true
      → is_grouped t (collect_groups sensors d ids gs) ≡ true
  unfolding collect_groups
  collect_keeps d [] gs t h = h
  collect_keeps d (id ∷ ids) gs t h =
      collect_keeps d ids (join_groups sensors d (get_by_id id d) gs) t
        (join_keeps d (get_by_id id d) gs t h)

  join_self :
      (d : Database) (gs : List Group) (t : Trackfile)
      → is_grouped t (join_groups sensors d (some t) gs) ≡ true
  unfolding is_grouped join_groups
  join_self d gs t = ground (arith, own_group d t, grouped-append t gs (group_of sensors d t ∷ []))

  collect_all :
      (d : Database) (ids : List ℕ) (gs : List Group) (id : ℕ) (t : Trackfile)
      → get_by_id id d ≡ some t
      → contains ids id ≡ true
      → is_grouped t (collect_groups sensors d ids gs) ≡ true
  unfolding collect_groups contains
  collect_all d [] gs id t e h = absurd (ground arith)
  collect_all d (j ∷ ids) gs id t e h = elim (Bool-cases (j == id)) [
    | inl same ↦
        let q : get_by_id j d ≡ some t = ap (λ i. get_by_id i d) ((nat_eq_iff j id).0 same) ∙ e in
        rw q (collect_keeps d ids (join_groups sensors d (some t) gs) t (join_self d gs t))
    | inr other ↦
        collect_all d ids (join_groups sensors d (get_by_id j d) gs) id t e (rw other at h)
  ]

  -- handleFaded removes the faded contacts and no other from the database, and the callback
  -- reports a group with every faded contact that the database held.
  pub handle_faded_removal :
      (fades : List ℕ) (s : Scope) (id : ℕ)
      → (get_by_id id (handle_faded sensors fades s).0.contacts
          ≡ (if contains fades id then none else get_by_id id s.contacts))
        × ((t : Trackfile)
            → get_by_id id s.contacts ≡ some t
            → contains fades id ≡ true
            → IsReported t (handle_faded sensors fades s).1)
  unfolding handle_faded
  handle_faded_removal fades s id = (
    get_by_id-delete_all fades s.contacts id,
    λ t e h.
        is_grouped-IsReported t (collect_groups sensors s.contacts fades [])
          (collect_all s.contacts fades [] id t e h),
  )
