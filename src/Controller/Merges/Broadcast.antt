-- ===== src/Controller/Merges/Broadcast.antt =====
-- What a turn of broadcastMerges leaves in the merge tracker.
use skyeye.Common.{
  ℕ, ◌≡◌, refl, ap, ◌∙◌, inl, inr, Bool, true, false, not, ◌&&◌, ◌||◌, List, [], ◌∷◌, Option, none,
  some, arith, nat_eq, nat_eq_iff, if◌then◌else◌, nat_Eq, Bool-cases, map, contains,
  contains-append, lookup,
}
use skyeye.Trackfiles.{Trackfile, is_last_known_point_zero}
use skyeye.Radar.Grouping.{id_of}
use skyeye.Controller.Radar.{Units, Audience}
use skyeye.Controller.Merges.{
  Merged, Merges, is_merged, friendlies_merged_with, separate, keep, update_merges_for_contact,
  update_friendlies, separate_others, update_found, update_hostile, update_merges_for_group,
  hostile_ids, broadcast_groups, broadcast_merges, or_empty, entered_merge, exited_merge,
}
use skyeye.Controller.Merges.Tracker.{
  IsTracker, is_merged-separate, is_merged-remove, is_merged-keep, merge-IsTracker,
  separate-IsTracker, remove-IsTracker, keep-IsTracker,
}
use skyeye.Controller.Merges.Hysteresis.{is_merged-update_merges_for_contact}

-- The pair is one of a hostile group and a friendly that the radar reports for it.
unfoldable pub is_supported : Merges → ℕ → ℕ → Bool
is_supported [] j g = false
is_supported ((ids, friendlies) ∷ merges) j g =
    (contains ids j && contains (map id_of friendlies) g) || is_supported merges j g

module _ (units : Units) where
  open units use {find_unit}

  is_merged-separate_others :
      (h : ℕ) (friends olds : List ℕ) (m : Merged) (j g : ℕ)
      → is_merged j g (separate_others units h friends olds m)
        ≡ (is_merged j g m && not (nat_eq h j && contains olds g && not (contains friends g)))
  unfolding separate_others contains
  is_merged-separate_others h friends [] m j g = ground arith
  is_merged-separate_others h friends (old ∷ olds) m j g =
      is_merged-separate_others h friends olds
        (if contains friends old then m else separate h old m) j g
      ∙ ground (
        arith,
        is_merged-separate h old j g m,
        nat_eq_iff old g,
        ap (contains friends) {x = old} {y = g},
      )

  separate_others-IsTracker :
      (h : ℕ) (friends olds : List ℕ) (m : Merged)
      → IsTracker m
      → IsTracker (separate_others units h friends olds m)
  unfolding separate_others
  separate_others-IsTracker h friends [] m v = v
  separate_others-IsTracker h friends (old ∷ olds) m v = elim (Bool-cases (contains friends old)) [
    | inl near ↦ rw near (separate_others-IsTracker h friends olds m v)
    | inr far ↦
        rw far (
          separate_others-IsTracker h friends olds (separate h old m)
            (separate-IsTracker h old m v))
  ]

  update_friendlies_near :
      (t : Trackfile) (fs : List Trackfile) (m : Merged) (j g : ℕ)
      → is_merged j g (update_friendlies units t fs m).0 ≡ true
      → (is_merged j g m || (nat_eq t.contact.id j && contains (map id_of fs) g)) ≡ true
  unfolding update_friendlies contains
  update_friendlies_near t [] m j g h = ground arith
  update_friendlies_near t (f ∷ fs) m j g h = ground (
    arith,
    update_friendlies_near t fs (update_merges_for_contact units t f m).0 j g h,
    (is_merged-update_merges_for_contact units t f m j g).0,
  )

  update_merges_for_contact-IsTracker :
      (t f : Trackfile) (m : Merged)
      → IsTracker m
      → IsTracker (update_merges_for_contact units t f m).0
  unfolding update_merges_for_contact
  update_merges_for_contact-IsTracker t f m v =
      let h = t.contact.id in
      let i = f.contact.id in
      elim (Bool-cases (is_last_known_point_zero f || is_last_known_point_zero t)) [
        | inl nowhere ↦ rw nowhere (separate-IsTracker h i m v)
        | inr located ↦ elim (Bool-cases (not (is_merged h i m) && entered_merge units t f)) [
          | inl enters ↦ rw (located, enters) (merge-IsTracker h i m v)
          | inr stays ↦ elim (Bool-cases (is_merged h i m && exited_merge units t f)) [
            | inl exits ↦ rw (located, stays, exits) (separate-IsTracker h i m v)
            | inr same ↦ rw (located, stays, same) v
          ]
        ]
      ]

  update_friendlies-IsTracker :
      (t : Trackfile) (fs : List Trackfile) (m : Merged)
      → IsTracker m
      → IsTracker (update_friendlies units t fs m).0
  unfolding update_friendlies
  update_friendlies-IsTracker t [] m v = v
  update_friendlies-IsTracker t (f ∷ fs) m v =
      update_friendlies-IsTracker t fs (update_merges_for_contact units t f m).0
        (update_merges_for_contact-IsTracker t f m v)

  update_found-IsTracker :
      (h : ℕ) (found : Option Trackfile) (fs : List Trackfile) (m : Merged)
      → IsTracker m
      → IsTracker (update_found units h found fs m).0
  update_found-IsTracker h none fs m v = remove-IsTracker h m v
  update_found-IsTracker h (some t) fs m v = update_friendlies-IsTracker t fs m v

  -- Its friendlies are near, so that the hostile is merged with friendlies of the list only.
  update_found_near :
      (h : ℕ) (found : Option Trackfile) (fs : List Trackfile) (m : Merged) (j g : ℕ)
      → ((t : Trackfile) → found ≡ some t → t.contact.id ≡ h)
      → IsTracker m
      → (nat_eq h j && is_merged j g m && not (contains (map id_of fs) g)) ≡ false
      → is_merged j g (update_found units h found fs m).0 ≡ true
      → (if nat_eq h j then contains (map id_of fs) g else is_merged j g m) ≡ true
  unfolding is_merged contains
  update_found_near h none fs m j g own v near e =
      ground
        (arith, is_merged-remove h j g m v, nat_eq_iff h j, ap (λ i. lookup i m) {x = h} {y = j})
  update_found_near h (some t) fs m j g own v near e =
      ground (arith, update_friendlies_near t fs m j g e, own t refl)

  others_near :
      (h : ℕ) (friends : List ℕ) (m : Merged) (j g : ℕ)
      → let m1 = separate_others units h friends (friendlies_merged_with h m) m in
        ((nat_eq h j && is_merged j g m1 && not (contains friends g)) ≡ false)
        × (is_merged j g m1 ≡ true → is_merged j g m ≡ true)
  unfolding is_merged friendlies_merged_with
  others_near h friends m j g =
      let olds = or_empty (lookup h m) in
      let q = is_merged-separate_others h friends olds m j g in
      (
        ground (arith, q, nat_eq_iff h j, ap (λ i. lookup i m) {x = h} {y = j}),
        λ e. ground (arith, q),
      )

  update_hostile_near :
      (h : ℕ) (fs : List Trackfile) (m : Merged) (j g : ℕ)
      → IsTracker m
      → is_merged j g (update_hostile units h fs m).0 ≡ true
      → (if nat_eq h j then contains (map id_of fs) g else is_merged j g m) ≡ true
  unfolding update_hostile
  update_hostile_near h fs m j g v e =
      let friends = map id_of fs in
      let olds = friendlies_merged_with h m in
      let m1 = separate_others units h friends olds m in
      let (near, before) = others_near h friends m j g in
      ground (
        arith,
        before,
        update_found_near h (find_unit h) fs m1 j g (units.find_unit_id h)
            (separate_others-IsTracker h friends olds m v) near e,
      )

  update_hostile-IsTracker :
      (h : ℕ) (fs : List Trackfile) (m : Merged)
      → IsTracker m
      → IsTracker (update_hostile units h fs m).0
  unfolding update_hostile
  update_hostile-IsTracker h fs m v =
      update_found-IsTracker h (find_unit h) fs _
        (separate_others-IsTracker h (map id_of fs) (friendlies_merged_with h m) m v)

  update_merges_for_group-IsTracker :
      (hs : List ℕ) (fs : List Trackfile) (m : Merged)
      → IsTracker m
      → IsTracker (update_merges_for_group units hs fs m).0
  unfolding update_merges_for_group
  update_merges_for_group-IsTracker [] fs m v = v
  update_merges_for_group-IsTracker (h ∷ hs) fs m v =
      update_merges_for_group-IsTracker hs fs (update_hostile units h fs m).0
        (update_hostile-IsTracker h fs m v)

  update_merges_for_group_near :
      (hs : List ℕ) (fs : List Trackfile) (m : Merged) (j g : ℕ)
      → IsTracker m
      → is_merged j g (update_merges_for_group units hs fs m).0 ≡ true
      → (if contains hs j then contains (map id_of fs) g else is_merged j g m) ≡ true
  unfolding update_merges_for_group contains
  update_merges_for_group_near [] fs m j g v e = e
  update_merges_for_group_near (h ∷ hs) fs m j g v e = ground (
    arith,
    update_merges_for_group_near hs fs (update_hostile units h fs m).0 j g
        (update_hostile-IsTracker h fs m v) e,
    update_hostile_near h fs m j g v,
  )

  broadcast_groups_supported :
      (audience : Audience) (merges : Merges) (m : Merged) (j g : ℕ)
      → IsTracker m
      → IsTracker (broadcast_groups units audience merges m).0
        × (is_merged j g (broadcast_groups units audience merges m).0 ≡ true
            → (is_supported merges j g
                || (not (contains (hostile_ids merges) j) && is_merged j g m))
              ≡ true)
  unfolding broadcast_groups is_supported contains
  broadcast_groups_supported audience [] m j g v = (v, λ e. e)
  broadcast_groups_supported audience ((ids, fs) ∷ merges) m j g v =
      let m1 = (update_merges_for_group units ids fs m).0 in
      let (kept, support) =
        broadcast_groups_supported audience merges m1 j g
          (update_merges_for_group-IsTracker ids fs m v) in
      (
        kept,
        λ e. ground (
          arith,
          support e,
          update_merges_for_group_near ids fs m j g v,
          contains-append ids (hostile_ids merges) j,
        ),
      )

  -- After a turn of broadcastMerges, the tracker holds no empty set and no hostile twice, and a
  -- hostile and a friendly are merged only if the radar has just reported the friendly for a group
  -- of the hostile: those that left the merge, faded or died are forgotten.
  pub broadcast_merges_supported :
      (audience : Audience) (merges : Merges) (m : Merged) (j g : ℕ)
      → IsTracker m
      → IsTracker (broadcast_merges units audience merges m).0
        × (is_merged j g (broadcast_merges units audience merges m).0 ≡ true
            → is_supported merges j g ≡ true)
  unfolding broadcast_merges
  broadcast_merges_supported audience merges m j g v =
      let ids = hostile_ids merges in
      let (kept, support) =
        broadcast_groups_supported audience merges (keep ids m) j g (keep-IsTracker ids m v) in
      (kept, λ e. ground (arith, support e, is_merged-keep ids j g m))
