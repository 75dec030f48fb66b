-- ===== src/Tacview/Client/Removals.antt =====
-- What updateObject does to the objects, and which fades it sends.
use skyeye.Common.{
  ℕ, ◌≡◌, refl, ap, ◌∙◌, inl, inr, Bool, true, false, ◌&&◌, List, [], ◌∷◌, Option, none, some,
  arith, nat_eq, if◌then◌else◌, nat_Eq, list_Eq, ◌==◌, Bool-cases, lookup, insert, delete,
  lookup-insert, lookup-delete,
}
use skyeye.Common.Text.{Text, codes}
use skyeye.Trackfiles.{Point}
use skyeye.Tacview.Coordinates.{Floats, Coordinates, parse}
use skyeye.Tacview.Objects.{
  Object, ObjectUpdate, Properties, set_property, set_properties, set_transform, move,
  get_coordinates, update_properties, get_types, get_property, new_transform, transform_key,
}
use skyeye.Tacview.Client.{
  Client, Outcome, failed, found_or_new, finish, finish_typed, with_bullseye, is_bullseye,
  update_object,
}

-- Every object stands under its ID.
abbrev pub IsState : List (ℕ × Object) → Type 0
IsState state = (id : ℕ) (o : Object) → lookup id state ≡ some o → o.id ≡ id

set_properties_id : (ps : Properties) (o : Object) → (set_properties ps o).id ≡ o.id
unfolding set_properties set_property
set_properties_id [] o = refl
set_properties_id ((k, v) ∷ ps) o =
    set_properties_id ps (if k == transform_key then o else set_property k v o) ∙ ground arith

module _ (floats : Floats) where
  set_transform_id :
      (ref : Point) (c : Option Coordinates) (o : Object)
      → (set_transform floats ref c o).0.id ≡ o.id
  unfolding set_property
  set_transform_id ref none o = refl
  set_transform_id ref (some c) o = refl

  move_id :
      (t : Text) (ref : Point) (c : Option Coordinates) (o : Object)
      → (move floats t ref c o).0.id ≡ o.id
  unfolding set_property
  move_id t ref none o = refl
  move_id t ref (some c) o = set_transform_id ref (parse floats t ref c) o

  update_properties_id :
      (u : ObjectUpdate) (ref : Point) (o : Object) → (update_properties floats u ref o).0.id ≡ o.id
  unfolding update_properties
  update_properties_id u ref o =
      let o' = set_properties u.properties o in
      let t = new_transform (lookup transform_key u.properties) in
      elim (Bool-cases (t == [])) [
        | inl still ↦ rw still (set_properties_id u.properties o)
        | inr moved ↦
            rw moved
              (move_id t ref (get_coordinates floats ref o') o' ∙ set_properties_id u.properties o)
      ]

  -- The object after the update, as it is stored.
  abbrev pub updated : ObjectUpdate → Client → Object
  updated u c =
      (update_properties floats u c.reference_point (found_or_new u.id (lookup u.id c.state))).0

  pub updated_id : (u : ObjectUpdate) (c : Client) → IsState c.state → (updated u c).id ≡ u.id
  updated_id u c v =
      update_properties_id u c.reference_point (found_or_new u.id (lookup u.id c.state))
      ∙ found (lookup u.id c.state) refl
    where
      found : (o : Option Object) → lookup u.id c.state ≡ o → (found_or_new u.id o).id ≡ u.id
      found none e = refl
      found (some o) e = v u.id o e

  -- The outcome of an update whose object was stored.
  abbrev pub IsOutcome : ObjectUpdate → Object → List (ℕ × Object) → Outcome → Type 0
  IsOutcome u o state r =
      (r.client.state ≡ (if r.ok && u.is_removal then delete o.id state else state))
      × (r.fades ≡ (if r.ok && u.is_removal then o.id ∷ [] else []))

  finish-IsOutcome :
      (u : ObjectUpdate) (o : Object) (c : Client) (c' : Option Client)
      → ((d : Client) → c' ≡ some d → d.state ≡ c.state)
      → IsOutcome u o c.state (finish u o c c')
  finish-IsOutcome u o c none same = (refl, refl)
  finish-IsOutcome u o c (some d) same = elim (Bool-cases u.is_removal) [
    | inl gone ↦ rw gone (ap (delete o.id) (same d refl), refl)
    | inr stays ↦ rw stays (same d refl, refl)
  ]

  with_bullseye_state :
      (is : Bool) (p : Option Text) (id : ℕ) (c d : Client)
      → with_bullseye is p id c ≡ some d
      → d.state ≡ c.state
  with_bullseye_state false p id c d e = ground arith
  with_bullseye_state true none id c d e = absurd (ground arith)
  with_bullseye_state true (some p) id c d e = ground arith

  finish_typed-IsOutcome :
      (u : ObjectUpdate) (o : Object) (types : Option (List Text)) (c : Client)
      → IsOutcome u o c.state (finish_typed u o types c)
  finish_typed-IsOutcome u o none c = (refl, refl)
  finish_typed-IsOutcome u o (some tags) c =
      let property = get_property (codes "Coalition") o in
      finish-IsOutcome u o c (with_bullseye (is_bullseye tags) property o.id c)
        (λ d e. with_bullseye_state (is_bullseye tags) property o.id c d e)

  pub update_object-IsOutcome :
      (u : ObjectUpdate) (c : Client)
      → IsOutcome u (updated u c) (insert u.id (updated u c) c.state) (update_object floats u c)
  unfolding update_object
  update_object-IsOutcome u c = go _ _
    where
      go :
          (o : Object) (ok : Bool)
          → let c' = record c { state = insert u.id o c.state } in
            IsOutcome u o c'.state (if ok then finish_typed u o (get_types o) c' else failed c')
      go o true =
          finish_typed-IsOutcome u o (get_types o) (record c { state = insert u.id o c.state })
      go o false = (refl, refl)

  -- An update touches its own object only. A removal that is accepted takes the object out and sends
  -- one fade, for its ID; otherwise the object is stored as updated, also when the update is
  -- refused, and no fade is sent.
  pub update_object_state :
      (u : ObjectUpdate) (c : Client) (j : ℕ)
      → IsState c.state
      → let r = update_object floats u c in
        (lookup j r.client.state ≡ (
          if nat_eq u.id j
          then if r.ok && u.is_removal then none else some (updated u c)
          else lookup j c.state))
        × (r.fades ≡ (if r.ok && u.is_removal then u.id ∷ [] else []))
  update_object_state u c j v =
      let o = updated u c in
      let same = updated_id u c v in
      let r = update_object floats u c in
      let (state, fades) = update_object-IsOutcome u c in
      elim (Bool-cases (r.ok && u.is_removal)) [
        | inl gone ↦
            let state' : r.client.state ≡ delete o.id (insert u.id o c.state) = rw gone at state in
            let fades' : r.fades ≡ o.id ∷ [] = rw gone at fades in
            (
              rw (gone, state', same)
                  (ground (
                    arith,
                    lookup-delete u.id j (insert u.id o c.state),
                    lookup-insert u.id j o c.state,
                  )),
              rw gone (fades' ∙ ap (λ i. i ∷ []) same),
            )
        | inr kept ↦
            let state' : r.client.state ≡ insert u.id o c.state = rw kept at state in
            let fades' : r.fades ≡ [] = rw kept at fades in
            (rw (kept, state') (lookup-insert u.id j o c.state), rw kept fades')
      ]
