-- ===== src/Tacview/Stream/Sending.antt =====
-- pkg/tacview/client/client.go: which updates sendUpdates sends.
use skyeye.Common.{
  ℕ, ◌≡◌, refl, sym, ap, ◌∙◌, ◌↔◌, ◌⊎◌, inl, inr, true, List, [], ◌∷◌, ◌++◌, Option, none, some,
  arith, bind-eq-some, if◌then◌else◌, IsOneOf,
}
use mathlib.Core.Path.{subst}
use skyeye.Common.Text.{Text, codes}
use skyeye.Radar.Scope.{Updated}
use skyeye.Tacview.Coordinates.{Coordinates}
use skyeye.Tacview.Objects.{Object, get_property, get_types, get_coordinates}
use skyeye.Tacview.Client.{Client, is_aircraft, property_to_coalition}
use skyeye.Tacview.Lines.{Formats}
use skyeye.Tacview.Stream.{update_of, send, send_each, send_updates, or_zero, callsign, report}

module _ (formats : Formats) (c : Client) where
  open formats use {floats, print_id, angle}

  -- An aircraft that has a name, a position and a coalition, and what is said of it: its pilot is
  -- its name, where it has one.
  pub record IsReport (o : Object) (u : Updated) : Type 0 where
    pub tags : List Text
    pub typed : get_types o ≡ some tags
    pub flies : is_aircraft tags ≡ true
    pub named : get_property (codes "Name") o ≡ some (u.labels.acmi_name)
    pub coordinates : Coordinates
    pub located : get_coordinates floats c.reference_point o ≡ some coordinates
    pub side : Text
    pub sided : get_property (codes "Coalition") o ≡ some side
    pub ided : u.labels.id ≡ o.id
    pub owned : u.labels.coalition ≡ property_to_coalition side
    pub called :
        (get_property (codes "Pilot") o ≡ some (u.labels.name))
        ⊎ ((get_property (codes "Pilot") o ≡ none)
            × (u.labels.name ≡ codes "Unit " ++ print_id o.id))
    pub seen : u.frame ≡ record {
      time = c.cursor_time;
      point = coordinates.location;
      altitude = or_zero coordinates.altitude;
      heading = angle (or_zero coordinates.heading);
    }

  called_as :
      (o : Object) (pilot : Option Text)
      → get_property (codes "Pilot") o ≡ pilot
      → let name = callsign formats o.id pilot in
        (get_property (codes "Pilot") o ≡ some name)
        ⊎ ((get_property (codes "Pilot") o ≡ none) × (name ≡ codes "Unit " ++ print_id o.id))
  called_as o none h = inr (h, refl)
  called_as o (some pilot) h = inl h

  report-IsReport :
      (o : Object) (tags : List Text) (name : Text) (coordinates : Coordinates) (side : Text)
      → get_types o ≡ some tags
      → is_aircraft tags ≡ true
      → get_property (codes "Name") o ≡ some name
      → get_coordinates floats c.reference_point o ≡ some coordinates
      → get_property (codes "Coalition") o ≡ some side
      → IsReport o (report formats c o name coordinates side)
  report-IsReport o tags name coordinates side typed flies named located sided = record {
    tags = tags;
    typed = typed;
    flies = flies;
    named = named;
    coordinates = coordinates;
    located = located;
    side = side;
    sided = sided;
    ided = refl;
    owned = refl;
    called = called_as o (get_property (codes "Pilot") o) refl;
    seen = refl;
  }

  pub update_of→IsReport :
      (o : Object) (u : Updated) → update_of formats c o ≡ some u → IsReport o u
  unfolding update_of
  update_of→IsReport o u h =
      let (tags, typed, h) = bind-eq-some (get_types o) _ h in
      let (aircraft, flies, h) = bind-eq-some (if is_aircraft tags then some tags else none) _ h in
      let (name, named, h) = bind-eq-some (get_property (codes "Name") o) _ h in
      let (coordinates, located, h) =
        bind-eq-some (get_coordinates floats c.reference_point o) _ h in
      let (side, sided, h) = bind-eq-some (get_property (codes "Coalition") o) _ h in
      let same : report formats c o name coordinates side ≡ u = ground (arith, h) in
      rw same at (
        report-IsReport o tags name coordinates side typed (ground (arith, flies)) named located
          sided)

  callsign-named :
      (o : Object) (name : Text)
      → (get_property (codes "Pilot") o ≡ some name)
        ⊎ ((get_property (codes "Pilot") o ≡ none) × (name ≡ codes "Unit " ++ print_id o.id))
      → callsign formats o.id (get_property (codes "Pilot") o) ≡ name
  callsign-named o name (inl h) = rw h refl
  callsign-named o name (inr (h, e)) = rw h (sym e)

  report-is :
      (o : Object) (u : Updated) (r : IsReport o u)
      → report formats c o (u.labels.acmi_name) r.coordinates r.side ≡ u
  report-is o u r =
      rw (callsign-named o (u.labels.name) r.called, ← r.ided, ← r.owned, ← r.seen) refl

  IsReport→update_of : (o : Object) (u : Updated) → IsReport o u → update_of formats c o ≡ some u
  unfolding update_of
  IsReport→update_of o u r =
      rw (r.typed, r.flies, r.named, r.located, r.sided) (ap some (report-is o u r))

  -- What is sent of an object and of the rest.
  send→IsReport :
      (u : Updated) (id : ℕ) (o : Object) (rest : List (ℕ × Object)) (said : Option Updated)
      → update_of formats c o ≡ said
      → (IsOneOf u (send_each formats c rest)
          → (j : ℕ) × (p : Object) × IsOneOf (j, p) rest × IsReport p u)
      → IsOneOf u (send said (send_each formats c rest))
      → (j : ℕ) × (p : Object) × IsOneOf (j, p) ((id, o) ∷ rest) × IsReport p u
  unfolding IsOneOf
  send→IsReport u id o rest none h found later =
      let (j, p, listed, r) = found later in (j, p, inr listed, r)
  send→IsReport u id o rest (some v) h found (inl same) =
      (id, o, inl refl, update_of→IsReport o u (h ∙ ap some (sym same)))
  send→IsReport u id o rest (some v) h found (inr later) =
      let (j, p, listed, r) = found later in (j, p, inr listed, r)

  send_each→IsReport :
      (u : Updated) (state : List (ℕ × Object))
      → IsOneOf u (send_each formats c state)
      → (id : ℕ) × (o : Object) × IsOneOf (id, o) state × IsReport o u
  unfolding send_each IsOneOf
  send_each→IsReport u [] sent = elim sent [ ]
  send_each→IsReport u ((id, o) ∷ rest) sent =
      send→IsReport u id o rest (update_of formats c o) refl (send_each→IsReport u rest) sent

  send-later :
      (u : Updated) (said : Option Updated) (later : List Updated)
      → IsOneOf u later
      → IsOneOf u (send said later)
  unfolding IsOneOf
  send-later u none later sent = sent
  send-later u (some v) later sent = inr sent

  IsReport→send_each :
      (u : Updated) (id : ℕ) (o : Object) (state : List (ℕ × Object))
      → IsOneOf (id, o) state
      → IsReport o u
      → IsOneOf u (send_each formats c state)
  unfolding send_each IsOneOf
  IsReport→send_each u id o [] listed r = elim listed [ ]
  IsReport→send_each u id o ((j, p) ∷ rest) (inl same) r =
      let same' : o ≡ p = ap (λ (e : ℕ × Object). e.1) same in
      let said = ap (update_of formats c) (sym same') ∙ IsReport→update_of o u r in
      subst (λ m. IsOneOf u (send m (send_each formats c rest))) (sym said) (inl refl)
  IsReport→send_each u id o ((j, p) ∷ rest) (inr later) r =
      send-later u (update_of formats c p) (send_each formats c rest)
        (IsReport→send_each u id o rest later r)

  -- An update is sent if and only if some object of the state is an aircraft with a name, a position
  -- and a coalition, and the update says of it what it is and where.
  pub send_updates-IsReport :
      (u : Updated)
      → IsOneOf u (send_updates formats c)
        ↔ ((id : ℕ) × (o : Object) × IsOneOf (id, o) c.state × IsReport o u)
  unfolding send_updates
  send_updates-IsReport u = (
    send_each→IsReport u c.state,
    λ (id, o, listed, r). IsReport→send_each u id o c.state listed r,
  )
