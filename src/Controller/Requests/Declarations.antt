-- ===== src/Controller/Requests/Declarations.antt =====
-- pkg/controller/declare.go and snaplock.go: what DECLARE and SNAPLOCK say of a place.
use skyeye.Common.{
  ◌≡◌, refl, ◌⊎◌, inl, inr, ap, Bool, true, false, not, ◌&&◌, ◌||◌, List, [], ◌∷◌, Option, none,
  some, arith, nat_eq, ltb, if◌then◌else◌, length, contains, nat_Eq, Bool-cases, IsOneOf,
}
use skyeye.Common.Text.{Text}
use skyeye.Coalitions.{Coalition, opposite}
use skyeye.Trackfiles.{Point, Trackfile, is_last_known_point_zero}
use skyeye.Radar.Grouping.{Sensors, Group}
use skyeye.Radar.Nearby.{Globe, Sort, Area, is_in_area, find_nearby_groups}
use skyeye.Radar.Nearby.Cover.{IsAround, find_nearby_groups-IsAround, find_nearby_groups-IsCovered}
use skyeye.Parser.Declare.{DeclareRequest}
use skyeye.Controller.Calls.{
  Declaration, friendly, hostile, furball, clean, GroupReport, Call, declare_response,
  snaplock_response,
}
use skyeye.Controller.Merges.{Merged}
use skyeye.Controller.Handlers.{Controller, find_callsign}
use skyeye.Controller.Requests.{
  Geometry, fill_in, declare_groups, point_of_interest, declare_area, declare_report, declare,
  for_contact, handle_declare,
}

-- What the declaration says, by whether there is a friendly contact and whether there is a hostile.
unfoldable pub declared : Bool → Bool → Declaration
declared false false = clean
declared true false = friendly
declared false true = hostile
declared true true = furball

-- The declaration of a response to DECLARE or SNAPLOCK, and its group.
unfoldable pub declaration_of : Call → Option Declaration
declaration_of (declare_response callsign declaration report) = some declaration
declaration_of (snaplock_response callsign declaration report) = some declaration
declaration_of _ = none

unfoldable pub report_of : Call → Option GroupReport
report_of (declare_response callsign declaration report) = report
report_of (snaplock_response callsign declaration report) = report
report_of _ = none

abbrev pub HoldsOf : (GroupReport → Type 0) → Option GroupReport → Type 0
HoldsOf P none = Unit
HoldsOf P (some report) = P report

module _ (sensors : Sensors) (globe : Globe) (area : Area) where
  unfoldable pub is_counted : Trackfile → Bool
  is_counted t = not (contains area.excluded_ids t.contact.id) && is_in_area sensors globe area t

  -- Some valid contact of the area's side is in the area and not excluded.
  unfoldable pub any_in : List Trackfile → Bool
  any_in [] = false
  any_in (t ∷ ts) = is_counted t || any_in ts

  any_in-IsOneOf :
      (ts : List Trackfile) (t : Trackfile) → IsOneOf t ts → is_counted t ≡ true → any_in ts ≡ true
  unfolding any_in IsOneOf
  any_in-IsOneOf [] t listed h = elim listed [ ]
  any_in-IsOneOf (u ∷ us) t (inl same) h = rw (← same) (rw h refl)
  any_in-IsOneOf (u ∷ us) t (inr later) h = ground (arith, any_in-IsOneOf us t later h)

  any_in-some :
      (ts : List Trackfile)
      → any_in ts ≡ true
      → (t : Trackfile) × IsOneOf t ts × (is_counted t ≡ true)
  unfolding any_in IsOneOf
  any_in-some [] h = absurd (ground arith)
  any_in-some (u ∷ us) h = elim (Bool-cases (is_counted u)) [
    | inl here ↦ (u, inl refl, here)
    | inr elsewhere ↦
        let (t, listed, counted) = any_in-some us (ground arith) in (t, inr listed, counted)
  ]

  is_empty-not :
      (gs : List Group) (any : Bool)
      → ((g : Group) → IsOneOf g gs → any ≡ true)
      → (any ≡ true → (g : Group) × IsOneOf g gs)
      → nat_eq (length gs) 0 ≡ not any
  unfolding IsOneOf
  is_empty-not [] true sound complete = elim (complete refl).1 [ ]
  is_empty-not [] false sound complete = refl
  is_empty-not (g ∷ gs) any sound complete = rw (sound g (inl refl)) (ground arith)

  pub is_empty-find_nearby_groups :
      (sort : Sort) (values : List Trackfile)
      → nat_eq (length (find_nearby_groups sensors globe sort area values)) 0 ≡ not (any_in values)
  is_empty-find_nearby_groups sort values =
      is_empty-not (find_nearby_groups sensors globe sort area values) (any_in values)
        (λ g listed.
          let v = find_nearby_groups-IsAround sensors globe area sort values g listed in
          any_in-IsOneOf values v.lead v.listed (unfold is_counted in rw (v.allowed, v.here) refl))
        (λ h.
          let (t, listed, counted) = any_in-some values h in
          let (g, found, _) =
            find_nearby_groups-IsCovered sensors globe area sort values t listed
              (unfold is_counted in ground arith) (unfold is_counted in ground arith) in
          (g, found))

declare_groups-declared :
    (friends hostiles : List Group) (f h : Bool)
    → nat_eq (length friends) 0 ≡ not f
    → nat_eq (length hostiles) 0 ≡ not h
    → declare_groups friends hostiles ≡ declared f h
unfolding declare_groups declared
declare_groups-declared friends hostiles true true p q = rw (p, q) refl
declare_groups-declared friends hostiles true false p q = rw (p, q) refl
declare_groups-declared friends hostiles false true p q = rw (p, q) refl
declare_groups-declared friends hostiles false false p q = rw (p, q) refl

module _ (sensors : Sensors) (globe : Globe) (sort : Sort) (geometry : Geometry) where
  -- The named group is one of the area of its side, and declared so; a hostile one that is merged
  -- with someone is a furball.
  unfoldable pub IsOfSide : Area → Area → List Trackfile → GroupReport → Type 0
  IsOfSide friends hostiles values r =
      (IsAround sensors globe friends values values r.group × (r.declaration ≡ friendly))
      ⊎ (IsAround sensors globe hostiles values values r.group
          × (r.declaration ≡ (if ltb 0 r.merged_with then furball else hostile)))

  declare_report-IsOfSide :
      (a b : Area) (values : List Trackfile) (merges : Merged) (fs hs : List Group)
      → ((g : Group) → IsOneOf g fs → IsAround sensors globe a values values g)
      → ((g : Group) → IsOneOf g hs → IsAround sensors globe b values values g)
      → HoldsOf (IsOfSide a b values) (declare_report merges fs hs)
  unfolding declare_report IsOfSide IsOneOf fill_in
  declare_report-IsOfSide a b values merges [] [] p q = tt
  declare_report-IsOfSide a b values merges (f ∷ fs) [] p q = inl (p f (inl refl), refl)
  declare_report-IsOfSide a b values merges [] (h ∷ hs) p q = inr (q h (inl refl), refl)
  declare_report-IsOfSide a b values merges (f ∷ fs) (h ∷ hs) p q = tt

  pub located :
      (callsign name : Text) (t : Trackfile) (answer : Text → Trackfile → Call)
      → is_last_known_point_zero t ≡ false
      → for_contact callsign (some (name, t)) answer ≡ answer name t
  unfolding for_contact find_callsign
  located callsign name t answer h = rw h refl

  -- To a caller who is on the radar, DECLARE says clean, friendly, hostile or furball exactly by
  -- whether valid contacts (with a position, and faster than fifty knots) of the own and of the
  -- opposite coalition, without the caller, are within the area and the altitudes asked about, so that
  -- a hovering hostile does not count; and a group that it names is a group of such a contact, of the
  -- side it says.
  pub handle_declare_answer :
      (bullseye : Coalition → Point) (request : DeclareRequest) (name : Text) (t : Trackfile)
      (values : List Trackfile) (c : Controller)
      → is_last_known_point_zero t ≡ false
      → let interest = point_of_interest sensors globe sort geometry t bullseye request.location in
        let area = declare_area sensors globe sort geometry t interest request.altitude in
        let answer =
          handle_declare sensors globe sort geometry bullseye request (some (name, t)) values c in
        (declaration_of answer
          ≡ some (
              declared
                (any_in sensors globe (area c.coalition) values)
                (any_in sensors globe (area (opposite c.coalition)) values)))
        × HoldsOf
            (IsOfSide (area c.coalition) (area (opposite c.coalition)) values)
            (report_of answer)
  unfolding handle_declare declare declaration_of report_of
  handle_declare_answer bullseye request name t values c h =
      let interest = point_of_interest sensors globe sort geometry t bullseye request.location in
      let friends =
        declare_area sensors globe sort geometry t interest request.altitude c.coalition in
      let hostiles =
        declare_area sensors globe sort geometry t interest request.altitude
          (opposite c.coalition) in
      rw
        (located request.callsign name t
          (λ found_callsign u.
            declare sensors globe sort geometry bullseye found_callsign u request values c)
          h)
        (
          ap some (
              declare_groups-declared (find_nearby_groups sensors globe sort friends values)
                (find_nearby_groups sensors globe sort hostiles values)
                (any_in sensors globe friends values) (any_in sensors globe hostiles values)
                (is_empty-find_nearby_groups sensors globe friends sort values)
                (is_empty-find_nearby_groups sensors globe hostiles sort values)),
          declare_report-IsOfSide friends hostiles values c.merges
              (find_nearby_groups sensors globe sort friends values)
              (find_nearby_groups sensors globe sort hostiles values)
              (find_nearby_groups-IsAround sensors globe friends sort values)
              (find_nearby_groups-IsAround sensors globe hostiles sort values),
        )
