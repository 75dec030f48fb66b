-- ===== src/Interfaces/Tracks.antt =====
-- What the Tacview client sends (pkg/tacview/client/client.go, sendUpdates), taken by the radar's scope
-- (pkg/radar/radar.go, handleUpdate).
use skyeye.Common.{
  ℕ, ◌≡◌, refl, sym, ◌∙◌, inl, inr, true, false, List, [], ◌∷◌, some, arith, nat_eq, nat_eq_iff,
  nat_Eq, Bool-cases, map, All, All-intro, IsOneOf, contains,
}
use mathlib.Core.Path.{subst}
use skyeye.Common.Text.{Text}
use skyeye.Radar.Database.{Names, get_by_id}
use skyeye.Radar.Grouping.{Sensors}
use skyeye.Radar.Scope.{Scope, Updated}
use skyeye.Radar.Store.{updated, Store, seen_again, step, steps, handle_all}
use skyeye.Radar.Store.Indexed.{IsCoalition}
use skyeye.Radar.Store.Agreement.{IsSound, Refines, IsPossible}
use skyeye.Radar.Store.Refinement.{handle_all-Refines}
use skyeye.Tacview.Client.{Client, property_to_coalition}
use skyeye.Tacview.Lines.{Formats}
use skyeye.Tacview.Stream.{Session, Reader, Turn, handle_lines, send_updates}
use skyeye.Tacview.Stream.Sending.{send_updates-IsReport}
use skyeye.Tacview.Stream.Once.{ids, IsOnceEach, send_updates-handle_lines}

property_to_coalition-IsCoalition : (p : Text) → IsCoalition (property_to_coalition p)
unfolding property_to_coalition IsCoalition
property_to_coalition-IsCoalition p = ground arith

send_updates-IsCoalition :
    (formats : Formats) (c : Client)
    → All (λ (u : Updated). IsCoalition u.labels.coalition) (send_updates formats c)
send_updates-IsCoalition formats c =
    All-intro (λ (u : Updated). IsCoalition u.labels.coalition) (send_updates formats c)
      (λ u sent.
        let (id, o, listed, r) = (send_updates-IsReport formats c u).0 sent in
        subst IsCoalition (sym r.owned) (property_to_coalition-IsCoalition r.side))

updated-IsPossible :
    (us : List Updated)
    → All (λ (u : Updated). IsCoalition u.labels.coalition) us
    → All IsPossible (map updated us)
updated-IsPossible [] v = tt
updated-IsPossible (u ∷ us) v = (v.0, updated-IsPossible us v.1)

contains-ids :
    (u : Updated) (us : List Updated) → IsOneOf u us → contains (ids us) u.labels.id ≡ true
unfolding contains IsOneOf
contains-ids u [] listed = elim listed [ ]
contains-ids u (v ∷ us) (inl same) = rw (← same, (nat_eq_iff u.labels.id u.labels.id).1 refl) refl
contains-ids u (v ∷ us) (inr later) = ground (arith, contains-ids u us later)

-- A contact that no update is of stays as it is.
steps-updated_others :
    (us : List Updated) (m : Store) (id : ℕ)
    → contains (ids us) id ≡ false
    → (steps (map updated us) m).find id ≡ m.find id
unfolding steps step contains
steps-updated_others [] m id absent = refl
steps-updated_others (u ∷ us) m id absent = elim (Bool-cases (nat_eq u.labels.id id)) [
  | inl here ↦ absurd (ground (arith, here, absent))
  | inr other ↦ steps-updated_others us (step (updated u) m) id (rw other at absent) ∙ rw other refl
]

-- A contact that one update is of is the one that the update makes of it.
steps-updated :
    (us : List Updated) (m : Store) (u : Updated)
    → IsOnceEach (ids us)
    → IsOneOf u us
    → (steps (map updated us) m).find u.labels.id ≡ some (seen_again u (m.find u.labels.id))
unfolding steps step IsOneOf
steps-updated [] m u v listed = elim listed [ ]
steps-updated (w ∷ us) m u v (inl same) =
    let absent : contains (ids us) u.labels.id ≡ false = rw (← same) at v.1 in
    steps-updated_others us (step (updated w) m) u.labels.id absent
    ∙ rw (← same, (nat_eq_iff u.labels.id u.labels.id).1 refl) refl
steps-updated (w ∷ us) m u v (inr later) = elim (Bool-cases (nat_eq w.labels.id u.labels.id)) [
  | inl here ↦
      absurd
        (ground (arith, nat_eq_iff w.labels.id u.labels.id, here, contains-ids u us later, v.1))
  | inr other ↦ steps-updated us (step (updated w) m) u v.2 later ∙ rw other refl
]

-- The store of a scope.
abbrev store_of : Scope → Store
store_of s = record {
  find = λ id. get_by_id id s.contacts;
  time = s.mission_time;
  pending = s.pending_fades;
  deadline = s.fade_deadline;
}

store_of-Refines : (s : Scope) → Refines s (store_of s)
store_of-Refines s = record { find = λ id. refl; time = refl; pending = refl; deadline = refl }

-- Whatever lines a connection reads, the radar takes the updates that are sent then without a panic
-- and keeps its invariant: a contact that an update is of is the one that it makes of the contact
-- before, a new one if there was none, and every other contact stays as it is.
pub handle_all-send_updates :
    (sensors : Sensors) (names : Names) (formats : Formats) (turns : List Turn) (reader : Reader)
    (session : Session) (s : Scope)
    → IsSound s
    → let us = send_updates formats (handle_lines formats turns reader session).0.client in
      (s' : Scope) × (handle_all sensors names (map updated us) s ≡ some s')
      × IsSound s'
      × ((u : Updated)
          → IsOneOf u us
          → get_by_id u.labels.id s'.contacts
            ≡ some (seen_again u (get_by_id u.labels.id s.contacts)))
      × ((id : ℕ)
          → contains (ids us) id ≡ false
          → get_by_id id s'.contacts ≡ get_by_id id s.contacts)
handle_all-send_updates sensors names formats turns reader session s v =
    let c = (handle_lines formats turns reader session).0.client in
    let us = send_updates formats c in
    let m = store_of s in
    let possible = updated-IsPossible us (send_updates-IsCoalition formats c) in
    let (s', handled, v', r) =
      handle_all-Refines sensors names (map updated us) s m possible v (store_of-Refines s) in
    let once = send_updates-handle_lines formats turns reader session in
    (
      s',
      handled,
      v',
      λ u sent. r.find u.labels.id ∙ steps-updated us m u once sent,
      λ id absent. r.find id ∙ steps-updated_others us m id absent,
    )
