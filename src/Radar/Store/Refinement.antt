-- ===== src/Radar/Store/Refinement.antt =====
-- pkg/radar: the scope refines the store.
use skyeye.Common.{◌≡◌, refl, inl, inr, List, [], ◌∷◌, some, nat_Eq, Option-cases, lookup, All}
use skyeye.Radar.Database.{Names, empty, get_by_id}
use skyeye.Radar.Grouping.{Sensors}
use skyeye.Radar.Scope.{Scope, handle_started}
use skyeye.Radar.Store.{
  Event, updated, faded, garbage_tick, started, set_mission_time, handle, handle_all, Store, step,
  steps,
}
use skyeye.Radar.Store.Indexed.{empty-IsIndexed}
use skyeye.Radar.Store.Agreement.{IsSound, Refines, IsPossible, Agrees}
use skyeye.Radar.Store.Updating.{updated-known, updated-new}
use skyeye.Radar.Store.Fading.{faded-Agrees}
use skyeye.Radar.Store.Collecting.{garbage-Agrees}

module _ (sensors : Sensors) (names : Names) where
  handle-Agrees :
      (e : Event) (s : Scope) (m : Store)
      → IsPossible e
      → IsSound s
      → Refines s m
      → Agrees sensors names e s m
  handle-Agrees (updated u) s m c v r = elim (Option-cases (get_by_id u.labels.id s.contacts)) [
    | inl e ↦ updated-new sensors names u s m c e v r
    | inr (t, e) ↦ updated-known sensors names u s m t e v r
  ]
  handle-Agrees (faded e) s m c v r = faded-Agrees sensors names e s m v r
  handle-Agrees garbage_tick s m c v r = garbage-Agrees sensors names s m v r
  handle-Agrees started s m c v r =
      unfold handle step handle_started get_by_id lookup in
      (
        record s { contacts = empty },
        refl,
        record { store = record { unique = tt; keyed = tt }; index = λ c h. empty-IsIndexed c h },
        record { find = λ id. refl; time = r.time; pending = r.pending; deadline = r.deadline },
      )
  handle-Agrees (set_mission_time time) s m c v r =
      unfold handle step in
      (
        record s { mission_time = time },
        refl,
        record { store = v.store; index = v.index },
        record { find = r.find; time = refl; pending = r.pending; deadline = r.deadline },
      )

  -- Over any events whose contacts have a coalition, in any order, the scope never panics, keeps its
  -- invariant, and refines the store: it has the contact under each ID that the store has, with the
  -- same mission time, pending fades and deadline.
  pub handle_all-Refines :
      (es : List Event) (s : Scope) (m : Store)
      → All IsPossible es
      → IsSound s
      → Refines s m
      → (s' : Scope) × (handle_all sensors names es s ≡ some s')
        × IsSound s'
        × Refines s' (steps es m)
  unfolding handle_all steps
  handle_all-Refines [] s m c v r = (s, refl, v, r)
  handle_all-Refines (e ∷ es) s m c v r =
      let (s1, handled, v1, r1) = handle-Agrees e s m c.0 v r in
      let (s2, rest, v2, r2) = handle_all-Refines es s1 (step e m) c.1 v1 r1 in
      (s2, rw handled rest, v2, r2)
