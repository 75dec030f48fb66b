-- ===== src/Radar/Store/Collecting.antt =====
-- The scope and the store on garbage collection.
use skyeye.Common.{
  ℕ, ◌≡◌, refl, sym, ap, ◌∙◌, ◌⊎◌, inl, inr, List, [], Option, if◌then◌else◌, nat_Eq, nat_eq,
  Bool-cases, length,
}
use skyeye.Coalitions.{Coalition}
use skyeye.Trackfiles.{Trackfile}
use skyeye.Radar.Database.{Names}
use skyeye.Radar.Database.Lookup.{IsIndexed}
use skyeye.Radar.Grouping.{Sensors}
use skyeye.Radar.Scope.{Scope, handle_garbage_collection, collect}
use skyeye.Radar.Scope.Collection.{unless_expired, get_by_id-handle_garbage_collection}
use skyeye.Radar.Store.{garbage_tick, handle, Store, step}
use skyeye.Radar.Store.Indexed.{collect-IsIndexed}
use skyeye.Radar.Store.Agreement.{IsSound, Refines, Agrees}

-- What garbage collection keeps of a contact, by the pending fades and the mission time.
abbrev kept : List ℕ → ℕ → Option Trackfile → Option Trackfile
kept pending time o = if nat_eq (length pending) 0 then unless_expired time o else o

module _ (sensors : Sensors) (names : Names) where
  -- What garbage collection does to an entry of the store.
  step-garbage :
      (m : Store) (id : ℕ)
      → (step garbage_tick m).find id
        ≡ (if nat_eq (length m.pending) 0 then unless_expired m.time (m.find id) else m.find id)
  unfolding step
  step-garbage m id = elim (Bool-cases (nat_eq (length m.pending) 0)) [
    | inl none_pending ↦ rw none_pending refl
    | inr waiting ↦ rw waiting refl
  ]

  step-garbage_rest :
      (m : Store)
      → ((step garbage_tick m).time ≡ m.time)
        × ((step garbage_tick m).pending ≡ m.pending)
        × ((step garbage_tick m).deadline ≡ m.deadline)
  unfolding step
  step-garbage_rest m = elim (Bool-cases (nat_eq (length m.pending) 0)) [
    | inl none_pending ↦ rw none_pending (refl, refl, refl)
    | inr waiting ↦ rw waiting (refl, refl, refl)
  ]

  collected : Scope → Scope
  collected s = (handle_garbage_collection s).0

  abbrev gathered : Scope → Scope
  gathered s = record s { contacts = (collect s.mission_time s.contacts.contacts s.contacts).0 }

  collected-cases : (s : Scope) → (collected s ≡ gathered s) ⊎ (collected s ≡ s)
  unfolding collected handle_garbage_collection
  collected-cases s = elim (Bool-cases (nat_eq (length s.pending_fades) 0)) [
    | inl none_pending ↦
        let p : handle_garbage_collection s
            ≡ (gathered s, (collect s.mission_time s.contacts.contacts s.contacts).1) =
          rw none_pending refl in
        inl (ap (λ (x : Scope × List Trackfile). x.0) p)
    | inr waiting ↦
        let p : handle_garbage_collection s ≡ (s, []) = rw waiting refl in
        inr (ap (λ (x : Scope × List Trackfile). x.0) p)
  ]

  collected_rest :
      (s : Scope)
      → ((collected s).mission_time ≡ s.mission_time)
        × ((collected s).pending_fades ≡ s.pending_fades)
        × ((collected s).fade_deadline ≡ s.fade_deadline)
  collected_rest s = elim (collected-cases s) [
    | inl e ↦ rw e (refl, refl, refl)
    | inr e ↦ rw e (refl, refl, refl)
  ]

  collected-IsIndexed :
      (c : Coalition) (s : Scope) → IsIndexed c s.contacts → IsIndexed c (collected s).contacts
  collected-IsIndexed c s h = elim (collected-cases s) [
    | inl e ↦ rw e (collect-IsIndexed c s.mission_time s.contacts.contacts s.contacts h)
    | inr e ↦ rw e h
  ]

  pub garbage-Agrees :
      (s : Scope) (m : Store) → IsSound s → Refines s m → Agrees sensors names garbage_tick s m
  unfolding handle collected
  garbage-Agrees s m v r =
      let (time, pending, deadline) = collected_rest s in
      let (time', pending', deadline') = step-garbage_rest m in
      (
        collected s,
        refl,
        record {
          store = (get_by_id-handle_garbage_collection s 0 v.store).1;
          index = λ c h. collected-IsIndexed c s (v.index c h);
        },
        record {
          find = λ id.
              (get_by_id-handle_garbage_collection s id v.store).0
              ∙ (ap (λ o. kept s.pending_fades s.mission_time o) (r.find id)
                  ∙ (ap (λ ids. kept ids s.mission_time (m.find id)) r.pending
                      ∙ (ap (λ t. kept m.pending t (m.find id)) r.time ∙ sym (step-garbage m id))));
          time = time ∙ (r.time ∙ sym time');
          pending = pending ∙ (r.pending ∙ sym pending');
          deadline = deadline ∙ (r.deadline ∙ sym deadline');
        },
      )
