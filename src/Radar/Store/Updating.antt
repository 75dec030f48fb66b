-- ===== src/Radar/Store/Updating.antt =====
-- The scope and the store on updates of a contact.
use skyeye.Common.{
  ℕ, ◌≡◌, refl, sym, ap, ◌∙◌, inl, inr, Option, none, some, if◌then◌else◌, ◌==◌, nat_Eq, nat_eq_iff,
  Bool-cases, insert, lookup-insert,
}
use skyeye.Trackfiles.{Trackfile, new_trackfile, update}
use skyeye.Radar.Database.{Database, Names, get_by_id, set}
use skyeye.Radar.Database.Lookup.{get_by_id-set}
use skyeye.Radar.Grouping.{Sensors}
use skyeye.Radar.Scope.{Scope, Updated, handle_update}
use skyeye.Radar.Scope.Collection.{handle_update-IsStore}
use skyeye.Radar.Store.{updated, handle, Store, seen_again, step}
use skyeye.Radar.Store.Indexed.{IsCoalition, set-some, set-IsIndexed}
use skyeye.Radar.Store.Agreement.{IsSound, Refines, Agrees}

module _ (sensors : Sensors) (names : Names) where
  handle_update-known :
      (u : Updated) (s : Scope) (t : Trackfile)
      → get_by_id u.labels.id s.contacts ≡ some t
      → handle_update names u s
        ≡ some (record s {
          contacts = record (s.contacts) {
            contacts = insert u.labels.id (update u.frame t) s.contacts.contacts;
          };
        })
  unfolding handle_update
  handle_update-known u s t e = rw (e, handle_update) refl

  handle_update-new :
      (u : Updated) (s : Scope) (d : Database)
      → get_by_id u.labels.id s.contacts ≡ none
      → set names (new_trackfile u.labels) s.contacts ≡ some d
      → handle_update names u s ≡ some (record s { contacts = d })
  unfolding handle_update
  handle_update-new u s d e made = rw (e, handle_update) (rw made refl)

  find_updated :
      (u : Updated) (m : Store) (o : Option Trackfile) (id : ℕ)
      → m.find u.labels.id ≡ o
      → (if u.labels.id == id then some (seen_again u o) else m.find id)
        ≡ (if u.labels.id == id then some (seen_again u (m.find id)) else m.find id)
  find_updated u m o id e = elim (Bool-cases (u.labels.id == id)) [
    | inl same ↦
        rw same
          (ap (λ p. some (seen_again u p)) (sym e ∙ ap m.find ((nat_eq_iff u.labels.id id).0 same)))
    | inr other ↦ rw other refl
  ]

  pub updated-known :
      (u : Updated) (s : Scope) (m : Store) (t : Trackfile)
      → get_by_id u.labels.id s.contacts ≡ some t
      → IsSound s
      → Refines s m
      → Agrees sensors names (updated u) s m
  unfolding handle step
  updated-known u s m t e v r =
      let handled = handle_update-known u s t e in
      (
        _,
        handled,
        record { store = handle_update-IsStore names u s handled v.store; index = v.index },
        record {
          find = λ id. found id ∙ find_updated u m (some t) id (sym (r.find u.labels.id) ∙ e);
          time = r.time;
          pending = r.pending;
          deadline = r.deadline;
        },
      )
    where
      found :
          (id : ℕ)
          → get_by_id id (record (s.contacts) {
            contacts = insert u.labels.id (update u.frame t) s.contacts.contacts;
          })
            ≡ (if u.labels.id == id then some (update u.frame t) else m.find id)
      found id =
          unfold get_by_id in
          rw (lookup-insert u.labels.id id (update u.frame t) s.contacts.contacts)
            (rw (r.find id) refl)

  pub updated-new :
      (u : Updated) (s : Scope) (m : Store)
      → IsCoalition u.labels.coalition
      → get_by_id u.labels.id s.contacts ≡ none
      → IsSound s
      → Refines s m
      → Agrees sensors names (updated u) s m
  unfolding handle step
  updated-new u s m c e v r =
      let t = new_trackfile u.labels in
      let (d, made) = set-some names t s.contacts (v.index u.labels.coalition c) in
      let handled = handle_update-new u s d e made in
      (
        record s { contacts = d },
        handled,
        record {
          store = handle_update-IsStore names u s handled v.store;
          index = λ k valid. set-IsIndexed names k t s.contacts made (v.index k valid);
        },
        record {
          find = λ id.
              get_by_id-set names t s.contacts id made
              ∙ (ap (λ o. if u.labels.id == id then some t else o) (r.find id)
                  ∙ find_updated u m none id (sym (r.find u.labels.id) ∙ e));
          time = r.time;
          pending = r.pending;
          deadline = r.deadline;
        },
      )
