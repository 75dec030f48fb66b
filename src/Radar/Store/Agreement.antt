-- ===== src/Radar/Store/Agreement.antt =====
-- What it means that the scope and the store agree on an event.
use skyeye.Common.{ℕ, ◌≡◌, some, nat_Eq}
use skyeye.Coalitions.{Coalition}
use skyeye.Radar.Database.{Names, get_by_id}
use skyeye.Radar.Database.Lookup.{IsIndexed}
use skyeye.Radar.Grouping.{Sensors}
use skyeye.Radar.Scope.{Scope}
use skyeye.Radar.Scope.Collection.{IsStore}
use skyeye.Radar.Store.{Event, updated, handle, Store, step}
use skyeye.Radar.Store.Indexed.{IsCoalition}

-- The invariant: the IDs are those of the contacts, and the index has a map for each coalition.
pub record IsSound (s : Scope) : Type 0 where
  pub store : IsStore s.contacts.contacts
  pub index : (c : Coalition) → IsCoalition c → IsIndexed c s.contacts

-- The scope holds what the store does.
pub record Refines (s : Scope) (m : Store) : Type 0 where
  pub find : (id : ℕ) → get_by_id id s.contacts ≡ m.find id
  pub time : s.mission_time ≡ m.time
  pub pending : s.pending_fades ≡ m.pending
  pub deadline : s.fade_deadline ≡ m.deadline

-- The contact of an update has a coalition.
abbrev pub IsPossible : Event → Type 0
IsPossible (updated u) = IsCoalition u.labels.coalition
IsPossible _ = Unit

module _ (sensors : Sensors) (names : Names) where
  -- The event is handled, and the results agree.
  abbrev pub Agrees : Event → Scope → Store → Type 0
  Agrees e s m =
      (s' : Scope) × (handle sensors names e s ≡ some s') × IsSound s' × Refines s' (step e m)
