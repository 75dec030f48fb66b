-- ===== src/Radar/Store/Fading.antt =====
-- The scope and the store on fades, and on the ticks that settle them.
use skyeye.Common.{
  ℕ, ◌+◌, ◌*◌, ◌≡◌, refl, sym, ap, ◌∙◌, inl, inr, Bool, true, false, not, ◌&&◌, List, [], ◌∷◌, ◌++◌,
  none, some, if◌then◌else◌, nat_Eq, nat_eq, ltb, Bool-cases, length, contains,
}
use skyeye.Radar.Database.{Database, Names}
use skyeye.Radar.Grouping.{Sensors}
use skyeye.Radar.Scope.{Scope, second}
use skyeye.Radar.Scope.Collection.{IsStore, delete_contact-IsStore}
use skyeye.Radar.Fades.{
  FadeEvent, fade, fade_tick, FadedCall, delete_all, handle_faded, collect_faded,
}
use skyeye.Radar.Fades.Removal.{get_by_id-delete_all}
use skyeye.Radar.Store.{faded, handle, Store, step_fade, step, handle_fade}
use skyeye.Radar.Store.Indexed.{delete_all-IsIndexed}
use skyeye.Radar.Store.Agreement.{IsSound, Refines, Agrees}

delete_all-IsStore :
    (ids : List ℕ) (d : Database) → IsStore d.contacts → IsStore (delete_all ids d).contacts
unfolding delete_all
delete_all-IsStore [] d v = v
delete_all-IsStore (id ∷ ids) d v = delete_all-IsStore ids _ (delete_contact-IsStore id d v)

module _ (sensors : Sensors) (names : Names) where
  is_settled : ℕ → List ℕ → ℕ → Bool
  is_settled now pending deadline = not (nat_eq (length pending) 0) && ltb deadline now

  abbrev swept : Scope → Scope
  swept s = record s { contacts = delete_all s.pending_fades s.contacts; pending_fades = [] }

  abbrev swept_store : Store → Store
  swept_store m = record m {
    find = λ id. if contains m.pending id then none else m.find id;
    pending = [];
  }

  handle_fade-settled :
      (now : ℕ) (s : Scope)
      → is_settled now s.pending_fades s.fade_deadline ≡ true
      → handle_fade sensors (fade_tick now) s ≡ swept s
  unfolding collect_faded handle_faded is_settled
  handle_fade-settled now s h =
      let p : collect_faded sensors (fade_tick now) s
          ≡ (swept s, (handle_faded sensors s.pending_fades s).1) =
        rw h refl in
      ap (λ (x : Scope × List FadedCall). x.0) p

  handle_fade-waiting :
      (now : ℕ) (s : Scope)
      → is_settled now s.pending_fades s.fade_deadline ≡ false
      → handle_fade sensors (fade_tick now) s ≡ s
  unfolding collect_faded is_settled
  handle_fade-waiting now s h =
      let p : collect_faded sensors (fade_tick now) s ≡ (s, []) = rw h refl in
      ap (λ (x : Scope × List FadedCall). x.0) p

  step_fade-settled :
      (now : ℕ) (m : Store)
      → is_settled now m.pending m.deadline ≡ true
      → step_fade (fade_tick now) m ≡ swept_store m
  unfolding step_fade is_settled
  step_fade-settled now m h = rw h refl

  step_fade-waiting :
      (now : ℕ) (m : Store)
      → is_settled now m.pending m.deadline ≡ false
      → step_fade (fade_tick now) m ≡ m
  unfolding step_fade is_settled
  step_fade-waiting now m h = rw h refl

  same_settled :
      (now : ℕ) (s : Scope) (m : Store)
      → Refines s m
      → is_settled now m.pending m.deadline ≡ is_settled now s.pending_fades s.fade_deadline
  same_settled now s m r =
      ap (λ ids. is_settled now ids m.deadline) (sym r.pending)
      ∙ ap (λ time. is_settled now s.pending_fades time) (sym r.deadline)

  faded-intro :
      (e : FadeEvent) (s s' : Scope) (m m' : Store)
      → handle_fade sensors e s ≡ s'
      → step_fade e m ≡ m'
      → IsSound s'
      → Refines s' m'
      → Agrees sensors names (faded e) s m
  unfolding handle step
  faded-intro e s s' m m' p q v r = (s', ap some p, v, rw q r)

  swept-IsSound : (s : Scope) → IsSound s → IsSound (swept s)
  swept-IsSound s v = record {
    store = delete_all-IsStore s.pending_fades s.contacts v.store;
    index = λ c h. delete_all-IsIndexed c s.pending_fades s.contacts (v.index c h);
  }

  swept-Refines : (s : Scope) (m : Store) → Refines s m → Refines (swept s) (swept_store m)
  swept-Refines s m r = record {
    find = λ id.
        get_by_id-delete_all s.pending_fades s.contacts id
        ∙ (ap (λ o. if contains s.pending_fades id then none else o) (r.find id)
            ∙ ap (λ ids. if contains ids id then none else m.find id) r.pending);
    time = r.time;
    pending = refl;
    deadline = r.deadline;
  }

  pub faded-Agrees :
      (e : FadeEvent) (s : Scope) (m : Store)
      → IsSound s
      → Refines s m
      → Agrees sensors names (faded e) s m
  faded-Agrees (fade id now) s m v r =
      faded-intro (fade id now) s
        (record s { fade_deadline = now + 15 * second; pending_fades = s.pending_fades ++ id ∷ [] })
        m (record m { deadline = now + 15 * second; pending = m.pending ++ id ∷ [] })
        (unfold collect_faded in refl) (unfold step_fade in refl)
        (record { store = v.store; index = v.index })
        (record {
          find = r.find;
          time = r.time;
          pending = ap (λ ids. ids ++ id ∷ []) r.pending;
          deadline = refl;
        })
  faded-Agrees (fade_tick now) s m v r =
      elim (Bool-cases (is_settled now s.pending_fades s.fade_deadline)) [
        | inl settled ↦
            faded-intro (fade_tick now) s (swept s) m (swept_store m)
              (handle_fade-settled now s settled)
              (step_fade-settled now m (same_settled now s m r ∙ settled)) (swept-IsSound s v)
              (swept-Refines s m r)
        | inr waiting ↦
            faded-intro (fade_tick now) s s m m (handle_fade-waiting now s waiting)
              (step_fade-waiting now m (same_settled now s m r ∙ waiting)) v r
      ]
