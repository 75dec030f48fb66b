-- ===== src/Controller/Handlers/Callbacks.antt =====
-- A contact that faded or was removed leaves no trace in the controller.
use skyeye.Common.{
  ℕ, ◌≡◌, inl, inr, true, false, List, [], ◌∷◌, arith, nat_eq, nat_eq_iff, nat_Eq, Bool-cases,
  contains, lookup-delete,
}
use skyeye.Coalitions.{Coalition}
use skyeye.Controller.Merges.{is_merged}
use skyeye.Controller.Merges.Tracker.{IsTracker, is_merged-remove, remove-IsTracker}
use skyeye.Controller.Threats.{is_on_cooldown, remove_cooldown}
use skyeye.Controller.Handlers.{Controller, remove_id, remove_ids, handle_faded}

-- The ID is not a merged hostile, and has no cooldown.
abbrev pub IsForgotten : ℕ → Controller → Type 0
IsForgotten id c =
    ((g : ℕ) → is_merged id g c.merges ≡ false)
    × ((now : ℕ) → is_on_cooldown now id c.threat_cooldowns ≡ false)

remove_id-IsForgotten :
    (id : ℕ) (c : Controller) → IsTracker c.merges → IsForgotten id (remove_id id c)
unfolding remove_id is_on_cooldown remove_cooldown is_merged contains
remove_id-IsForgotten id c v = (
  λ g. ground (arith, is_merged-remove id id g c.merges v, nat_eq_iff id id),
  λ now. ground (arith, lookup-delete id id c.threat_cooldowns.cooldowns, nat_eq_iff id id),
)

remove_id-keeps :
    (id j : ℕ) (c : Controller)
    → IsTracker c.merges
    → IsForgotten j c
    → IsForgotten j (remove_id id c)
unfolding remove_id is_on_cooldown remove_cooldown
remove_id-keeps id j c v f = (
  λ g. ground (arith, is_merged-remove id j g c.merges v, f.0 g),
  λ now. ground (arith, lookup-delete id j c.threat_cooldowns.cooldowns, f.1 now),
)

remove_ids-IsTracker :
    (ids : List ℕ) (c : Controller) → IsTracker c.merges → IsTracker (remove_ids ids c).merges
unfolding remove_ids remove_id
remove_ids-IsTracker [] c v = v
remove_ids-IsTracker (id ∷ ids) c v =
    remove_ids-IsTracker ids (remove_id id c) (remove-IsTracker id c.merges v)

remove_ids-keeps :
    (ids : List ℕ) (j : ℕ) (c : Controller)
    → IsTracker c.merges
    → IsForgotten j c
    → IsForgotten j (remove_ids ids c)
unfolding remove_ids remove_id
remove_ids-keeps [] j c v f = f
remove_ids-keeps (id ∷ ids) j c v f =
    remove_ids-keeps ids j (remove_id id c) (remove-IsTracker id c.merges v)
      (remove_id-keeps id j c v f)

remove_ids-IsForgotten :
    (ids : List ℕ) (j : ℕ) (c : Controller)
    → IsTracker c.merges
    → contains ids j ≡ true
    → IsForgotten j (remove_ids ids c)
unfolding remove_ids remove_id contains
remove_ids-IsForgotten [] j c v h = absurd (ground arith)
remove_ids-IsForgotten (id ∷ ids) j c v h =
    let v' = remove-IsTracker id c.merges v in
    elim (Bool-cases (nat_eq id j)) [
      | inl same ↦
          let q = (nat_eq_iff id j).0 same in
          rw (← q) (remove_ids-keeps ids id (remove_id id c) v' (remove_id-IsForgotten id c v))
      | inr other ↦ remove_ids-IsForgotten ids j (remove_id id c) v' (rw other at h)
    ]

-- When a group fades, none of its contacts stays merged as a hostile or on cooldown, and the
-- tracker stays well formed.
pub handle_faded_forgets :
    (ids : List ℕ) (coalition : Coalition) (humans nearby : ℕ) (c : Controller) (j : ℕ)
    → IsTracker c.merges
    → contains ids j ≡ true
    → IsForgotten j (handle_faded ids coalition humans nearby c).0
      × IsTracker (handle_faded ids coalition humans nearby c).0.merges
unfolding handle_faded
handle_faded_forgets ids coalition humans nearby c j v h =
    (remove_ids-IsForgotten ids j c v h, remove_ids-IsTracker ids c v)
