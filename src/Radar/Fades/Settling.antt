-- ===== src/Radar/Fades/Settling.antt =====
-- Every fade is dealt with once the fades have settled.
use skyeye.Common.{
  ℕ, ◌+◌, ◌*◌, ◌<◌, ◌≡◌, refl, ap, ◌∙◌, inl, inr, not, ◌&&◌, ◌||◌, List, [], ◌∷◌, ◌++◌, Option,
  none, arith, nat_eq, ltb, if◌then◌else◌, nat_Eq, Bool-cases, length, contains, All,
}
use skyeye.Trackfiles.{Trackfile}
use skyeye.Radar.Database.{get_by_id}
use skyeye.Radar.Grouping.{Sensors}
use skyeye.Radar.Scope.{Scope, second}
use skyeye.Radar.Fades.{FadeEvent, fade, fade_tick, handle_faded, collect_faded, collect_faded_all}
use skyeye.Radar.Fades.Removal.{get_by_id-delete_all}

abbrev pub fades_of : List FadeEvent → List ℕ
fades_of [] = []
fades_of (fade id t ∷ es) = id ∷ fades_of es
fades_of (fade_tick t ∷ es) = fades_of es

-- A fade is fifteen seconds older than `now`.
abbrev pub IsSettledBy : ℕ → FadeEvent → Type 0
IsSettledBy now (fade id t) = t + 15 * second < now
IsSettledBy now (fade_tick t) = Unit

-- What is left under an ID when the pending fades are dealt with.
abbrev pub left : ℕ → Scope → Option Trackfile
left j s = if contains s.pending_fades j then none else get_by_id j s.contacts

contains-last : (xs : List ℕ) (k j : ℕ) → contains (xs ++ k ∷ []) j ≡ (contains xs j || nat_eq k j)
unfolding contains
contains-last [] k j = ground arith
contains-last (x ∷ xs) k j = ground (arith, contains-last xs k j)

module _ (sensors : Sensors) where
  left-collect_faded :
      (e : FadeEvent) (s : Scope) (j : ℕ)
      → left j (collect_faded sensors e s).0
        ≡ (if contains (fades_of (e ∷ [])) j then none else left j s)
  unfolding collect_faded contains handle_faded
  left-collect_faded (fade id t) s j = ground (arith, contains-last s.pending_fades id j)
  left-collect_faded (fade_tick t) s j =
      elim (Bool-cases (not (nat_eq (length s.pending_fades) 0) && ltb s.fade_deadline t)) [
        | inl due ↦ rw due (get_by_id-delete_all s.pending_fades s.contacts j)
        | inr wait ↦ rw wait refl
      ]

  left-collect_faded_all :
      (es : List FadeEvent) (s : Scope) (j : ℕ)
      → left j (collect_faded_all sensors es s).0
        ≡ (if contains (fades_of es) j then none else left j s)
  unfolding collect_faded_all contains
  left-collect_faded_all [] s j = refl
  left-collect_faded_all (fade id t ∷ es) s j =
      left-collect_faded_all es (collect_faded sensors (fade id t) s).0 j
      ∙ ground (arith, left-collect_faded (fade id t) s j)
  left-collect_faded_all (fade_tick t ∷ es) s j =
      left-collect_faded_all es (collect_faded sensors (fade_tick t) s).0 j
      ∙ ground (arith, left-collect_faded (fade_tick t) s j)

  deadline-collect_faded :
      (e : FadeEvent) (s : Scope) (now : ℕ)
      → IsSettledBy now e
      → s.fade_deadline < now
      → (collect_faded sensors e s).0.fade_deadline < now
  unfolding collect_faded handle_faded
  deadline-collect_faded (fade id t) s now h l = h
  deadline-collect_faded (fade_tick t) s now h l = ground arith

  deadline-collect_faded_all :
      (es : List FadeEvent) (s : Scope) (now : ℕ)
      → All (IsSettledBy now) es
      → s.fade_deadline < now
      → (collect_faded_all sensors es s).0.fade_deadline < now
  unfolding collect_faded_all
  deadline-collect_faded_all [] s now h l = l
  deadline-collect_faded_all (e ∷ es) s now h l =
      deadline-collect_faded_all es (collect_faded sensors e s).0 now h.1
        (deadline-collect_faded e s now h.0 l)

  tick_settles :
      (s : Scope) (now : ℕ)
      → s.fade_deadline < now
      → (collect_faded sensors (fade_tick now) s).0.pending_fades ≡ []
  unfolding collect_faded
  tick_settles s now l = go s.pending_fades refl
    where
      go :
          (ids : List ℕ)
          → s.pending_fades ≡ ids
          → (collect_faded sensors (fade_tick now) s).0.pending_fades ≡ []
      go [] e = ground arith
      go (id ∷ ids) e = ground (arith, ap length e)

  -- Fades and ticks may come in any order: at the first tick that is more than fifteen seconds
  -- later than every fade (and than a deadline set before them), no fade is pending, and the
  -- database has lost the contacts that faded, those that were pending before, and no other.
  pub fades_settle :
      (es : List FadeEvent) (s : Scope) (now : ℕ) (j : ℕ)
      → s.fade_deadline < now
      → All (IsSettledBy now) es
      → let r = (collect_faded sensors (fade_tick now) (collect_faded_all sensors es s).0).0 in
        (r.pending_fades ≡ [])
        × (get_by_id j r.contacts ≡ (
            if contains (fades_of es) j || contains s.pending_fades j
            then none
            else get_by_id j s.contacts))
  unfolding contains
  fades_settle es s now j l h =
      let s1 = (collect_faded_all sensors es s).0 in
      let none_pending = tick_settles s1 now (deadline-collect_faded_all es s now h l) in
      (
        none_pending,
        ground (
          arith,
          ap (λ ids. contains ids j) none_pending,
          left-collect_faded (fade_tick now) s1 j,
          left-collect_faded_all es s j,
        ),
      )
