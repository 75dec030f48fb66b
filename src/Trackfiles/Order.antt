-- ===== src/Trackfiles/Order.antt =====
-- A track holds at most four frames, the newest first.
use skyeye.Common.{
  ℕ, zero, suc, ◌≤◌, ◌≡◌, refl, inl, inr, false, List, [], ◌∷◌, arith, if◌then◌else◌, Bool-cases,
  length, take, All,
}
use skyeye.Trackfiles.{Frame, Trackfile, max_length, is_outdated, update, last_known, updates}

-- Times fall along the track.
abbrev pub IsNewestFirst : List Frame → Type 0
IsNewestFirst [] = Unit
IsNewestFirst (f ∷ fs) = All (λ g. g.time ≤ f.time) fs × IsNewestFirst fs

pub record IsTrack (t : Trackfile) : Type 0 where
  pub short : length t.track ≤ max_length
  pub ordered : IsNewestFirst t.track

take-All :
    (n t : ℕ) (fs : List Frame) → All (λ g. g.time ≤ t) fs → All (λ g. g.time ≤ t) (take n fs)
take-All zero t fs h = tt
take-All (suc n) t [] h = tt
take-All (suc n) t (f ∷ fs) h = (h.0, take-All n t fs h.1)

take-IsNewestFirst : (n : ℕ) (fs : List Frame) → IsNewestFirst fs → IsNewestFirst (take n fs)
take-IsNewestFirst zero fs h = tt
take-IsNewestFirst (suc n) [] h = tt
take-IsNewestFirst (suc n) (f ∷ fs) h = (take-All n f.time fs h.0, take-IsNewestFirst n fs h.1)

length-take : (n : ℕ) (fs : List Frame) → length (take n fs) ≤ n
length-take zero fs = omega arith
length-take (suc n) [] = omega arith
length-take (suc n) (f ∷ fs) = omega (arith, length-take n fs)

All-mono : (s t : ℕ) (fs : List Frame) → s ≤ t → All (λ g. g.time ≤ s) fs → All (λ g. g.time ≤ t) fs
All-mono s t [] l h = tt
All-mono s t (f ∷ fs) l h = (omega arith, All-mono s t fs l h.1)

push_ordered :
    (f : Frame) (fs : List Frame)
    → is_outdated f fs ≡ false
    → IsNewestFirst fs
    → IsNewestFirst (f ∷ fs)
push_ordered f [] e h = (tt, tt)
push_ordered f (g ∷ gs) e h =
    let l : g.time ≤ f.time = ground arith in ((l, All-mono g.time f.time gs l h.0), h)

-- Update keeps the track at four frames at most, in the order of their times.
pub update-IsTrack : (f : Frame) (t : Trackfile) → IsTrack t → IsTrack (update f t)
unfolding update
update-IsTrack f t v = elim (Bool-cases (is_outdated f t.track)) [
  | inl old ↦ rw old v
  | inr new ↦ rw new (record {
    short = length-take max_length (f ∷ t.track);
    ordered = take-IsNewestFirst max_length (f ∷ t.track) (push_ordered f t.track new v.ordered);
  })
]

update_time :
    (f : Frame) (t : Trackfile)
    → (f.time ≤ (last_known (update f t)).time)
      × ((last_known t).time ≤ (last_known (update f t)).time)
unfolding update
update_time f t = go t.track refl
  where
    go :
        (fs : List Frame)
        → t.track ≡ fs
        → (f.time ≤ (last_known (update f t)).time)
          × ((last_known t).time ≤ (last_known (update f t)).time)
    go [] e = ground arith
    go (g ∷ gs) e = ground arith

updates_time :
    (fs : List Frame) (t : Trackfile) → (last_known t).time ≤ (last_known (updates fs t)).time
unfolding updates
updates_time [] t = omega arith
updates_time (f ∷ fs) t = omega (arith, (update_time f t).1, updates_time fs (update f t))

-- Frames may arrive in any order: the track stays short and sorted, and what it reports as last
-- known is at least as new as every frame that arrived.
pub updates_newest :
    (fs : List Frame) (t : Trackfile)
    → IsTrack t
    → IsTrack (updates fs t) × All (λ f. f.time ≤ (last_known (updates fs t)).time) fs
unfolding updates
updates_newest [] t v = (v, tt)
updates_newest (f ∷ fs) t v =
    let (kept, newest) = updates_newest fs (update f t) (update-IsTrack f t v) in
    (kept, (omega (arith, (update_time f t).0, updates_time fs (update f t)), newest))

-- What is last known is the frame that arrived, unless a newer one was there before.
pub last_known-update :
    (f : Frame) (t : Trackfile)
    → last_known (update f t) ≡ (if is_outdated f t.track then last_known t else f)
unfolding update
last_known-update f t = ground arith
