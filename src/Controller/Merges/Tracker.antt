-- ===== src/Controller/Merges/Tracker.antt =====
-- The merge tracker as a relation: what each operation does to it, and the map's invariant.
use skyeye.Common.{
  ℕ, ◌≡◌, ◌≢◌, refl, ap, ◌∙◌, inl, inr, false, not, ◌&&◌, ◌||◌, List, [], ◌∷◌, none, some, arith,
  nat_eq, nat_eq_iff, if◌then◌else◌, nat_Eq, Bool-cases, Option-cases, contains, add, discard,
  lookup, insert, delete, contains-add, contains-discard, lookup-insert, lookup-delete,
}
use skyeye.Controller.Merges.{
  Merged, or_empty, merge, is_merged, put, separate, entry_unless_empty, remove_friend, remove,
  keep,
}

-- Every hostile stands once, and with a friend at least.
abbrev pub IsTracker : Merged → Type 0
IsTracker [] = Unit
IsTracker ((hostile, ids) ∷ m) = (lookup hostile m ≡ none) × (ids ≢ []) × IsTracker m

-- Merging a pair makes it merged, and no other.
pub is_merged-merge :
    (h f j g : ℕ) (m : Merged)
    → is_merged j g (merge h f m) ≡ (is_merged j g m || (nat_eq h j && nat_eq f g))
unfolding is_merged merge
is_merged-merge h f j g m = ground (
  arith,
  lookup-insert h j (add f (or_empty (lookup h m))) m,
  contains-add f g (or_empty (lookup h m)),
  nat_eq_iff h j,
  ap (λ i. lookup i m) {x = h} {y = j},
)

is_merged-put :
    (h j g : ℕ) (ids : List ℕ) (m : Merged)
    → is_merged j g (put h ids m) ≡ (if nat_eq h j then contains ids g else is_merged j g m)
unfolding is_merged contains
is_merged-put h j g [] m = ground (arith, lookup-delete h j m)
is_merged-put h j g (id ∷ ids) m = ground (arith, lookup-insert h j (id ∷ ids) m)

-- Separating a pair ends its merge, and no other.
pub is_merged-separate :
    (h f j g : ℕ) (m : Merged)
    → is_merged j g (separate h f m) ≡ (is_merged j g m && not (nat_eq h j && nat_eq f g))
unfolding is_merged separate contains
is_merged-separate h f j g m = elim (Option-cases (lookup h m)) [
  | inl e ↦ rw (e, separate) (missing e)
  | inr (ids, e) ↦ rw (e, separate) (is_merged-put h j g (discard f ids) m ∙ found ids e)
]
  where
    missing :
        lookup h m ≡ none → is_merged j g m ≡ (is_merged j g m && not (nat_eq h j && nat_eq f g))
    missing e = ground (arith, e, nat_eq_iff h j, ap (λ i. lookup i m) {x = h} {y = j})

    found :
        (ids : List ℕ)
        → lookup h m ≡ some ids
        → (if nat_eq h j then contains (discard f ids) g else is_merged j g m)
          ≡ (is_merged j g m && not (nat_eq h j && nat_eq f g))
    found ids e =
        ground
          (arith, e, nat_eq_iff h j, contains-discard f g ids, ap (λ i. lookup i m) {x = h} {y = j})

pub is_merged-keep :
    (ids : List ℕ) (j g : ℕ) (m : Merged)
    → is_merged j g (keep ids m) ≡ (contains ids j && is_merged j g m)
unfolding is_merged keep lookup contains
is_merged-keep ids j g [] = ground arith
is_merged-keep ids j g ((h, fs) ∷ m) =
    ground (arith, is_merged-keep ids j g m, nat_eq_iff h j, ap (contains ids) {x = h} {y = j})

lookup-entry :
    (h j : ℕ) (ids : List ℕ) (m : Merged)
    → lookup h m ≡ none
    → or_empty (lookup j (entry_unless_empty h ids m))
      ≡ (if nat_eq h j then ids else or_empty (lookup j m))
unfolding lookup
lookup-entry h j [] m e = ground (arith, e, nat_eq_iff h j, ap (λ i. lookup i m) {x = h} {y = j})
lookup-entry h j (id ∷ ids) m e = ground arith

entry_none :
    (h j : ℕ) (ids : List ℕ) (m : Merged)
    → lookup j m ≡ none
    → nat_eq h j ≡ false
    → lookup j (entry_unless_empty h ids m) ≡ none
unfolding lookup
entry_none h j [] m e d = e
entry_none h j (id ∷ ids) m e d = rw d e

remove_friend-none :
    (id j : ℕ) (m : Merged) → lookup j m ≡ none → lookup j (remove_friend id m) ≡ none
unfolding remove_friend lookup
remove_friend-none id j [] e = refl
remove_friend-none id j ((h, ids) ∷ m) e = elim (Bool-cases (nat_eq h j)) [
  | inl same ↦ absurd (ground arith)
  | inr other ↦
      entry_none h j (discard id ids) (remove_friend id m)
        (remove_friend-none id j m (rw other at e)) other
]

is_merged-remove_friend :
    (id j g : ℕ) (m : Merged)
    → IsTracker m
    → is_merged j g (remove_friend id m) ≡ (is_merged j g m && not (nat_eq id g))
unfolding is_merged remove_friend lookup contains
is_merged-remove_friend id j g [] v = ground arith
is_merged-remove_friend id j g ((h, ids) ∷ m) v =
    ap (λ xs. contains xs g)
      (lookup-entry h j (discard id ids) (remove_friend id m) (remove_friend-none id h m v.0))
    ∙ ground (arith, contains-discard id g ids, is_merged-remove_friend id j g m v.2)

-- Removing an ID removes its merges as a hostile, if it has any, and else those as a friendly.
pub is_merged-remove :
    (id j g : ℕ) (m : Merged)
    → IsTracker m
    → is_merged j g (remove id m) ≡ (
        is_merged j g m && not (elim (lookup id m) [ none ↦ nat_eq id g | some ids ↦ nat_eq id j ]))
unfolding is_merged remove contains
is_merged-remove id j g m v = elim (Option-cases (lookup id m)) [
  | inl e ↦ rw (e, remove) (is_merged-remove_friend id j g m v)
  | inr (ids, e) ↦ rw (e, remove) (is_merged-put id j g [] m ∙ gone)
]
  where
    gone : (if nat_eq id j then false else is_merged j g m) ≡ (is_merged j g m && not (nat_eq id j))
    gone = ground arith

insert-IsTracker :
    (h id : ℕ) (ids : List ℕ) (m : Merged) → IsTracker m → IsTracker (insert h (id ∷ ids) m)
unfolding insert lookup
insert-IsTracker h id ids [] v = (refl, (λ e. cc), tt)
insert-IsTracker h id ids ((j, fs) ∷ m) v = elim (Bool-cases (nat_eq j h)) [
  | inl same ↦ rw same (rw (← (nat_eq_iff j h).0 same) v.0, (λ e. cc), v.2)
  | inr other ↦ rw other (
    ground (arith, v.0, lookup-insert h j (id ∷ ids) m, nat_eq_iff j h),
    v.1,
    insert-IsTracker h id ids m v.2,
  )
]

delete-IsTracker : (h : ℕ) (m : Merged) → IsTracker m → IsTracker (delete h m)
unfolding delete
delete-IsTracker h [] v = tt
delete-IsTracker h ((j, fs) ∷ m) v = elim (Bool-cases (nat_eq j h)) [
  | inl same ↦ rw same (delete-IsTracker h m v.2)
  | inr other ↦ rw other (ground (arith, v.0, lookup-delete h j m), v.1, delete-IsTracker h m v.2)
]

put-IsTracker : (h : ℕ) (ids : List ℕ) (m : Merged) → IsTracker m → IsTracker (put h ids m)
put-IsTracker h [] m v = delete-IsTracker h m v
put-IsTracker h (id ∷ ids) m v = insert-IsTracker h id ids m v

pub merge-IsTracker : (h f : ℕ) (m : Merged) → IsTracker m → IsTracker (merge h f m)
unfolding merge add
merge-IsTracker h f m v = go (or_empty (lookup h m))
  where
    go : (ids : List ℕ) → IsTracker (insert h (add f ids) m)
    go [] = insert-IsTracker h f [] m v
    go (id ∷ ids) = elim (Bool-cases (nat_eq id f)) [
      | inl same ↦ rw same (insert-IsTracker h id ids m v)
      | inr other ↦ rw other (insert-IsTracker h id (add f ids) m v)
    ]

pub separate-IsTracker : (h f : ℕ) (m : Merged) → IsTracker m → IsTracker (separate h f m)
unfolding separate
separate-IsTracker h f m v = elim (Option-cases (lookup h m)) [
  | inl e ↦ rw (e, separate) v
  | inr (ids, e) ↦ rw (e, separate) (put-IsTracker h (discard f ids) m v)
]

entry-IsTracker :
    (h : ℕ) (ids : List ℕ) (m : Merged)
    → lookup h m ≡ none
    → IsTracker m
    → IsTracker (entry_unless_empty h ids m)
entry-IsTracker h [] m e v = v
entry-IsTracker h (id ∷ ids) m e v = (e, (λ e. cc), v)

remove_friend-IsTracker : (id : ℕ) (m : Merged) → IsTracker m → IsTracker (remove_friend id m)
unfolding remove_friend
remove_friend-IsTracker id [] v = tt
remove_friend-IsTracker id ((h, ids) ∷ m) v =
    entry-IsTracker h (discard id ids) (remove_friend id m) (remove_friend-none id h m v.0)
      (remove_friend-IsTracker id m v.2)

pub remove-IsTracker : (id : ℕ) (m : Merged) → IsTracker m → IsTracker (remove id m)
unfolding remove
remove-IsTracker id m v = elim (Option-cases (lookup id m)) [
  | inl e ↦ rw (e, remove) (remove_friend-IsTracker id m v)
  | inr (ids, e) ↦ rw (e, remove) (delete-IsTracker id m v)
]

keep-none : (ids : List ℕ) (j : ℕ) (m : Merged) → lookup j m ≡ none → lookup j (keep ids m) ≡ none
unfolding keep lookup
keep-none ids j [] e = refl
keep-none ids j ((h, fs) ∷ m) e = elim (Bool-cases (nat_eq h j)) [
  | inl same ↦ absurd (ground arith)
  | inr other ↦ ground (arith, keep-none ids j m (rw other at e))
]

pub keep-IsTracker : (ids : List ℕ) (m : Merged) → IsTracker m → IsTracker (keep ids m)
unfolding keep
keep-IsTracker ids [] v = tt
keep-IsTracker ids ((h, fs) ∷ m) v = elim (Bool-cases (contains ids h)) [
  | inl kept ↦ rw kept (keep-none ids h m v.0, v.1, keep-IsTracker ids m v.2)
  | inr gone ↦ rw gone (keep-IsTracker ids m v.2)
]
