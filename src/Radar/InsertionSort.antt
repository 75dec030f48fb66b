-- ===== src/Radar/InsertionSort.antt =====
-- A sort that meets the laws of skyeye.Radar.Nearby's parameter Sort.
use skyeye.Common.{suc, ◌≡◌, refl, ap, ◌∙◌, ◌↔◌, inl, inr, List, [], ◌∷◌, IsOneOf, length}
use skyeye.Radar.Grouping.{Group}
use skyeye.Radar.Nearby.{Sort, Comparison, before, same, after}

-- By the comparison of a group of the slice with the one to insert.
unfoldable pub place : Comparison → Group → Group → List Group → List Group → List Group
place before g h hs rest = h ∷ rest
place same g h hs rest = h ∷ rest
place after g h hs rest = g ∷ h ∷ hs

unfoldable pub put : (Group → Group → Comparison) → Group → List Group → List Group
unfolding place
put compare g [] = g ∷ []
put compare g (h ∷ hs) = place (compare h g) g h hs (put compare g hs)

unfoldable pub sort_groups : (Group → Group → Comparison) → List Group → List Group
unfolding put
sort_groups compare [] = []
sort_groups compare (g ∷ gs) = put compare g (sort_groups compare gs)

IsOneOf-swap :
    (g h x : Group) (hs rest : List Group)
    → IsOneOf x rest ↔ IsOneOf x (g ∷ hs)
    → IsOneOf x (h ∷ rest) ↔ IsOneOf x (g ∷ h ∷ hs)
unfolding IsOneOf
IsOneOf-swap g h x hs rest e = (
  λ y. elim y [
    | inl is_h ↦ inr (inl is_h)
    | inr later ↦ elim (e.0 later) [ inl is_g ↦ inl is_g | inr z ↦ inr (inr z) ]
  ],
  λ y. elim y [
    | inl is_g ↦ inr (e.1 (inl is_g))
    | inr z ↦ elim z [ inl is_h ↦ inl is_h | inr later ↦ inr (e.1 (inr later)) ]
  ],
)

place-IsOneOf :
    (c : Comparison) (g h x : Group) (hs rest : List Group)
    → IsOneOf x rest ↔ IsOneOf x (g ∷ hs)
    → IsOneOf x (place c g h hs rest) ↔ IsOneOf x (g ∷ h ∷ hs)
unfolding place
place-IsOneOf before g h x hs rest e = IsOneOf-swap g h x hs rest e
place-IsOneOf same g h x hs rest e = IsOneOf-swap g h x hs rest e
place-IsOneOf after g h x hs rest e = (λ y. y, λ y. y)

put-IsOneOf :
    (compare : Group → Group → Comparison) (g x : Group) (hs : List Group)
    → IsOneOf x (put compare g hs) ↔ IsOneOf x (g ∷ hs)
unfolding put
put-IsOneOf compare g x [] = (λ y. y, λ y. y)
put-IsOneOf compare g x (h ∷ hs) =
    place-IsOneOf (compare h g) g h x hs (put compare g hs) (put-IsOneOf compare g x hs)

IsOneOf-cons :
    (g x : Group) (gs hs : List Group)
    → IsOneOf x gs ↔ IsOneOf x hs
    → IsOneOf x (g ∷ gs) ↔ IsOneOf x (g ∷ hs)
unfolding IsOneOf
IsOneOf-cons g x gs hs e = (
  λ y. elim y [ inl is_g ↦ inl is_g | inr later ↦ inr (e.0 later) ],
  λ y. elim y [ inl is_g ↦ inl is_g | inr later ↦ inr (e.1 later) ],
)

pub sort_groups-IsOneOf :
    (compare : Group → Group → Comparison) (gs : List Group) (x : Group)
    → IsOneOf x (sort_groups compare gs) ↔ IsOneOf x gs
unfolding sort_groups
sort_groups-IsOneOf compare [] x = (λ y. y, λ y. y)
sort_groups-IsOneOf compare (g ∷ gs) x =
    let inserted = put-IsOneOf compare g x (sort_groups compare gs) in
    let sorted = IsOneOf-cons g x (sort_groups compare gs) gs (sort_groups-IsOneOf compare gs x) in
    (λ y. sorted.0 (inserted.0 y), λ y. inserted.1 (sorted.1 y))

length-place :
    (c : Comparison) (g h : Group) (hs rest : List Group)
    → length rest ≡ suc (length hs)
    → length (place c g h hs rest) ≡ suc (suc (length hs))
unfolding place
length-place before g h hs rest e = ap suc e
length-place same g h hs rest e = ap suc e
length-place after g h hs rest e = refl

length-put :
    (compare : Group → Group → Comparison) (g : Group) (hs : List Group)
    → length (put compare g hs) ≡ suc (length hs)
unfolding put
length-put compare g [] = refl
length-put compare g (h ∷ hs) =
    length-place (compare h g) g h hs (put compare g hs) (length-put compare g hs)

pub length-sort_groups :
    (compare : Group → Group → Comparison) (gs : List Group)
    → length (sort_groups compare gs) ≡ length gs
unfolding sort_groups
length-sort_groups compare [] = refl
length-sort_groups compare (g ∷ gs) =
    length-put compare g (sort_groups compare gs) ∙ ap suc (length-sort_groups compare gs)

abbrev pub insertion_sort : Sort
insertion_sort = record {
  sort_func = sort_groups;
  sort_func-IsOneOf = sort_groups-IsOneOf;
  length-sort_func = length-sort_groups;
}
