-- ===== src/Radar/Grouping/Members.antt =====
-- The members of a group, and those it misses.
use skyeye.Common.{
  ℕ, ◌+◌, ◌≤◌, ◌<◌, ◌≡◌, refl, ap, ◌⊎◌, inl, inr, true, false, List, [], ◌∷◌, ◌++◌, arith,
  if◌then◌else◌, nat_Eq, nat_eq_iff, map, length, contains, contains-append,
}
use skyeye.Trackfiles.{Trackfile}
use skyeye.Radar.Grouping.{Group, contacts, id_of, object_ids, append_contact}

-- The contacts of the list whose ID the group does not have yet.
pub missing : List Trackfile → List ℕ → ℕ
missing [] ids = 0
missing (t ∷ ts) ids = (if contains ids t.contact.id then 0 else 1) + missing ts ids

abbrev pub extend : Group → List Trackfile → Group
extend g new = record g { rest = g.rest ++ new }

pub map_append : (xs ys : List Trackfile) → map id_of (xs ++ ys) ≡ map id_of xs ++ map id_of ys
map_append [] ys = refl
map_append (x ∷ xs) ys = ap (◌∷◌ x.contact.id) (map_append xs ys)

-- Members stay members.
pub contains-extend :
    (g : Group) (new : List Trackfile) (k : ℕ)
    → contains (object_ids g) k ≡ true
    → contains (object_ids (extend g new)) k ≡ true
unfolding object_ids
contains-extend g new k h =
    rw map_append (ground (arith, contains-append (map id_of (contacts g)) (map id_of new) k))

pub missing_mono :
    (ts : List Trackfile) (g : Group) (new : List Trackfile)
    → missing ts (object_ids (extend g new)) ≤ missing ts (object_ids g)
unfolding missing
missing_mono [] g new = omega arith
missing_mono (t ∷ ts) g new =
    ground (arith, contains-extend g new t.contact.id, missing_mono ts g new)

pub missing_le_length : (ts : List Trackfile) (ids : List ℕ) → missing ts ids ≤ length ts
unfolding missing
missing_le_length [] ids = omega arith
missing_le_length (t ∷ ts) ids = ground (arith, missing_le_length ts ids)

-- Whether a list holds a contact with this ID.
abbrev pub HasId : ℕ → List Trackfile → Type 0
HasId k [] = ⊥
HasId k (t ∷ ts) = (t.contact.id ≡ k) ⊎ HasId k ts

pub contains_last :
    (o : Trackfile) (g : Group) → contains (object_ids (append_contact o g)) o.contact.id ≡ true
unfolding object_ids contains
contains_last o g = rw map_append (
    ground (
      arith,
      contains-append (map id_of (contacts g)) (o.contact.id ∷ []) o.contact.id,
      nat_eq_iff o.contact.id o.contact.id,
    ))

-- A contact that joins is one contact less to miss.
pub missing_append :
    (ts : List Trackfile) (o : Trackfile) (g : Group)
    → HasId o.contact.id ts
    → contains (object_ids g) o.contact.id ≡ false
    → missing ts (object_ids (append_contact o g)) < missing ts (object_ids g)
unfolding missing
missing_append [] o g h e = absurd h
missing_append (t ∷ ts) o g (inl same) e = ground (
  arith,
  contains_last o g,
  ap (contains (object_ids g)) same,
  ap (contains (object_ids (append_contact o g))) same,
  missing_mono ts g (o ∷ []),
)
missing_append (t ∷ ts) o g (inr h) e =
    ground (arith, contains-extend g (o ∷ []) t.contact.id, missing_append ts o g h e)

-- One of the contacts is this one.
abbrev pub IsIn : Trackfile → List Trackfile → Type 0
IsIn t [] = ⊥
IsIn t (x ∷ xs) = (x ≡ t) ⊎ IsIn t xs

pub IsIn-append : (t : Trackfile) (xs ys : List Trackfile) → IsIn t xs → IsIn t (xs ++ ys)
IsIn-append t [] ys h = absurd h
IsIn-append t (x ∷ xs) ys (inl e) = inl e
IsIn-append t (x ∷ xs) ys (inr h) = inr (IsIn-append t xs ys h)

pub IsIn-last : (t : Trackfile) (xs : List Trackfile) → IsIn t (xs ++ t ∷ [])
IsIn-last t [] = inl refl
IsIn-last t (x ∷ xs) = inr (IsIn-last t xs)
