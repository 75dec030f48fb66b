-- ===== src/Radar/Scope/Collection.antt =====
-- The contacts by their IDs: the invariant of the handlers, and what garbage collection removes.
use skyeye.Common.{
  ℕ, ◌≡◌, refl, ap, ◌∙◌, inl, inr, List, [], ◌∷◌, Option, none, some, arith, if◌then◌else◌, ◌==◌,
  nat_Eq, nat_eq, nat_eq_iff, Bool-cases, Option-cases, bind-eq-some, length, lookup, insert,
  delete, lookup-insert, lookup-delete, All,
}
use skyeye.Trackfiles.{Labels, Trackfile, new_trackfile, update}
use skyeye.Radar.Database.{Database, Names, get_by_id, set, delete_contact}
use skyeye.Radar.Database.Lookup.{get_by_id-delete_contact, set_contacts}
use skyeye.Radar.Scope.{
  Scope, Updated, is_expired, collect, handle_update, handle_garbage_collection,
}

-- Every key stands once.
abbrev pub IsUnique : List (ℕ × Trackfile) → Type 0
IsUnique [] = Unit
IsUnique ((k, t) ∷ m) = (lookup k m ≡ none) × IsUnique m

-- Each trackfile stands under its own ID.
abbrev pub IsKeyed : List (ℕ × Trackfile) → Type 0
IsKeyed = All (λ (x : ℕ × Trackfile). x.1.contact.id ≡ x.0)

pub record IsStore (m : List (ℕ × Trackfile)) : Type 0 where
  pub unique : IsUnique m
  pub keyed : IsKeyed m

insert-IsUnique :
    (k : ℕ) (t : Trackfile) (m : List (ℕ × Trackfile)) → IsUnique m → IsUnique (insert k t m)
unfolding insert lookup
insert-IsUnique k t [] u = (refl, tt)
insert-IsUnique k t ((j, v) ∷ m) u = elim (Bool-cases (j == k)) [
  | inl same ↦ rw same (rw (← (nat_eq_iff j k).0 same) u)
  | inr other ↦
      rw other
        (ground (arith, u.0, lookup-insert k j t m, nat_eq_iff j k), insert-IsUnique k t m u.1)
]

insert-IsKeyed :
    (k : ℕ) (t : Trackfile) (m : List (ℕ × Trackfile))
    → t.contact.id ≡ k
    → IsKeyed m
    → IsKeyed (insert k t m)
unfolding insert
insert-IsKeyed k t [] e h = (e, tt)
insert-IsKeyed k t ((j, v) ∷ m) e h = elim (Bool-cases (j == k)) [
  | inl same ↦ rw same (e, h.1)
  | inr other ↦ rw other (h.0, insert-IsKeyed k t m e h.1)
]

delete-IsUnique : (k : ℕ) (m : List (ℕ × Trackfile)) → IsUnique m → IsUnique (delete k m)
unfolding delete
delete-IsUnique k [] u = tt
delete-IsUnique k ((j, v) ∷ m) u = elim (Bool-cases (j == k)) [
  | inl same ↦ rw same (delete-IsUnique k m u.1)
  | inr other ↦ rw other (ground (arith, u.0, lookup-delete k j m), delete-IsUnique k m u.1)
]

delete-IsKeyed : (k : ℕ) (m : List (ℕ × Trackfile)) → IsKeyed m → IsKeyed (delete k m)
unfolding delete
delete-IsKeyed k [] h = tt
delete-IsKeyed k ((j, v) ∷ m) h = elim (Bool-cases (j == k)) [
  | inl same ↦ rw same (delete-IsKeyed k m h.1)
  | inr other ↦ rw other (h.0, delete-IsKeyed k m h.1)
]

pub delete_contact-IsStore :
    (id : ℕ) (d : Database) → IsStore d.contacts → IsStore (delete_contact id d).0.contacts
unfolding delete_contact
delete_contact-IsStore id d v = elim (Option-cases (lookup id d.contacts)) [
  | inl e ↦ rw (e, delete_contact) v
  | inr (t, e) ↦
      rw (e, delete_contact)
        (record {
          unique = delete-IsUnique id d.contacts v.unique;
          keyed = delete-IsKeyed id d.contacts v.keyed;
        })
]

insert-IsStore :
    (t : Trackfile) (m : List (ℕ × Trackfile)) → IsStore m → IsStore (insert t.contact.id t m)
insert-IsStore t m v = record {
  unique = insert-IsUnique t.contact.id t m v.unique;
  keyed = insert-IsKeyed t.contact.id t m refl v.keyed;
}

pub keyed_lookup :
    (id : ℕ) (m : List (ℕ × Trackfile)) {t : Trackfile}
    → IsKeyed m
    → lookup id m ≡ some t
    → t.contact.id ≡ id
unfolding lookup
keyed_lookup id [] h e = absurd (ground arith)
keyed_lookup id ((j, v) ∷ m) {t} h e = elim (Bool-cases (j == id)) [
  | inl same ↦ let q : some v ≡ some t = rw same at e in ground (arith, h.0, nat_eq_iff j id)
  | inr other ↦ keyed_lookup id m h.1 (rw other at e)
]

update_contact : (u : Updated) (t : Trackfile) → (update u.frame t).contact ≡ t.contact
unfolding update
update_contact u t = ground arith

-- An update keeps every trackfile under its own ID, and no ID twice.
pub handle_update-IsStore :
    (names : Names) (u : Updated) (s : Scope) {s' : Scope}
    → handle_update names u s ≡ some s'
    → IsStore s.contacts.contacts
    → IsStore s'.contacts.contacts
unfolding handle_update get_by_id
handle_update-IsStore names u s {s'} h v =
    elim (Option-cases (lookup u.labels.id s.contacts.contacts)) [
      | inr (t, e) ↦
          let id : (update u.frame t).contact.id ≡ u.labels.id =
            ap (λ (l : Labels). l.id) (update_contact u t)
            ∙ keyed_lookup u.labels.id s.contacts.contacts v.keyed e in
          let q : s'.contacts.contacts ≡ insert u.labels.id (update u.frame t) s.contacts.contacts =
            ground arith in
          rw (q, ← id) (insert-IsStore (update u.frame t) s.contacts.contacts v)
      | inl e ↦
          let t = new_trackfile u.labels in
          let (d, p, r) = bind-eq-some (set names t s.contacts) _ (rw (e, handle_update) at h) in
          let q : s'.contacts.contacts ≡ insert t.contact.id t s.contacts.contacts =
            ground (arith, set_contacts names t s.contacts p) in
          rw q (insert-IsStore t s.contacts.contacts v)
    ]

module _ (mission_time : ℕ) where
  -- What garbage collection leaves under an ID.
  abbrev pub unless_expired : Option Trackfile → Option Trackfile
  unless_expired none = none
  unless_expired (some t) = if is_expired mission_time t then none else some t

  collect-IsStore :
      (m : List (ℕ × Trackfile)) (d : Database)
      → IsStore d.contacts
      → IsStore (collect mission_time m d).0.contacts
  unfolding collect
  collect-IsStore [] d v = v
  collect-IsStore ((key, t) ∷ rest) d v = elim (Bool-cases (is_expired mission_time t)) [
    | inl old ↦ rw old (
        collect-IsStore rest (delete_contact t.contact.id d).0
          (delete_contact-IsStore t.contact.id d v))
    | inr fresh ↦ rw fresh (collect-IsStore rest d v)
  ]

  get_by_id-collect :
      (id : ℕ) (m : List (ℕ × Trackfile)) (d : Database)
      → IsUnique m
      → IsKeyed m
      → get_by_id id (collect mission_time m d).0 ≡ elim (lookup id m) [
        | none ↦ get_by_id id d
        | some t ↦ if is_expired mission_time t then none else get_by_id id d
      ]
  unfolding collect lookup
  get_by_id-collect id [] d u k = refl
  get_by_id-collect id ((key, t) ∷ rest) d u k = ground (
    arith,
    k.0,
    u.0,
    nat_eq_iff key id,
    get_by_id-delete_contact t.contact.id id d,
    get_by_id-collect id rest d u.1 k.1,
    get_by_id-collect id rest (delete_contact t.contact.id d).0 u.1 k.1,
    ap (λ i. lookup i rest) {x = key} {y = id},
  )

-- Garbage collection waits while fades are pending. Otherwise it removes each contact that was last
-- seen (at a time that is not the zero time) more than a minute before the mission time, and no
-- other; every contact keeps its own ID.
pub get_by_id-handle_garbage_collection :
    (s : Scope) (id : ℕ)
    → IsStore s.contacts.contacts
    → (get_by_id id (handle_garbage_collection s).0.contacts ≡ (
        if nat_eq (length s.pending_fades) 0
        then unless_expired s.mission_time (get_by_id id s.contacts)
        else get_by_id id s.contacts))
      × IsStore (handle_garbage_collection s).0.contacts.contacts
unfolding handle_garbage_collection get_by_id
get_by_id-handle_garbage_collection s id v = elim (Bool-cases (nat_eq (length s.pending_fades) 0)) [
  | inr pending ↦ rw pending (refl, v)
  | inl settled ↦ rw settled (
    get_by_id-collect s.mission_time id s.contacts.contacts s.contacts v.unique v.keyed
        ∙ ground arith,
    collect-IsStore s.mission_time s.contacts.contacts s.contacts v,
  )
]
