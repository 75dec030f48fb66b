-- ===== src/Radar/Database/Lookup.antt =====
-- What the lookups of the contact database find after its updates.
use skyeye.Common.{
  ℕ, ◌≡◌, ◌≢◌, refl, inl, inr, true, [], ◌∷◌, none, some, arith, if◌then◌else◌, ◌==◌, nat_Eq,
  list_Eq, list_eq_iff, Bool-cases, Option-cases, bind-eq-some, contains, lookup, insert, delete,
  lookup-insert, lookup-delete,
}
use skyeye.Common.Text.{Text}
use skyeye.Coalitions.{Coalition}
use skyeye.Trackfiles.{Trackfile}
use skyeye.Radar.Database.{
  Callsigns, Database, or_nil, keys, Names, get_by_id, delete_contact, callsign_of, set, contact_of,
  get_by_callsign_and_coalition,
}

-- Deleting a contact hides it under its ID, and no other contact.
pub get_by_id-delete_contact :
    (id j : ℕ) (d : Database)
    → get_by_id j (delete_contact id d).0 ≡ (if id == j then none else get_by_id j d)
unfolding get_by_id delete_contact
get_by_id-delete_contact id j d = ground (arith, lookup-delete id j d.contacts)

-- The coalitions that the index has a map for.
abbrev pub IsIndexed : Coalition → Database → Type 0
IsIndexed c d = (m : Callsigns) × (lookup c d.callsign_idx ≡ some m)

pub delete_contact-IsIndexed :
    (c : Coalition) (id : ℕ) (d : Database) → IsIndexed c d → IsIndexed c (delete_contact id d).0
unfolding delete_contact
delete_contact-IsIndexed c id d (m, h) = elim (Option-cases (lookup id d.contacts)) [
  | inl e ↦ rw (e, delete_contact) (m, h)
  | inr (t, e) ↦ elim (Option-cases (lookup t.contact.coalition d.callsign_idx)) [
    | inl f ↦ rw (e, delete_contact, f) (m, h)
    | inr (n, f) ↦
        rw (e, delete_contact, f)
          ((
            if t.contact.coalition == c then delete t.contact.name n else m,
            ground (
              arith,
              lookup-insert t.contact.coalition c (delete t.contact.name n) d.callsign_idx,
            ),
          ))
  ]
]

module _ (names : Names) where
  -- The trackfile that was set is found under its ID, and the others are as before.
  pub get_by_id-set :
      (t : Trackfile) (d : Database) {e : Database} (j : ℕ)
      → set names t d ≡ some e
      → get_by_id j e ≡ (if t.contact.id == j then some t else get_by_id j d)
  unfolding get_by_id set
  get_by_id-set t d j h = ground (arith, lookup-insert t.contact.id j t d.contacts)

  pub set_contacts :
      (t : Trackfile) (d : Database) {e : Database}
      → set names t d ≡ some e
      → e.contacts ≡ insert t.contact.id t d.contacts
  unfolding set
  set_contacts t d h = ground arith

  -- set does not panic for a coalition of the index, and keeps the index's coalitions.
  set_total :
      (t : Trackfile) (d : Database)
      → IsIndexed t.contact.coalition d
      → (e : Database) × (set names t d ≡ some e)
  unfolding set
  set_total t d (m, h) = rw (h, set) (_, refl)

  pub set-IsIndexed :
      (c : Coalition) (t : Trackfile) (d : Database) {e : Database}
      → set names t d ≡ some e
      → IsIndexed c d
      → IsIndexed c e
  unfolding set
  set-IsIndexed c t d h (m, i) =
      let (n, f, _) = bind-eq-some (lookup t.contact.coalition d.callsign_idx) _ h in
      (
        if t.contact.coalition == c then insert (callsign_of names t) t.contact.id n else m,
        ground (
          arith,
          lookup-insert t.contact.coalition c (insert (callsign_of names t) t.contact.id n)
              d.callsign_idx,
        ),
      )

  -- A contact that was just set is found by its callsign in its coalition, exactly.
  pub get_by_callsign_and_coalition-set :
      (t : Trackfile) (d : Database) {e : Database}
      → set names t d ≡ some e
      → get_by_callsign_and_coalition names (callsign_of names t) t.contact.coalition e
        ≡ some (callsign_of names t, t)
  unfolding set get_by_callsign_and_coalition
  get_by_callsign_and_coalition-set t d h =
      let (n, f, g) = bind-eq-some (lookup t.contact.coalition d.callsign_idx) _ h in
      ground (
        arith,
        lookup-insert t.contact.id t.contact.id t d.contacts,
        lookup-insert t.contact.coalition t.contact.coalition
            (insert (callsign_of names t) t.contact.id n) d.callsign_idx,
        lookup-insert (callsign_of names t) (callsign_of names t) t.contact.id n,
        list_eq_iff (callsign_of names t) (callsign_of names t),
      )

  -- delete removes the index entry of the contact's whole name, while set wrote it under the
  -- parsed callsign. Where the two differ the entry of a contact that was set and deleted stays
  -- behind: the index still names its ID, and no contact has that ID.
  pub delete_contact_stale :
      (t : Trackfile) (d : Database) {e : Database}
      → callsign_of names t ≢ t.contact.name
      → set names t d ≡ some e
      → let f = (delete_contact t.contact.id e).0 in
        (lookup (callsign_of names t) (or_nil (lookup t.contact.coalition f.callsign_idx))
          ≡ some t.contact.id)
        × (get_by_id t.contact.id f ≡ none)
  unfolding set delete_contact get_by_id
  delete_contact_stale t d ne h =
      let (n, f, g) = bind-eq-some (lookup t.contact.coalition d.callsign_idx) _ h in
      let c = callsign_of names t in
      let n' = insert c t.contact.id n in
      let idx = insert t.contact.coalition n' d.callsign_idx in
      let m = delete t.contact.name n' in
      let k = t.contact.coalition in
      let l1 = lookup-insert t.contact.id t.contact.id t d.contacts in
      let l2 = lookup-insert k k n' d.callsign_idx in
      let l3 = lookup-insert k k m idx in
      let l4 = lookup-delete t.contact.name c n' in
      let l5 = lookup-insert c c t.contact.id n in
      let l6 = lookup-delete t.contact.id t.contact.id (insert t.contact.id t d.contacts) in
      (
        ground (arith, l1, l2, l3, l4, l5, list_eq_iff c c, list_eq_iff t.contact.name c),
        ground (arith, l1, l2, l6),
      )

  contains-keys :
      (m : Callsigns) (k : Text) → contains (keys m) k ≡ true → (id : ℕ) × (lookup k m ≡ some id)
  unfolding contains keys lookup
  contains-keys [] k h = cc
  contains-keys ((j, id) ∷ m) k h = elim (Bool-cases (j == k)) [
    | inl same ↦ (id, rw same)
    | inr other ↦ rw other (contains-keys m k (rw other at h))
  ]

  contact_of_lem :
      (callsign : Text) (id : ℕ) (d : Database) {found : Text} {t : Trackfile}
      → contact_of names callsign (some id) d ≡ some (found, t)
      → (found ≡ callsign) × (lookup id d.contacts ≡ some t)
  contact_of_lem callsign id d h = ground arith

  -- Whatever callsign is asked for, a result is a contact of the database, under a callsign that
  -- the index of that coalition holds for the contact's ID.
  pub get_by_callsign_and_coalition_sound :
      (callsign : Text) (coalition : Coalition) (d : Database) {found : Text} {t : Trackfile}
      → get_by_callsign_and_coalition names callsign coalition d ≡ some (found, t)
      → (id : ℕ) × (lookup found (or_nil (lookup coalition d.callsign_idx)) ≡ some id)
        × (get_by_id id d ≡ some t)
  unfolding get_by_callsign_and_coalition get_by_id
  get_by_callsign_and_coalition_sound callsign coalition d {found} {t} h =
      let m = or_nil (lookup coalition d.callsign_idx) in
      elim (Option-cases (lookup callsign m)) [
        | inr (id, e) ↦
            let (p, q) =
              contact_of_lem callsign id d (rw (e, get_by_callsign_and_coalition) at h) in
            (id, rw p e, q)
        | inl e ↦ elim (Option-cases (names.fuzzy_search callsign (keys m))) [
          | inl f ↦ absurd (ground arith)
          | inr (k, f) ↦
              let (id, g) = contains-keys m k (names.fuzzy_search-contains callsign (keys m) k f) in
              let r : (found ≡ k) × (lookup id d.contacts ≡ some t) = ground arith in
              (id, rw r.0 g, r.1)
        ]
      ]
