-- ===== src/Radar/Store/Indexed.antt =====
-- pkg/radar/contacts.go: the index keeps a map for each coalition, so that set does not panic.
use skyeye.Common.{
  ℕ, ◌≡◌, refl, ◌⊎◌, inl, inr, List, [], ◌∷◌, some, arith, if◌then◌else◌, ◌==◌, nat_Eq, list_Eq,
  Bool-cases, bind-eq-some, lookup, insert, lookup-insert,
}
use skyeye.Coalitions.{Coalition, red, blue, neutrals}
use skyeye.Trackfiles.{Trackfile}
use skyeye.Radar.Database.{Database, Names, empty, callsign_of, set, delete_contact}
use skyeye.Radar.Database.Lookup.{IsIndexed, delete_contact-IsIndexed}
use skyeye.Radar.Scope.{is_expired, collect}
use skyeye.Radar.Fades.{delete_all}

-- red, blue or neutral
unfoldable pub IsCoalition : Coalition → Type 0
IsCoalition c = (c ≡ red) ⊎ (c ≡ blue) ⊎ (c ≡ neutrals)

pub empty-IsIndexed : (c : Coalition) → IsCoalition c → IsIndexed c empty
unfolding lookup IsCoalition
empty-IsIndexed c (inl e) = rw e ([], refl)
empty-IsIndexed c (inr (inl e)) = rw e ([], refl)
empty-IsIndexed c (inr (inr e)) = rw e ([], refl)

module _ (names : Names) where
  pub set-some :
      (t : Trackfile) (d : Database)
      → IsIndexed t.contact.coalition d
      → (e : Database) × (set names t d ≡ some e)
  unfolding set
  set-some t d (m, h) = rw h (_, refl)

  pub set-IsIndexed :
      (c : Coalition) (t : Trackfile) (d : Database) {e : Database}
      → set names t d ≡ some e
      → IsIndexed c d
      → IsIndexed c e
  unfolding set
  set-IsIndexed c t d {e} h (m, g) =
      let (n, found, made) = bind-eq-some (lookup t.contact.coalition d.callsign_idx) _ h in
      let new = insert (callsign_of names t) t.contact.id n in
      (
        if t.contact.coalition == c then new else m,
        ground (arith, made, g, lookup-insert t.contact.coalition c new d.callsign_idx),
      )

pub delete_all-IsIndexed :
    (c : Coalition) (ids : List ℕ) (d : Database) → IsIndexed c d → IsIndexed c (delete_all ids d)
unfolding delete_all
delete_all-IsIndexed c [] d h = h
delete_all-IsIndexed c (id ∷ ids) d h =
    delete_all-IsIndexed c ids (delete_contact id d).0 (delete_contact-IsIndexed c id d h)

pub collect-IsIndexed :
    (c : Coalition) (time : ℕ) (m : List (ℕ × Trackfile)) (d : Database)
    → IsIndexed c d
    → IsIndexed c (collect time m d).0
unfolding collect
collect-IsIndexed c time [] d h = h
collect-IsIndexed c time ((key, t) ∷ rest) d h = elim (Bool-cases (is_expired time t)) [
  | inl old ↦ rw old (
      collect-IsIndexed c time rest (delete_contact t.contact.id d).0
        (delete_contact-IsIndexed c t.contact.id d h))
  | inr fresh ↦ rw fresh (collect-IsIndexed c time rest d h)
]
