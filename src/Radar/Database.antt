-- ===== src/Radar/Database.antt =====
-- pkg/radar/contacts.go: trackfiles by unit ID, and the index of callsigns. A nil map that is
-- written to is a panic, `none`. The callsign of a name is the parser's, and the fuzzy search over
-- the callsigns is go-edlib's: both are parameters.
pub mod Lookup
use skyeye.Common.{
  ℕ, ◌≡◌, Bool, true, false, List, [], ◌∷◌, Option, none, some, if◌then◌else◌, ◌==◌, nat_Eq,
  list_Eq, ◌>>=◌, map, contains, lookup, insert, delete,
}
use skyeye.Common.Text.{Text, codes}
use skyeye.Coalitions.{Coalition, red, blue, neutrals}
use skyeye.Trackfiles.{Trackfile}

abbrev pub Callsigns : Type 0
Callsigns = List (Text × ℕ)

pub record Database : Type 0 where
  pub contacts : List (ℕ × Trackfile)
  pub callsign_idx : List (Coalition × Callsigns)

abbrev pub empty : Database
empty = record { contacts = []; callsign_idx = (blue, []) ∷ (red, []) ∷ (neutrals, []) ∷ [] }

-- What a read of a missing coalition gives, the nil map.
abbrev pub or_nil : Option Callsigns → Callsigns
or_nil none = []
or_nil (some m) = m

-- strings.Cut(name, "|"), its part before
unfoldable pub before_bar : Text → Text
before_bar [] = []
before_bar (c ∷ cs) = if c == b'|' then [] else c ∷ before_bar cs

unfoldable pub keys : Callsigns → List Text
keys [] = []
keys ((k, id) ∷ m) = k ∷ keys m

pub record Names : Type 0 where
  pub parse_pilot_callsign : Text → Option Text
  pub fuzzy_search : Text → List Text → Option Text
  -- The search returns one of the strings that it was given.
  pub fuzzy_search-contains :
      (s : Text) (ks : List Text) (k : Text) → fuzzy_search s ks ≡ some k → contains ks k ≡ true

unfoldable pub get_by_id : ℕ → Database → Option Trackfile
get_by_id id d = lookup id d.contacts

unfoldable pub delete_contact : ℕ → Database → Database × Bool
delete_contact id d = elim (lookup id d.contacts) [
  | none ↦ (d, false)
  | some t ↦ (
    record {
      contacts = delete id d.contacts;
      callsign_idx = elim (lookup t.contact.coalition d.callsign_idx) [
        | none ↦ d.callsign_idx
        | some m ↦ insert t.contact.coalition (delete t.contact.name m) d.callsign_idx
      ];
    },
    true,
  )
]

module _ (names : Names) where
  open names use {parse_pilot_callsign, fuzzy_search}

  -- The callsign under which a contact is indexed.
  unfoldable pub callsign_of : Trackfile → Text
  callsign_of t = elim (parse_pilot_callsign (before_bar t.contact.name)) [
    | none ↦ t.contact.name
    | some callsign ↦ callsign
  ]

  unfoldable pub set : Trackfile → Database → Option Database
  set t d = do
    m ← lookup t.contact.coalition d.callsign_idx
    some (record {
      contacts = insert t.contact.id t d.contacts;
      callsign_idx =
          insert t.contact.coalition (insert (callsign_of t) t.contact.id m) d.callsign_idx;
    })

  -- The found callsign and its contact; an index entry whose contact is gone is no result.
  abbrev pub contact_of : Text → Option ℕ → Database → Option (Text × Trackfile)
  contact_of callsign none d = none
  contact_of callsign (some id) d = elim (lookup id d.contacts) [
    | none ↦ none
    | some t ↦ some (callsign, t)
  ]

  -- An empty string from the search is no result. Its index entry would be id 0, were it missing.
  unfoldable pub get_by_callsign_and_coalition :
      Text → Coalition → Database → Option (Text × Trackfile)
  get_by_callsign_and_coalition callsign coalition d =
      let m = or_nil (lookup coalition d.callsign_idx) in
      elim (lookup callsign m) [
        | some id ↦ contact_of callsign (some id) d
        | none ↦ elim (fuzzy_search callsign (keys m)) [
          | none ↦ none
          | some found ↦
              if found == []
              then none
              else contact_of found (elim (lookup found m) [ none ↦ some 0 | some id ↦ some id ]) d
        ]
      ]
