-- ===== src/Controller/Callsigns.antt =====
-- The callsigns of a broadcast: whose they are, and that none is said twice.
use skyeye.Common.{
  ◌≡◌, refl, ap, inl, inr, Bool, false, not, ◌&&◌, ◌||◌, List, [], ◌∷◌, ◌++◌, Option, none, some,
  arith, list_Eq, list_eq, list_eq_iff, Bool-cases, contains, contains-append,
}
use skyeye.Common.Text.{Text}
use skyeye.Trackfiles.{Trackfile}
use skyeye.Controller.Radar.{Audience, add_callsign, add_friendly_to_broadcast}

abbrev pub is_callsign : Option Text → Text → Bool
is_callsign none c = false
is_callsign (some d) c = list_eq d c

-- The contact is spoken to by this callsign.
unfoldable pub is_called : Audience → Trackfile → Text → Bool
is_called audience t c =
    (not audience.requires_srs || audience.is_on_frequency t.contact.name)
    && is_callsign (audience.parse_pilot_callsign t.contact.name) c

-- No callsign stands twice.
abbrev pub IsDistinct : List Text → Type 0
IsDistinct [] = Unit
IsDistinct (c ∷ cs) = (contains cs c ≡ false) × IsDistinct cs

IsDistinct-append :
    (cs : List Text) (c : Text) → IsDistinct cs → contains cs c ≡ false → IsDistinct (cs ++ c ∷ [])
unfolding contains
IsDistinct-append [] c d e = (refl, tt)
IsDistinct-append (x ∷ xs) c d e = (
  ground (arith, d.0, contains-append xs (c ∷ []) x, list_eq_iff c x, list_eq_iff x c),
  IsDistinct-append xs c d.1 (ground arith),
)

contains-add_callsign :
    (found : Option Text) (cs : List Text) (c : Text)
    → contains (add_callsign found cs) c ≡ (contains cs c || is_callsign found c)
unfolding contains
contains-add_callsign none cs c = ground arith
contains-add_callsign (some d) cs c =
    ground (arith, contains-append cs (d ∷ []) c, list_eq_iff d c, ap (contains cs) {x = d} {y = c})

add_callsign-IsDistinct :
    (found : Option Text) (cs : List Text) → IsDistinct cs → IsDistinct (add_callsign found cs)
add_callsign-IsDistinct none cs d = d
add_callsign-IsDistinct (some c) cs d = elim (Bool-cases (contains cs c)) [
  | inl old ↦ rw old d
  | inr new ↦ rw new (IsDistinct-append cs c d new)
]

module _ (audience : Audience) where
  pub contains-add_friendly :
      (cs : List Text) (t : Trackfile) (c : Text)
      → contains (add_friendly_to_broadcast audience cs t) c
        ≡ (contains cs c || is_called audience t c)
  unfolding add_friendly_to_broadcast is_called
  contains-add_friendly cs t c =
      ground (arith, contains-add_callsign (audience.parse_pilot_callsign t.contact.name) cs c)

  pub add_friendly-IsDistinct :
      (cs : List Text) (t : Trackfile)
      → IsDistinct cs
      → IsDistinct (add_friendly_to_broadcast audience cs t)
  unfolding add_friendly_to_broadcast
  add_friendly-IsDistinct cs t d =
      elim (Bool-cases (not audience.requires_srs || audience.is_on_frequency t.contact.name)) [
        | inl heard ↦
            rw heard (add_callsign-IsDistinct (audience.parse_pilot_callsign t.contact.name) cs d)
        | inr deaf ↦ rw deaf d
      ]
