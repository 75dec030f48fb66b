-- ===== src/Encyclopedia/Radii.antt =====
-- pkg/encyclopedia/aircraft.go: the categories and the threat radii of the tables' aircraft.
use skyeye.Common.{
  ◌≡◌, refl, ◌↔◌, ◌⊎◌, inl, inr, Bool, Bool-cases, true, not, ◌&&◌, ◌||◌, List, [], ◌∷◌, some,
  if◌then◌else◌, nat_eq, arith, All, IsOneOf, list_Eq,
}
use skyeye.Common.Text.{Text}
use skyeye.Brevity.{Category, category_eq, fixed_wing, rotary_wing}
use skyeye.Encyclopedia.{get_aircraft_data}
use skyeye.Encyclopedia.Airframes.{
  Aircraft, unarmed, has_tag, tagged, tag_eq, category_of, threat_radius, variants,
}
use skyeye.Encyclopedia.Names.{all_aircraft, get_aircraft_data-eq-some}

-- What the tables say of each aircraft: it has wings or a rotor, and it threatens no one exactly
-- when it is unarmed.
is_classified : Aircraft → Bool
unfolding category_of category_eq has_tag tagged tag_eq threat_radius
is_classified a =
    (category_eq (category_of a) fixed_wing || category_eq (category_of a) rotary_wing)
    && (if has_tag a unarmed then nat_eq (threat_radius a) 0 else not (nat_eq (threat_radius a) 0))

all_classified : List Aircraft → Bool
unfolding is_classified
all_classified [] = true
all_classified (a ∷ others) = is_classified a && all_classified others

all_aircraft_classified : all_classified all_aircraft ≡ true
unfolding all_classified all_aircraft
all_aircraft_classified = refl

classified_one :
    (a : Aircraft) (xs : List Aircraft)
    → all_classified xs ≡ true
    → IsOneOf a xs
    → is_classified a ≡ true
unfolding all_classified IsOneOf
classified_one a [] h listed = elim listed [ ]
classified_one a (x ∷ xs) h (inl same) = rw same (ground arith)
classified_one a (x ∷ xs) h (inr later) = classified_one a xs (ground arith) later

category_eq_sound : (c d : Category) → category_eq c d ≡ true → c ≡ d
unfolding category_eq
category_eq_sound c d h = ground arith

-- An aircraft that GetAircraftData finds has the category of fixed wings or that of rotary wings,
-- and its threat radius is 0 exactly when it is tagged as unarmed.
pub get_aircraft_data_classified :
    (name : Text) (a : Aircraft)
    → get_aircraft_data name ≡ some a
    → ((category_of a ≡ fixed_wing) ⊎ (category_of a ≡ rotary_wing))
      × ((threat_radius a ≡ 0) ↔ (has_tag a unarmed ≡ true))
unfolding is_classified
get_aircraft_data_classified name a h =
    let c =
      classified_one a all_aircraft all_aircraft_classified
        ((get_aircraft_data-eq-some name a).0 h).0 in
    (
      elim (Bool-cases (category_eq (category_of a) fixed_wing)) [
        | inl fixed ↦ inl (category_eq_sound (category_of a) fixed_wing fixed)
        | inr other ↦ inr (category_eq_sound (category_of a) rotary_wing (ground arith))
      ],
      (λ z. ground arith, λ u. ground arith),
    )

-- The aircraft that variants makes have no threat radius of their own, whatever the family's is:
-- theirs is the default of the tags. Their type designation is the family's with a suffix.
pub variants_default_radius :
    (family : Aircraft) (naming : List (Text × Text))
    → All
        (λ a. threat_radius a ≡ threat_radius (record family { own_threat_radius = 0 }))
        (variants family naming)
unfolding variants threat_radius has_tag
variants_default_radius family [] = tt
variants_default_radius family (n ∷ naming) = (refl, variants_default_radius family naming)
