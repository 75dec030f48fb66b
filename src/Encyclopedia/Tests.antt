-- ===== src/Encyclopedia/Tests.antt =====
-- Lookups in the encyclopedia, and the theorems at such inputs.
use skyeye.Common.{
  ◌≡◌, refl, ◌↔◌, ◌⊎◌, true, [], ◌∷◌, some, All, IsOneOf, lookup, insert, list_eq, list_Eq,
}
use skyeye.Common.Text.{codes}
use skyeye.Brevity.{fixed_wing, rotary_wing}
use skyeye.Encyclopedia.{aircraft_data_lut, variant_tables, get_aircraft_data}
use skyeye.Encyclopedia.Airframes.{
  Aircraft, no_aircraft, fixed_wing_tag, fighter, attack, unarmed, has_tag, tagged, tag_eq,
  category_of, threat_radius,
}
use skyeye.Encyclopedia.Western.{f15_data, f15_variants}
use skyeye.Encyclopedia.Mixed.{mi24_variants}
use skyeye.Encyclopedia.Names.{all_aircraft, get_aircraft_data-eq-some}
use skyeye.Encyclopedia.Radii.{get_aircraft_data_classified}

abbrev su_27 : Aircraft
su_27 = record no_aircraft {
  acmi_short_name = codes "Su-27";
  tags = fixed_wing_tag ∷ fighter ∷ [];
  platform_designation = codes "Su-27";
  type_designation = codes "Su-27";
  nato_reporting_name = codes "Flanker";
  own_threat_radius = 25;
}

su_27_found : get_aircraft_data (codes "Su-27") ≡ some su_27
unfolding get_aircraft_data aircraft_data_lut variant_tables lookup insert list_eq
su_27_found = refl

get_aircraft_data-eq-some_example :
    (get_aircraft_data (codes "Su-27") ≡ some su_27)
    ↔ (IsOneOf su_27 all_aircraft × (su_27.acmi_short_name ≡ codes "Su-27"))
get_aircraft_data-eq-some_example = get_aircraft_data-eq-some (codes "Su-27") su_27

get_aircraft_data_classified_example :
    ((category_of su_27 ≡ fixed_wing) ⊎ (category_of su_27 ≡ rotary_wing))
    × ((threat_radius su_27 ≡ 0) ↔ (has_tag su_27 unarmed ≡ true))
get_aircraft_data_classified_example =
    get_aircraft_data_classified (codes "Su-27") su_27 su_27_found

-- The family is given 35 miles, and its aircraft have 25.
eagle_radius : threat_radius f15_data ≡ 35
unfolding threat_radius has_tag tagged tag_eq
eagle_radius = refl

eagles_radius : All (λ a. threat_radius a ≡ 25) f15_variants
unfolding f15_variants threat_radius has_tag tagged tag_eq
eagles_radius = (refl, (refl, tt))

-- The Mi-24 is tagged both as an attack aircraft and as unarmed.
hinds_unarmed : All (λ a. (threat_radius a ≡ 0) × (has_tag a attack ≡ true)) mi24_variants
unfolding mi24_variants threat_radius has_tag tagged tag_eq
hinds_unarmed = ((refl, refl), ((refl, refl), tt))
