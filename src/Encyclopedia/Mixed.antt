-- ===== src/Encyclopedia/Mixed.antt =====
-- pkg/encyclopedia/aircraft.go: the families from the Ka-50 to the SA 342.
use skyeye.Common.{List, [], ◌∷◌, ◌++◌, map}
use skyeye.Common.Text.{codes}
use skyeye.Encyclopedia.Airframes.{
  Aircraft, no_aircraft, variants, fixed_wing_tag, rotary_wing_tag, unarmed, fighter, attack,
}

abbrev pub ka50_data : Aircraft
ka50_data = record no_aircraft {
  tags = rotary_wing_tag ∷ attack ∷ [];
  platform_designation = codes "Ka-50";
  official_name = codes "Black Shark";
  nato_reporting_name = codes "Hokum";
}

unfoldable pub ka50_variants : List Aircraft
unfolding variants
ka50_variants = variants ka50_data ((codes "", codes "") ∷ (codes "_3", codes "") ∷ [])

abbrev pub mi24_data : Aircraft
mi24_data = record no_aircraft {
  tags = rotary_wing_tag ∷ attack ∷ unarmed ∷ [];
  platform_designation = codes "Mi-24";
  nato_reporting_name = codes "Hind";
}

unfoldable pub mi24_variants : List Aircraft
unfolding variants
mi24_variants = variants mi24_data ((codes "P", codes "P") ∷ (codes "V", codes "V") ∷ [])

abbrev pub mirage_f1_data : Aircraft
mirage_f1_data = record no_aircraft {
  acmi_short_name = codes "Mirage-F1";
  tags = fixed_wing_tag ∷ fighter ∷ [];
  platform_designation = codes "Mirage F1";
  official_name = codes "Mirage F1";
}

unfoldable pub mirage_f1_variants : List Aircraft
unfolding variants
mirage_f1_variants = variants mirage_f1_data (
    (codes "B", codes "B")
    ∷ (codes "BD", codes "BD")
    ∷ (codes "BE", codes "BE")
    ∷ (codes "BQ", codes "BQ")
    ∷ (codes "C-200", codes "C-200")
    ∷ (codes "C", codes "C")
    ∷ (codes "CE", codes "CE")
    ∷ (codes "CG", codes "CG")
    ∷ (codes "CH", codes "CH")
    ∷ (codes "CJ", codes "CJ")
    ∷ (codes "CK", codes "CK")
    ∷ (codes "CR", codes "CR")
    ∷ (codes "CT", codes "CT")
    ∷ (codes "CZ", codes "CZ")
    ∷ (codes "DDA", codes "DDA")
    ∷ (codes "ED", codes "ED")
    ∷ (codes "EDA", codes "EDA")
    ∷ (codes "EE", codes "EE")
    ∷ (codes "EH", codes "EH")
    ∷ (codes "EQ", codes "EQ")
    ∷ (codes "JA", codes "JA")
    ∷ (codes "M-CE", codes "M-CE")
    ∷ (codes "M-EE", codes "M-EE")
    ∷ [])

abbrev pub oh58_data : Aircraft
oh58_data = record no_aircraft {
  tags = rotary_wing_tag ∷ unarmed ∷ [];
  platform_designation = codes "OH-58";
  official_name = codes "Kiowa";
}

abbrev pub sa342_data : Aircraft
sa342_data = record no_aircraft {
  tags = rotary_wing_tag ∷ unarmed ∷ [];
  platform_designation = codes "SA 342";
  official_name = codes "Gazelle";
}

unfoldable pub sa342_variants : List Aircraft
sa342_variants =
    map
      (λ variant. record no_aircraft {
        acmi_short_name = codes "SA342" ++ variant;
        tags = sa342_data.tags;
        platform_designation = sa342_data.platform_designation;
        official_name = sa342_data.official_name;
      })
      (codes "L" ∷ codes "M" ∷ codes "Minigun" ∷ codes "Mistral" ∷ [])
