-- ===== src/Encyclopedia/Western.antt =====
-- pkg/encyclopedia/aircraft.go: the families from the A-10 to the FA-18.
use skyeye.Common.{List, [], ◌∷◌}
use skyeye.Common.Text.{codes}
use skyeye.Encyclopedia.Airframes.{
  Aircraft, no_aircraft, variants, fixed_wing_tag, rotary_wing_tag, unarmed, fighter, attack,
  sar1_ir_threat, extended_threat,
}

abbrev pub a10_data : Aircraft
a10_data = record no_aircraft {
  tags = fixed_wing_tag ∷ attack ∷ [];
  platform_designation = codes "A-10";
  official_name = codes "Thunderbolt";
  nickname = codes "Warthog";
}

unfoldable pub a10_variants : List Aircraft
unfolding variants
a10_variants =
    variants a10_data
      ((codes "A", codes "A") ∷ (codes "C", codes "C") ∷ (codes "C_2", codes "C") ∷ [])

abbrev pub ah64_data : Aircraft
ah64_data = record no_aircraft {
  tags = rotary_wing_tag ∷ attack ∷ [];
  platform_designation = codes "AH-64";
  official_name = codes "Apache";
}

unfoldable pub ah64_variants : List Aircraft
unfolding variants
ah64_variants =
    variants ah64_data
      ((codes "A", codes "A") ∷ (codes "D", codes "D") ∷ (codes "D_BLK_II", codes "D") ∷ [])

abbrev pub c101_data : Aircraft
c101_data = record no_aircraft {
  tags = fixed_wing_tag ∷ fighter ∷ [];
  platform_designation = codes "C-101";
  official_name = codes "Aviojet";
  own_threat_radius = sar1_ir_threat;
}

unfoldable pub c101_variants : List Aircraft
unfolding variants
c101_variants = variants c101_data ((codes "CC", codes "CC") ∷ (codes "EB", codes "EB") ∷ [])

abbrev pub ch47_data : Aircraft
ch47_data = record no_aircraft {
  tags = rotary_wing_tag ∷ unarmed ∷ [];
  platform_designation = codes "CH-47";
  official_name = codes "Chinook";
}

unfoldable pub ch47_variants : List Aircraft
unfolding variants
ch47_variants = variants ch47_data ((codes "D", codes "D") ∷ (codes "Fbl1", codes "F") ∷ [])

abbrev pub f86_data : Aircraft
f86_data = record no_aircraft {
  tags = fixed_wing_tag ∷ fighter ∷ [];
  platform_designation = codes "F-86";
  official_name = codes "Sabre";
  own_threat_radius = sar1_ir_threat;
}

unfoldable pub f86_variants : List Aircraft
unfolding variants
f86_variants =
    variants f86_data
      ((codes "F", codes "F") ∷ (codes "F FC", codes "F") ∷ (codes "F Sabre", codes "F") ∷ [])

abbrev pub f4_data : Aircraft
f4_data = record no_aircraft {
  tags = fixed_wing_tag ∷ fighter ∷ [];
  platform_designation = codes "F-4";
  official_name = codes "Phantom";
}

unfoldable pub f4_variants : List Aircraft
unfolding variants
f4_variants = variants f4_data ((codes "E-45MC", codes "E") ∷ (codes "E", codes "E") ∷ [])

abbrev pub f5_data : Aircraft
f5_data = record no_aircraft {
  tags = fixed_wing_tag ∷ fighter ∷ [];
  platform_designation = codes "F-5";
  official_name = codes "Tiger";
}

unfoldable pub f5_variants : List Aircraft
unfolding variants
f5_variants =
    variants f5_data
      ((codes "E", codes "E") ∷ (codes "E-3", codes "E") ∷ (codes "E-3 FC", codes "E") ∷ [])

abbrev pub f14_data : Aircraft
f14_data = record no_aircraft {
  tags = fixed_wing_tag ∷ fighter ∷ [];
  platform_designation = codes "F-14";
  official_name = codes "Tomcat";
  own_threat_radius = extended_threat;
}

unfoldable pub f14_variants : List Aircraft
unfolding variants
f14_variants =
    variants f14_data
      ((codes "A-135-GR", codes "A") ∷ (codes "A", codes "A") ∷ (codes "B", codes "B") ∷ [])

abbrev pub f15_data : Aircraft
f15_data = record no_aircraft {
  platform_designation = codes "F-15";
  tags = fixed_wing_tag ∷ fighter ∷ [];
  official_name = codes "Eagle";
  own_threat_radius = extended_threat;
}

unfoldable pub f15_variants : List Aircraft
unfolding variants
f15_variants = variants f15_data ((codes "C", codes "C") ∷ (codes "ESE", codes "E") ∷ [])

abbrev pub f16_data : Aircraft
f16_data = record no_aircraft {
  tags = fixed_wing_tag ∷ fighter ∷ [];
  platform_designation = codes "F-16";
  official_name = codes "Falcon";
  nickname = codes "Viper";
  own_threat_radius = extended_threat;
}

unfoldable pub f16_variants : List Aircraft
unfolding variants
f16_variants = variants f16_data (
    (codes "A", codes "A")
    ∷ (codes "A MLU", codes "A")
    ∷ (codes "C_50", codes "C")
    ∷ (codes "C bl.50", codes "C")
    ∷ (codes "C bl.52", codes "C")
    ∷ [])

abbrev pub fa18_data : Aircraft
fa18_data = record no_aircraft {
  tags = fixed_wing_tag ∷ fighter ∷ [];
  platform_designation = codes "FA-18";
  official_name = codes "Hornet";
  own_threat_radius = extended_threat;
}

unfoldable pub fa18_variants : List Aircraft
unfolding variants
fa18_variants =
    variants fa18_data
      ((codes "A", codes "A") ∷ (codes "C", codes "C") ∷ (codes "C_hornet", codes "C") ∷ [])
