-- ===== src/Encyclopedia/Eastern.antt =====
-- pkg/encyclopedia/aircraft.go: the MiG and Sukhoi families, by reporting name, and mig15.go.
use skyeye.Common.{List, [], ◌∷◌}
use skyeye.Common.Text.{codes}
use skyeye.Encyclopedia.Airframes.{
  Aircraft, no_aircraft, variants, fixed_wing_tag, fighter, attack, sar1_ir_threat, sar2_ar1_threat,
}
use skyeye.Encyclopedia.Airframes.{mig15_nato_reporting_name}

abbrev pub ft_data : Aircraft
ft_data = record no_aircraft {
  tags = fixed_wing_tag ∷ [];
  platform_designation = codes "MiG-15";
  nato_reporting_name = mig15_nato_reporting_name;
  own_threat_radius = sar1_ir_threat;
}

unfoldable pub ft_variants : List Aircraft
unfolding variants
ft_variants = variants ft_data ((codes "bis", codes "bis") ∷ (codes "bis FC", codes "bis") ∷ [])

abbrev pub fencer_data : Aircraft
fencer_data = record no_aircraft {
  tags = fixed_wing_tag ∷ fighter ∷ [];
  platform_designation = codes "Su-24";
  nato_reporting_name = codes "Fencer";
  own_threat_radius = sar1_ir_threat;
}

unfoldable pub fencer_variants : List Aircraft
unfolding variants
fencer_variants = variants fencer_data ((codes "M", codes "M") ∷ (codes "MR", codes "MR") ∷ [])

abbrev pub foxbat_data : Aircraft
foxbat_data = record no_aircraft {
  tags = fixed_wing_tag ∷ fighter ∷ [];
  platform_designation = codes "MiG-25";
  nato_reporting_name = codes "Foxbat";
  own_threat_radius = sar1_ir_threat;
}

unfoldable pub foxbat_variants : List Aircraft
unfolding variants
foxbat_variants = variants foxbat_data ((codes "PD", codes "PD") ∷ (codes "RBT", codes "RBT") ∷ [])

abbrev pub fulcrum_data : Aircraft
fulcrum_data = record no_aircraft {
  tags = fixed_wing_tag ∷ fighter ∷ [];
  platform_designation = codes "MiG-29";
  nato_reporting_name = codes "Fulcrum";
}

unfoldable pub fulcrum_variants : List Aircraft
unfolding variants
fulcrum_variants =
    variants fulcrum_data
      ((codes "A", codes "A") ∷ (codes "G", codes "A") ∷ (codes "S", codes "S") ∷ [])

abbrev pub frogfoot_data : Aircraft
frogfoot_data = record no_aircraft {
  tags = fixed_wing_tag ∷ attack ∷ [];
  platform_designation = codes "Su-25";
  nato_reporting_name = codes "Frogfoot";
  own_threat_radius = sar2_ar1_threat;
}

unfoldable pub frogfoot_variants : List Aircraft
unfolding variants
frogfoot_variants =
    variants frogfoot_data
      ((codes "", codes "A") ∷ (codes "T", codes "T") ∷ (codes "TM", codes "TM") ∷ [])

abbrev pub flanker_data : Aircraft
flanker_data = record no_aircraft {
  tags = fixed_wing_tag ∷ fighter ∷ [];
  platform_designation = codes "Su-27";
  nato_reporting_name = codes "Flanker";
  own_threat_radius = sar2_ar1_threat;
}
