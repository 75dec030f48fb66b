-- ===== src/Encyclopedia/Support.antt =====
-- pkg/encyclopedia/aircraft.go: the families from the KC-135 to the MQ-9.
use skyeye.Common.{List, [], ◌∷◌}
use skyeye.Common.Text.{codes}
use skyeye.Encyclopedia.Airframes.{
  Aircraft, no_aircraft, variants, fixed_wing_tag, unarmed, fighter, sar1_ir_threat,
}

abbrev pub kc135_data : Aircraft
kc135_data = record no_aircraft {
  tags = fixed_wing_tag ∷ unarmed ∷ [];
  platform_designation = codes "KC-135";
  official_name = codes "Stratotanker";
}

unfoldable pub kc135_variants : List Aircraft
kc135_variants =
    (record no_aircraft {
      acmi_short_name = codes "KC-135";
      tags = kc135_data.tags;
      platform_designation = kc135_data.platform_designation;
      official_name = kc135_data.official_name;
    })
    ∷ (record no_aircraft {
      acmi_short_name = codes "KC135MPRS";
      tags = kc135_data.tags;
      platform_designation = kc135_data.platform_designation;
      official_name = kc135_data.official_name;
    })
    ∷ []

abbrev pub l39_data : Aircraft
l39_data = record no_aircraft {
  tags = fixed_wing_tag ∷ fighter ∷ [];
  platform_designation = codes "L-39";
  official_name = codes "Albatros";
  own_threat_radius = sar1_ir_threat;
}

unfoldable pub l39_variants : List Aircraft
unfolding variants
l39_variants = variants l39_data ((codes "C", codes "C") ∷ (codes "ZA", codes "ZA") ∷ [])

abbrev pub mb339_data : Aircraft
mb339_data = record no_aircraft {
  tags = fixed_wing_tag ∷ fighter ∷ [];
  platform_designation = codes "MB-339";
  own_threat_radius = sar1_ir_threat;
}

unfoldable pub mb339_variants : List Aircraft
unfolding variants
mb339_variants = variants mb339_data ((codes "A", codes "A") ∷ (codes "A/PAN", codes "A") ∷ [])

abbrev pub s3_data : Aircraft
s3_data = record no_aircraft {
  tags = fixed_wing_tag ∷ unarmed ∷ [];
  platform_designation = codes "S-3";
  official_name = codes "Viking";
}

unfoldable pub s3_variants : List Aircraft
unfolding variants
s3_variants = variants s3_data ((codes "B", codes "B") ∷ (codes "B Tanker", codes "B") ∷ [])

abbrev pub tornado_data : Aircraft
tornado_data = record no_aircraft {
  tags = fixed_wing_tag ∷ fighter ∷ [];
  platform_designation = codes "Tornado";
  official_name = codes "Tornado";
  own_threat_radius = sar1_ir_threat;
}

unfoldable pub tornado_variants : List Aircraft
unfolding variants
tornado_variants =
    variants tornado_data ((codes " IDS", codes "IDS") ∷ (codes " GR4", codes "GR4") ∷ [])

abbrev pub mq9_data : Aircraft
mq9_data = record no_aircraft {
  tags = fixed_wing_tag ∷ unarmed ∷ [];
  platform_designation = codes "MQ-9";
  official_name = codes "Reaper";
}

unfoldable pub mq9_variants : List Aircraft
unfolding variants
mq9_variants = variants mq9_data ((codes "", codes "") ∷ (codes " Reaper", codes "") ∷ [])
