-- ===== src/Encyclopedia/TableMirages.antt =====
-- pkg/encyclopedia/aircraft.go: the part of aircraftData from line 917 to 1054.
use skyeye.Common.{List, [], ◌∷◌}
use skyeye.Common.Text.{codes}
use skyeye.Encyclopedia.Airframes.{
  Aircraft, no_aircraft, fixed_wing_tag, rotary_wing_tag, unarmed, fighter, attack, sar1_ir_threat,
  sar2_ar1_threat, extended_threat,
}

abbrev pub jf_17_to_mig_31 : List Aircraft
jf_17_to_mig_31 =
    (record no_aircraft {
      acmi_short_name = codes "JF-17";
      tags = fixed_wing_tag ∷ fighter ∷ [];
      platform_designation = codes "JF-17";
      type_designation = codes "JF-17";
      official_name = codes "Thunder";
      own_threat_radius = extended_threat;
    })
    ∷ (record no_aircraft {
      acmi_short_name = codes "KA-27";
      tags = rotary_wing_tag ∷ unarmed ∷ [];
      platform_designation = codes "Ka-27";
      type_designation = codes "Ka-27";
      nato_reporting_name = codes "Helix";
    })
    ∷ (record no_aircraft {
      acmi_short_name = codes "KC130";
      tags = fixed_wing_tag ∷ unarmed ∷ [];
      platform_designation = codes "KC-130";
      type_designation = codes "KC-130";
      official_name = codes "Hercules";
      nickname = codes "Herc";
    })
    ∷ (record no_aircraft {
      acmi_short_name = codes "KJ-2000";
      tags = fixed_wing_tag ∷ unarmed ∷ [];
      platform_designation = codes "KJ-2000";
      type_designation = codes "KJ-2000";
      official_name = codes "Mainring";
    })
    ∷ (record no_aircraft {
      acmi_short_name = codes "M-2000C";
      tags = fixed_wing_tag ∷ fighter ∷ [];
      platform_designation = codes "Mirage 2000";
      type_designation = codes "Mirage 2000C";
      official_name = codes "Mirage 2000";
      own_threat_radius = sar2_ar1_threat;
    })
    ∷ (record no_aircraft {
      acmi_short_name = codes "Mi-8MT";
      tags = rotary_wing_tag ∷ unarmed ∷ [];
      platform_designation = codes "Mi-8";
      type_designation = codes "Mi-8MT";
      nato_reporting_name = codes "Hip";
    })
    ∷ (record no_aircraft {
      acmi_short_name = codes "Mi-26";
      tags = rotary_wing_tag ∷ unarmed ∷ [];
      platform_designation = codes "Mi-26";
      type_designation = codes "Mi-26";
      nato_reporting_name = codes "Halo";
    })
    ∷ (record no_aircraft {
      acmi_short_name = codes "Mi-28N";
      tags = rotary_wing_tag ∷ attack ∷ [];
      platform_designation = codes "Mi-28";
      type_designation = codes "Mi-28N";
      official_name = codes "Havoc";
    })
    ∷ (record no_aircraft {
      acmi_short_name = codes "MiG-19P";
      tags = fixed_wing_tag ∷ fighter ∷ [];
      platform_designation = codes "MiG-19";
      type_designation = codes "MiG-19P";
      nato_reporting_name = codes "Farmer";
      own_threat_radius = sar1_ir_threat;
    })
    ∷ (record no_aircraft {
      acmi_short_name = codes "MiG-21Bis";
      tags = fixed_wing_tag ∷ fighter ∷ [];
      platform_designation = codes "MiG-21";
      type_designation = codes "MiG-21bis";
      nato_reporting_name = codes "Fishbed";
      own_threat_radius = sar1_ir_threat;
    })
    ∷ (record no_aircraft {
      acmi_short_name = codes "MiG-23MLD";
      tags = fixed_wing_tag ∷ fighter ∷ [];
      platform_designation = codes "MiG-23";
      type_designation = codes "MiG-23MLD";
      nato_reporting_name = codes "Flogger";
      own_threat_radius = sar1_ir_threat;
    })
    ∷ (record no_aircraft {
      acmi_short_name = codes "MiG-27K";
      tags = fixed_wing_tag ∷ fighter ∷ [];
      platform_designation = codes "MiG-27";
      type_designation = codes "MiG-27K";
      nato_reporting_name = codes "Flogger";
      own_threat_radius = sar1_ir_threat;
    })
    ∷ (record no_aircraft {
      acmi_short_name = codes "MiG-31";
      tags = fixed_wing_tag ∷ fighter ∷ [];
      platform_designation = codes "MiG-31";
      type_designation = codes "MiG-31";
      nato_reporting_name = codes "Foxhound";
      own_threat_radius = sar2_ar1_threat;
    })
    ∷ []
