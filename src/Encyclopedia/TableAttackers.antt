-- ===== src/Encyclopedia/TableAttackers.antt =====
-- pkg/encyclopedia/aircraft.go: the part of aircraftData from line 693 to 807.
use skyeye.Common.{List, [], ◌∷◌}
use skyeye.Common.Text.{codes}
use skyeye.Encyclopedia.Airframes.{
  Aircraft, no_aircraft, fixed_wing_tag, rotary_wing_tag, unarmed, attack, sar1_ir_threat,
}

abbrev pub a_4e_to_b_1b : List Aircraft
a_4e_to_b_1b =
    (record no_aircraft {
      acmi_short_name = codes "A-4E-C";
      tags = fixed_wing_tag ∷ attack ∷ [];
      platform_designation = codes "A-4";
      type_designation = codes "A-4E";
      official_name = codes "Skyhawk";
      nickname = codes "Scooter";
      own_threat_radius = sar1_ir_threat;
    })
    ∷ (record no_aircraft {
      acmi_short_name = codes "A-20G";
      tags = fixed_wing_tag ∷ unarmed ∷ [];
      platform_designation = codes "A-20";
      type_designation = codes "A-20G";
      official_name = codes "Havoc";
    })
    ∷ (record no_aircraft {
      acmi_short_name = codes "A-50";
      tags = fixed_wing_tag ∷ unarmed ∷ [];
      platform_designation = codes "A-50";
      type_designation = codes "A-50";
      nato_reporting_name = codes "Mainstay";
    })
    ∷ (record no_aircraft {
      acmi_short_name = codes "AH-1W";
      tags = rotary_wing_tag ∷ attack ∷ [];
      platform_designation = codes "AH-1";
      type_designation = codes "AH-1W";
      official_name = codes "SuperCobra";
    })
    ∷ (record no_aircraft {
      acmi_short_name = codes "AJS37";
      tags = fixed_wing_tag ∷ attack ∷ [];
      platform_designation = codes "AJS37";
      official_name = codes "Viggen";
      own_threat_radius = sar1_ir_threat;
    })
    ∷ (record no_aircraft {
      acmi_short_name = codes "AV8BNA";
      tags = fixed_wing_tag ∷ attack ∷ [];
      platform_designation = codes "AV-8";
      type_designation = codes "AV-8B";
      official_name = codes "Harrier";
      own_threat_radius = sar1_ir_threat;
    })
    ∷ (record no_aircraft {
      acmi_short_name = codes "An-26B";
      tags = fixed_wing_tag ∷ unarmed ∷ [];
      platform_designation = codes "An-26";
      type_designation = codes "An-26B";
      nato_reporting_name = codes "Curl";
    })
    ∷ (record no_aircraft {
      acmi_short_name = codes "An-30M";
      tags = fixed_wing_tag ∷ unarmed ∷ [];
      platform_designation = codes "An-30";
      type_designation = codes "An-30M";
      nato_reporting_name = codes "Clank";
    })
    ∷ (record no_aircraft {
      acmi_short_name = codes "B-17G";
      tags = fixed_wing_tag ∷ unarmed ∷ [];
      platform_designation = codes "B-17";
      type_designation = codes "B-17G";
      official_name = codes "Flying Fortress";
    })
    ∷ (record no_aircraft {
      acmi_short_name = codes "B-52H";
      tags = fixed_wing_tag ∷ unarmed ∷ [];
      platform_designation = codes "B-52";
      type_designation = codes "B-52H";
      official_name = codes "Stratofortress";
      nickname = codes "Buff";
    })
    ∷ (record no_aircraft {
      acmi_short_name = codes "B-1B";
      tags = fixed_wing_tag ∷ unarmed ∷ [];
      platform_designation = codes "B-1";
      type_designation = codes "B-1B";
      official_name = codes "Lancer";
      nickname = codes "Bone";
    })
    ∷ []
