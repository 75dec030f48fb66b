-- ===== src/Encyclopedia/TableSukhois.antt =====
-- pkg/encyclopedia/aircraft.go: the part of aircraftData from line 1055 to 1216.
use skyeye.Common.{List, [], ◌∷◌}
use skyeye.Common.Text.{codes}
use skyeye.Encyclopedia.Airframes.{
  Aircraft, no_aircraft, fixed_wing_tag, rotary_wing_tag, unarmed, fighter, sar1_ir_threat,
  sar2_ar1_threat,
}
use skyeye.Encyclopedia.Eastern.{flanker_data}
use skyeye.Encyclopedia.Mixed.{oh58_data}

abbrev pub m2000_5_to_uh_60a : List Aircraft
m2000_5_to_uh_60a =
    (record no_aircraft {
      acmi_short_name = codes "M2000-5";
      tags = fixed_wing_tag ∷ fighter ∷ [];
      platform_designation = codes "Mirage 2000";
      type_designation = codes "Mirage 2000-5";
      official_name = codes "Mirage 2000";
      own_threat_radius = sar2_ar1_threat;
    })
    ∷ (record no_aircraft {
      acmi_short_name = codes "MQ-1";
      tags = fixed_wing_tag ∷ unarmed ∷ [];
      platform_designation = codes "MQ-1";
      type_designation = codes "MQ-1A";
      official_name = codes "Predator";
    })
    ∷ (record no_aircraft {
      acmi_short_name = codes "RQ-1A Predator";
      tags = fixed_wing_tag ∷ unarmed ∷ [];
      platform_designation = codes "RQ-1";
      type_designation = codes "RQ-1A";
      official_name = codes "Predator";
    })
    ∷ (record no_aircraft {
      acmi_short_name = codes "OH-58D";
      tags = oh58_data.tags;
      platform_designation = oh58_data.platform_designation;
      type_designation = codes "OH-58D";
      official_name = oh58_data.official_name;
    })
    ∷ (record no_aircraft {
      acmi_short_name = codes "OH58D";
      tags = oh58_data.tags;
      platform_designation = oh58_data.platform_designation;
      type_designation = codes "OH-58D";
      official_name = oh58_data.official_name;
    })
    ∷ (record no_aircraft {
      acmi_short_name = codes "SH-3W";
      tags = rotary_wing_tag ∷ unarmed ∷ [];
      platform_designation = codes "SH-3";
      type_designation = codes "SH-3W";
      official_name = codes "Sea King";
    })
    ∷ (record no_aircraft {
      acmi_short_name = codes "SH-60B";
      tags = rotary_wing_tag ∷ unarmed ∷ [];
      platform_designation = codes "SH-60";
      type_designation = codes "SH-60B";
      official_name = codes "Seahawk";
    })
    ∷ (record no_aircraft {
      acmi_short_name = codes "Su-17M4";
      tags = fixed_wing_tag ∷ fighter ∷ [];
      platform_designation = codes "Su-17";
      type_designation = codes "Su-17M4";
      nato_reporting_name = codes "Fitter";
      own_threat_radius = sar1_ir_threat;
    })
    ∷ (record no_aircraft {
      acmi_short_name = codes "Su-27";
      tags = flanker_data.tags;
      platform_designation = flanker_data.platform_designation;
      type_designation = codes "Su-27";
      nato_reporting_name = flanker_data.nato_reporting_name;
      own_threat_radius = flanker_data.own_threat_radius;
    })
    ∷ (record no_aircraft {
      acmi_short_name = codes "Su-30";
      tags = flanker_data.tags;
      platform_designation = flanker_data.platform_designation;
      type_designation = codes "Su-30";
      nato_reporting_name = flanker_data.nato_reporting_name;
      own_threat_radius = flanker_data.own_threat_radius;
    })
    ∷ (record no_aircraft {
      acmi_short_name = codes "Su-33";
      tags = flanker_data.tags;
      platform_designation = flanker_data.platform_designation;
      type_designation = codes "Su-33";
      nato_reporting_name = flanker_data.nato_reporting_name;
      own_threat_radius = flanker_data.own_threat_radius;
    })
    ∷ (record no_aircraft {
      acmi_short_name = codes "Su-34";
      tags = fixed_wing_tag ∷ fighter ∷ [];
      platform_designation = codes "Su-34";
      type_designation = codes "Su-34";
      official_name = codes "Fullback";
      own_threat_radius = flanker_data.own_threat_radius;
    })
    ∷ (record no_aircraft {
      acmi_short_name = codes "Tu-22M3";
      tags = fixed_wing_tag ∷ unarmed ∷ [];
      platform_designation = codes "Tu-22";
      type_designation = codes "Tu-22M";
      official_name = codes "Backfire";
    })
    ∷ (record no_aircraft {
      acmi_short_name = codes "Tu-95MS";
      tags = fixed_wing_tag ∷ unarmed ∷ [];
      platform_designation = codes "Tu-95";
      type_designation = codes "Tu-95MS";
      official_name = codes "Bear";
    })
    ∷ (record no_aircraft {
      acmi_short_name = codes "Tu-142";
      tags = fixed_wing_tag ∷ unarmed ∷ [];
      platform_designation = codes "Tu-142";
      type_designation = codes "Tu-142";
      official_name = codes "Bear";
    })
    ∷ (record no_aircraft {
      acmi_short_name = codes "UH-1H";
      tags = rotary_wing_tag ∷ unarmed ∷ [];
      platform_designation = codes "UH-1";
      type_designation = codes "UH-1H";
      official_name = codes "Iroquois";
      nickname = codes "Huey";
    })
    ∷ (record no_aircraft {
      acmi_short_name = codes "UH-60A";
      tags = rotary_wing_tag ∷ unarmed ∷ [];
      platform_designation = codes "UH-60";
      type_designation = codes "UH-60A";
      official_name = codes "Black Hawk";
    })
    ∷ []
