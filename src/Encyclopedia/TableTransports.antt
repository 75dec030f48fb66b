-- ===== src/Encyclopedia/TableTransports.antt =====
-- pkg/encyclopedia/aircraft.go: the part of aircraftData from line 808 to 916.
use skyeye.Common.{List, [], ◌∷◌}
use skyeye.Common.Text.{codes}
use skyeye.Encyclopedia.Airframes.{Aircraft, no_aircraft, fixed_wing_tag, rotary_wing_tag, unarmed}
use skyeye.Encyclopedia.Eastern.{flanker_data}

abbrev pub c_17a_to_j_11a : List Aircraft
c_17a_to_j_11a =
    (record no_aircraft {
      acmi_short_name = codes "C-17A";
      tags = fixed_wing_tag ∷ unarmed ∷ [];
      platform_designation = codes "C-17";
      type_designation = codes "C-17A";
      official_name = codes "Globemaster";
    })
    ∷ (record no_aircraft {
      acmi_short_name = codes "C-47";
      tags = fixed_wing_tag ∷ unarmed ∷ [];
      platform_designation = codes "C-47";
      official_name = codes "Skytrain";
    })
    ∷ (record no_aircraft {
      acmi_short_name = codes "C-130";
      tags = fixed_wing_tag ∷ unarmed ∷ [];
      platform_designation = codes "C-130";
      type_designation = codes "C-130";
      official_name = codes "Hercules";
      nickname = codes "Herc";
    })
    ∷ (record no_aircraft {
      acmi_short_name = codes "CH-53E";
      tags = rotary_wing_tag ∷ unarmed ∷ [];
      platform_designation = codes "CH-53";
      type_designation = codes "CH-53E";
      official_name = codes "Super Stallion";
    })
    ∷ (record no_aircraft {
      acmi_short_name = codes "E-2C";
      tags = fixed_wing_tag ∷ unarmed ∷ [];
      platform_designation = codes "E-2";
      type_designation = codes "E-2C";
      official_name = codes "Hawkeye";
    })
    ∷ (record no_aircraft {
      acmi_short_name = codes "E-3A";
      tags = fixed_wing_tag ∷ unarmed ∷ [];
      platform_designation = codes "E-3";
      type_designation = codes "E-3A";
      official_name = codes "Sentry";
    })
    ∷ (record no_aircraft {
      acmi_short_name = codes "F-117A";
      tags = fixed_wing_tag ∷ unarmed ∷ [];
      platform_designation = codes "F-117";
      type_designation = codes "F-117A";
      official_name = codes "Nighthawk";
      nickname = codes "Goblin";
    })
    ∷ (record no_aircraft {
      acmi_short_name = codes "H-6J";
      tags = fixed_wing_tag ∷ unarmed ∷ [];
      platform_designation = codes "Tu-16";
      type_designation = codes "H-6J";
      nato_reporting_name = codes "Badger";
    })
    ∷ (record no_aircraft {
      acmi_short_name = codes "IL-76MD";
      tags = fixed_wing_tag ∷ unarmed ∷ [];
      platform_designation = codes "Il-76";
      type_designation = codes "Il-76MD";
      nato_reporting_name = codes "Candid";
    })
    ∷ (record no_aircraft {
      acmi_short_name = codes "IL-78M";
      tags = fixed_wing_tag ∷ unarmed ∷ [];
      platform_designation = codes "Il-78";
      type_designation = codes "Il-78M";
      nato_reporting_name = codes "Midas";
    })
    ∷ (record no_aircraft {
      acmi_short_name = codes "J-11A";
      tags = flanker_data.tags;
      platform_designation = flanker_data.platform_designation;
      type_designation = codes "J-11A";
      nato_reporting_name = flanker_data.nato_reporting_name;
      own_threat_radius = flanker_data.own_threat_radius;
    })
    ∷ []
