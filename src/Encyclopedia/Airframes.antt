-- ===== src/Encyclopedia/Airframes.antt =====
-- pkg/encyclopedia/aircraft.go: an aircraft, its tags and its threat radius, in nautical miles.
use skyeye.Common.{
  ℕ, Bool, true, false, not, ◌||◌, List, [], ◌∷◌, ◌++◌, nat_eq, if◌then◌else◌, ◌==◌, list_Eq,
}
use skyeye.Common.Text.{Text, codes}
use skyeye.Brevity.{Category, aircraft, fixed_wing, rotary_wing}

pub data Tag : Type 0 where
  fixed_wing_tag rotary_wing_tag unarmed fighter attack : Tag

unfoldable pub tag_eq : Tag → Tag → Bool
tag_eq fixed_wing_tag fixed_wing_tag = true
tag_eq rotary_wing_tag rotary_wing_tag = true
tag_eq unarmed unarmed = true
tag_eq fighter fighter = true
tag_eq attack attack = true
tag_eq _ _ = false

-- A set of tags; the source keeps it as the keys of a map to true.
abbrev pub Tags : Type 0
Tags = List Tag

-- An empty text is a name that the aircraft does not have, and a radius of 0 is none of its own.
pub record Aircraft : Type 0 where
  pub acmi_short_name : Text
  pub tags : Tags
  pub platform_designation : Text
  pub type_designation : Text
  pub nato_reporting_name : Text
  pub official_name : Text
  pub nickname : Text
  pub own_threat_radius : ℕ

-- The zero value, of which a composite literal sets some fields.
abbrev pub no_aircraft : Aircraft
no_aircraft = record {
  acmi_short_name = [];
  tags = [];
  platform_designation = [];
  type_designation = [];
  nato_reporting_name = [];
  official_name = [];
  nickname = [];
  own_threat_radius = 0;
}

abbrev pub mig15_nato_reporting_name : Text
mig15_nato_reporting_name = codes "Fagot"

abbrev pub sar1_ir_threat : ℕ
sar1_ir_threat = 15

abbrev pub sar2_ar1_threat : ℕ
sar2_ar1_threat = 25

abbrev pub extended_threat : ℕ
extended_threat = 35

unfoldable pub tagged : Tags → Tag → Bool
unfolding tag_eq
tagged [] tag = false
tagged (t ∷ ts) tag = tag_eq t tag || tagged ts tag

unfoldable pub has_tag : Aircraft → Tag → Bool
unfolding tagged
has_tag a tag = tagged a.tags tag

unfoldable pub has_any_tag : Aircraft → Tags → Bool
has_any_tag a [] = false
has_any_tag a (tag ∷ tags) = if has_tag a tag then true else has_any_tag a tags

unfoldable pub category_of : Aircraft → Category
category_of a =
    if has_tag a fixed_wing_tag
    then fixed_wing
    else if has_tag a rotary_wing_tag
    then rotary_wing
    else aircraft

unfoldable pub threat_radius : Aircraft → ℕ
threat_radius a =
    if not (nat_eq a.own_threat_radius 0) || has_tag a unarmed
    then a.own_threat_radius
    else if has_tag a rotary_wing_tag
    then 3
    else if has_tag a attack
    then sar1_ir_threat
    else sar2_ar1_threat

-- The name that the aircraft has in telemetry, before the suffix of the variant.
abbrev pub base_name : Aircraft → Text
base_name family =
    if not (family.acmi_short_name == [])
    then family.acmi_short_name
    else family.platform_designation

-- The loop over the naming, a map from the suffix of the name to that of the designation.
unfoldable pub variants : Aircraft → List (Text × Text) → List Aircraft
variants family [] = []
variants family ((name_suffix, designation_suffix) ∷ naming) =
    record no_aircraft {
      tags = family.tags;
      platform_designation = family.platform_designation;
      type_designation = family.type_designation ++ designation_suffix;
      nato_reporting_name = family.nato_reporting_name;
      official_name = family.official_name;
      nickname = family.nickname;
      acmi_short_name = base_name family ++ name_suffix;
    }
    ∷ variants family naming
