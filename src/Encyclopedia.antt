-- ===== src/Encyclopedia.antt =====
-- pkg/encyclopedia: the table of aircraft, by the name that telemetry gives them. The log message
-- about a missing aircraft is left out.
pub mod Airframes
pub mod Western
pub mod Mixed
pub mod Eastern
pub mod Support
pub mod TableAttackers
pub mod TableTransports
pub mod TableMirages
pub mod TableSukhois
pub mod Names
pub mod Radii
mod Tests
use skyeye.Common.{List, [], ◌∷◌, ◌++◌, Option, list_Eq, lookup, insert}
use skyeye.Common.Text.{Text}
use Airframes.{Aircraft}
use Western.*
use Mixed.*
use Eastern.*
use Support.*
use TableAttackers.*
use TableTransports.*
use TableMirages.*
use TableSukhois.*

abbrev pub aircraft_data : List Aircraft
aircraft_data = a_4e_to_b_1b ++ (c_17a_to_j_11a ++ (jf_17_to_mig_31 ++ m2000_5_to_uh_60a))

unfoldable pub variant_tables : List (List Aircraft)
unfolding a10_variants ah64_variants c101_variants ch47_variants f86_variants f4_variants
    f5_variants f14_variants f15_variants f16_variants fa18_variants ka50_variants mi24_variants
    mirage_f1_variants sa342_variants ft_variants fencer_variants foxbat_variants fulcrum_variants
    frogfoot_variants kc135_variants l39_variants mb339_variants s3_variants tornado_variants
    mq9_variants
variant_tables =
    a10_variants ∷ ah64_variants ∷ c101_variants ∷ ch47_variants ∷ f86_variants ∷ f4_variants
    ∷ f5_variants ∷ f14_variants ∷ f15_variants ∷ f16_variants ∷ fa18_variants ∷ ka50_variants
    ∷ mi24_variants ∷ mirage_f1_variants ∷ sa342_variants ∷ ft_variants ∷ fencer_variants
    ∷ foxbat_variants ∷ fulcrum_variants ∷ frogfoot_variants ∷ kc135_variants ∷ l39_variants
    ∷ mb339_variants ∷ s3_variants ∷ tornado_variants ∷ mq9_variants ∷ []

abbrev pub Lut : Type 0
Lut = List (Text × Aircraft)

-- The inner loop of init: a later aircraft of the same name takes the place of the earlier.
unfoldable pub put_all : List Aircraft → Lut → Lut
put_all [] lut = lut
put_all (a ∷ others) lut = put_all others (insert a.acmi_short_name a lut)

-- The outer loop of init.
unfoldable pub put_tables : List (List Aircraft) → Lut → Lut
put_tables [] lut = lut
put_tables (table ∷ tables) lut = put_tables tables (put_all table lut)

-- init
unfoldable pub aircraft_data_lut : Lut
unfolding put_tables put_all
aircraft_data_lut = put_tables (aircraft_data ∷ variant_tables) []

unfoldable pub get_aircraft_data : Text → Option Aircraft
get_aircraft_data name = lookup name aircraft_data_lut
