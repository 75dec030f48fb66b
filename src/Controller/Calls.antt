-- ===== src/Controller/Calls.antt =====
-- pkg/brevity: the calls and responses of the controller (pkg/controller/controller.go's Call), as far
-- as they are decided and not measured: bearings, ranges and aspects are left out.
use skyeye.Common.{ℕ, Bool, List, Option}
use skyeye.Common.Text.{Text}
use skyeye.Trackfiles.{Trackfile}
use skyeye.Radar.Grouping.{Group}
use skyeye.Controller.Threats.{ThreatCall}

pub data Declaration : Type 0 where
  bogey friendly neutral bandit hostile furball unable clean : Declaration

-- A group of a response, with what the controller sets in it.
pub record GroupReport : Type 0 where
  pub group : Group
  pub declaration : Declaration
  pub merged_with : ℕ

-- Broadcasts name a group by its IDs.
pub data Call : Type 0 where
  faded_call : List ℕ → Call
  threat_call : ThreatCall → Call
  picture_response : ℕ → List (List ℕ × ℕ) → Call
  radio_check_response : Text → Bool → Call
  alpha_check_response : Text → Option Trackfile → Call
  tripwire_response : Text → Call
  negative_radar_contact_response : Text → Call
  say_again_response : Text → Call
  bogey_dope_response : Text → Option GroupReport → Call
  declare_response : Text → Declaration → Option GroupReport → Call
  snaplock_response : Text → Declaration → Option GroupReport → Call
  -- The callsign, the reported bearing, and the group if the spike was correlated.
  spiked_response : Text → ℕ → Option Group → Call
