-- ===== src/Radio/Samples.antt =====
-- Radios on which the radio client is run.
use skyeye.Common.{ℕ, ◌-◌, ◌%◌, ◌^◌, ◌≡◌, ap, false, [], ◌∷◌, arith, leb, if◌then◌else◌, replicate}
use skyeye.Coalitions.{blue}
use skyeye.Radio.Bytes.{Bytes}
use skyeye.Common.Text.{codes}
use skyeye.Radio.Clients.{Client}
use skyeye.Radio.Types.{Float64, Radio, ClientInfo}
use skyeye.Radio.Packet.{Frequency}
use skyeye.Radio.Receiver.{Settings}

unfoldable pub distance : ℕ → ℕ → ℕ
distance a b = if leb b a then a - b else b - a

pub distance_comm : (a b c : ℕ) → leb (distance a b % 2 ^ 63) c ≡ leb (distance b a % 2 ^ 63) c
unfolding distance
distance_comm a b c = ap (λ d. leb (d % 2 ^ 63) c) (ground arith)

-- Floats that are whole numbers.
abbrev pub whole : Float64
whole = record { sub = distance; le = leb; abs-sub_comm = distance_comm }

abbrev pub guid : Bytes
guid = replicate 22 b'g'

abbrev pub channel : Frequency
channel = record { bits = 251_000_000; modulation = 0; encryption = 0 }

abbrev pub radio : Radio
radio = record {
  frequency = 251_000_000;
  modulation = 0;
  is_encrypted = false;
  encryption_key = 0;
  guard_frequency = 0;
  should_retransmit = false;
}

abbrev pub open_radios : Settings
open_radios = record { secure_coalition_radios = false; clients = []; coalition = blue }

abbrev pub bot : ClientInfo
bot = record {
  guid = guid;
  name = codes "SkyEye [BOT]";
  coalition = blue;
  radio_info = record { radios = radio ∷ []; unit = codes "External AWACS"; unit_id = 100_000_002 };
}

abbrev pub pilot : ClientInfo
pilot = record {
  guid = b'p' ∷ [];
  name = codes "Eagle 1";
  coalition = blue;
  radio_info = record { radios = radio ∷ []; unit = codes "F-15"; unit_id = 7 };
}

abbrev pub client : Client
client = record {
  info = bot;
  clients = [];
  secure_coalition_radios = false;
  password = [];
  sent = [];
}

abbrev pub met : Client
met = record client { clients = (b'p' ∷ [], pilot) ∷ [] }
