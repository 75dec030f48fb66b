-- ===== src/Radio/Types.antt =====
-- pkg/simpleradio/types: radios, clients and messages of the SRS data protocol. A float64 is its
-- bit pattern; Go's subtraction and comparison of floats are the parameter `Float64`.
use skyeye.Common.{
  ℕ, ◌%◌, ◌^◌, ◌≡◌, Bool, true, false, not, ◌&&◌, ◌||◌, List, [], ◌∷◌, nat_eq, if◌then◌else◌,
}
use skyeye.Common.Text.{Text}
use skyeye.Coalitions.{Coalition}
use skyeye.Radio.Bytes.{Bytes}

-- math.Abs clears the sign bit.
abbrev pub abs : ℕ → ℕ
abs x = x % 2 ^ 63

-- a - b and b - a differ in their sign alone.
pub record Float64 : Type 0 where
  pub sub : ℕ → ℕ → ℕ
  pub le : ℕ → ℕ → Bool
  pub abs-sub_comm : (a b c : ℕ) → le (abs (sub a b)) c ≡ le (abs (sub b a)) c

-- 500.0
abbrev pub five_hundred : ℕ
five_hundred = 0x407f_4000_0000_0000

pub record Radio : Type 0 where
  pub frequency : ℕ
  pub modulation : ℕ
  pub is_encrypted : Bool
  pub encryption_key : ℕ
  pub guard_frequency : ℕ
  pub should_retransmit : Bool

module _ (float : Float64) where
  unfoldable pub is_same_frequency : Radio → Radio → Bool
  is_same_frequency r other =
      let frequency_match = float.le (abs (float.sub r.frequency other.frequency)) five_hundred in
      let modulation_match = nat_eq r.modulation other.modulation in
      let encryption_match =
        not r.is_encrypted && not other.is_encrypted
        || (r.is_encrypted && other.is_encrypted && nat_eq r.encryption_key other.encryption_key) in
      frequency_match && modulation_match && encryption_match

  -- The inner loop, over the other client's radios.
  unfoldable pub any_same_frequency : Radio → List Radio → Bool
  any_same_frequency r [] = false
  any_same_frequency r (o ∷ os) = if is_same_frequency r o then true else any_same_frequency r os

  unfoldable pub is_on_frequency : List Radio → List Radio → Bool
  is_on_frequency [] others = false
  is_on_frequency (r ∷ rs) others =
      if any_same_frequency r others then true else is_on_frequency rs others

-- Of RadioInfo: the radios and the unit. The transponder, ambient audio and position of a client
-- are carried along by SRS and read by nothing.
pub record RadioInfo : Type 0 where
  pub radios : List Radio
  pub unit : Text
  pub unit_id : ℕ

pub record ClientInfo : Type 0 where
  pub guid : Bytes
  pub name : Text
  pub coalition : Coalition
  pub radio_info : RadioInfo

pub data MessageType : Type 0 where
  update ping sync radio_update server_settings client_disconnect version_mismatch : MessageType
  external_awacs_mode_password external_awacs_mode_disconnect unrecognized : MessageType
