-- ===== src/Radio/Receiver.antt =====
-- pkg/simpleradio/receive.go: the receiver of one radio, and the loop of receiveVoice. Times are
-- nanoseconds, with time.Time{} at 0; `now` is what time.Now would return.
pub mod Order
pub mod Runs
use skyeye.Common.{
  ℕ, ◌+◌, ◌*◌, ◌≡◌, Bool, true, false, not, ◌&&◌, ◌||◌, List, [], ◌∷◌, ◌++◌, Option, none, some,
  nat_eq, ltb, if◌then◌else◌, ◌==◌, list_Eq, length, lookup,
}
use skyeye.Coalitions.{Coalition}
use skyeye.Radio.Bytes.{Bytes}
use skyeye.Radio.Types.{Float64, Radio, ClientInfo, is_same_frequency}
use skyeye.Radio.Packet.{Frequency, VoicePacket, decode}

pub record Receiver : Type 0 where
  pub buffer : List VoicePacket
  pub origin : Bytes
  pub deadline : ℕ
  pub packet_number : ℕ

abbrev pub max_rx_gap : ℕ
max_rx_gap = 300_000_000

abbrev pub min_rx_duration : ℕ
min_rx_duration = 1_000_000_000

abbrev pub frame_length : ℕ
frame_length = 40_000_000

unfoldable pub receive : ℕ → VoicePacket → Receiver → Receiver
receive now packet r =
    let is_new_transmission = r.origin == [] && nat_eq r.packet_number 0 in
    let is_newer_packet = ltb r.packet_number packet.packet_id in
    let is_same_origin = r.origin == packet.origin_guid in
    let should_accept_packet = is_new_transmission || (is_newer_packet && is_same_origin) in
    if not should_accept_packet then r else record {
      buffer = r.buffer ++ packet ∷ [];
      origin = packet.origin_guid;
      deadline = now + max_rx_gap;
      packet_number = packet.packet_id;
    }

unfoldable pub has_transmission : ℕ → Receiver → Bool
has_transmission now r = ltb 0 (length r.buffer) && ltb r.deadline now

unfoldable pub is_receiving_transmission : ℕ → Receiver → Bool
is_receiving_transmission now r = ltb now r.deadline

abbrev pub reset : Receiver
reset = record { buffer = []; origin = []; deadline = 0; packet_number = 0 }

-- The radio that a packet's frequency stands for.
abbrev pub test_radio : Frequency → Radio
test_radio f = record {
  frequency = f.bits;
  modulation = f.modulation;
  is_encrypted = not (nat_eq f.encryption 0);
  encryption_key = 0;
  guard_frequency = 0;
  should_retransmit = false;
}

-- What receiveVoice reads of the client.
pub record Settings : Type 0 where
  pub secure_coalition_radios : Bool
  pub clients : List (Bytes × ClientInfo)
  pub coalition : Coalition

-- With secure radios a packet counts only if a known client of the own coalition sent it.
unfoldable pub is_accepted : Settings → VoicePacket → Bool
is_accepted c packet =
    if c.secure_coalition_radios
    then elim (lookup packet.origin_guid c.clients) [
      | none ↦ false
      | some client ↦ nat_eq client.coalition c.coalition
    ]
    else true

abbrev pub Receivers : Type 0
Receivers = List (Radio × Receiver)

pub data Event : Type 0 where
  datagram : Bytes → Event
  -- The ticker, with the number of datagrams that wait.
  tick : ℕ → Event

-- What a tick takes from the receivers, and what it leaves of them.
unfoldable pub flush : ℕ → Receivers → Receivers × List (List VoicePacket)
flush now [] = ([], [])
flush now ((radio, r) ∷ rs) =
    let (rest, out) = flush now rs in
    if has_transmission now r
    then (
      (radio, reset) ∷ rest,
      if ltb min_rx_duration (length r.buffer * frame_length) then r.buffer ∷ out else out,
    )
    else ((radio, r) ∷ rest, out)

module _ (float : Float64) where
  -- The loop over the packet's frequencies, for the receiver of one radio.
  unfoldable pub receive_on : ℕ → VoicePacket → Radio → List Frequency → Receiver → Receiver
  receive_on now packet radio [] r = r
  receive_on now packet radio (f ∷ fs) r =
      receive_on now packet radio fs
        (if is_same_frequency float (test_radio f) radio then receive now packet r else r)

  unfoldable pub receive_all : ℕ → VoicePacket → Receivers → Receivers
  receive_all now packet [] = []
  receive_all now packet ((radio, r) ∷ rs) =
      (radio, receive_on now packet radio packet.frequencies r) ∷ receive_all now packet rs

  -- One turn of the loop: the receivers after it, and the transmissions that it hands on.
  unfoldable pub receive_voice :
      Settings → ℕ → Event → Receivers → Receivers × List (List VoicePacket)
  receive_voice c now (datagram b) rs = elim (decode b) [
    | none ↦ (rs, [])
    | some packet ↦ (if is_accepted c packet then receive_all now packet rs else rs, [])
  ]
  receive_voice c now (tick waiting) rs = if nat_eq waiting 0 then flush now rs else (rs, [])

  -- A run: settings may change between events.
  unfoldable pub run : List (Settings × ℕ × Event) → Receivers → Receivers × List (List VoicePacket)
  run [] rs = (rs, [])
  run ((c, now, e) ∷ es) rs =
      let (rs', out) = receive_voice c now e rs in
      let (rs'', later) = run es rs' in (rs'', out ++ later)
