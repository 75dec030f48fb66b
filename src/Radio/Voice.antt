-- ===== src/Radio/Voice.antt =====
-- pkg/simpleradio/voice.go, transmit.go and frame.go: transmissions made into packets and back, and
-- the wait for a clear channel. Opus is a parameter.
pub mod Frames
pub mod Sending
pub mod Reception
pub mod Delivery
pub mod Waiting
use skyeye.Common.{
  ℕ, zero, suc, ◌+◌, ◌-◌, ◌*◌, ◌%◌, ◌^◌, ◌≡◌, ◌≤◌, Bool, true, false, List, [], ◌∷◌, ◌++◌, Option,
  none, some, ltb, if◌then◌else◌, ◌>>=◌, list_Eq, length, take, drop, replicate, lookup, map,
}
use skyeye.Common.Text.{Text}
use skyeye.Radio.Bytes.{Bytes}
use skyeye.Radio.Types.{Radio, ClientInfo}
use skyeye.Radio.Packet.{Frequency, VoicePacket, new_voice_packet, encode}
use skyeye.Radio.Receiver.{Receiver, Receivers, is_receiving_transmission}

-- encodingBufferSize
abbrev pub encoding_buffer_size : ℕ
encoding_buffer_size = 1024

-- Mono, 40 ms at 16 kHz.
abbrev pub frame_size : ℕ
frame_size = 1 * 40 * 16

abbrev pub Samples : Type 0
Samples = List ℕ

-- encodeFrame and decodeFrame, after the frames that the encoder or the decoder had before; `none` is
-- an error. A frame is encoded into a buffer.
pub record Opus : Type 0 where
  pub encode_frame : List Samples → Samples → Option Bytes
  pub decode_frame : List Bytes → Bytes → Option Samples
  pub encode_frame_length :
      (before : List Samples) (frame : Samples) (b : Bytes)
      → encode_frame before frame ≡ some b
      → length b ≤ encoding_buffer_size

-- What encodeVoice uses of the client.
pub record Sender : Type 0 where
  pub guid : Bytes
  pub radios : List Radio
  pub packet_number : ℕ

abbrev pub frequency_of : Radio → Frequency
frequency_of radio = record {
  bits = radio.frequency;
  modulation = radio.modulation % 256;
  encryption = 0;
}

-- The next frame, filled up with silence.
unfoldable pub frame_of : Samples → Samples
frame_of audio =
    let frame_audio = take frame_size audio in
    frame_audio ++ replicate (frame_size - length frame_audio) 0

-- The loop over the frames of a transmission.
unfoldable pub frames_from : ℕ → Samples → List Samples
frames_from zero audio = []
frames_from (suc fuel) [] = []
frames_from (suc fuel) (s ∷ audio) =
    frame_of (s ∷ audio) ∷ frames_from fuel (drop frame_size (s ∷ audio))

abbrev pub frames : Samples → List Samples
frames audio = frames_from (length audio) audio

abbrev pub voice_packet : Sender → Bytes → VoicePacket
voice_packet s audio =
    new_voice_packet audio (map frequency_of s.radios) 100000002 s.packet_number 0 s.guid s.guid

abbrev pub add_packet :
    Sender → Option Bytes → (Sender → List VoicePacket × Sender) → List VoicePacket × Sender
add_packet s none rest = rest s
add_packet s (some b) rest =
    let (packets, s') = rest (record s { packet_number = (s.packet_number + 1) % 2 ^ 64 }) in
    (voice_packet s b ∷ packets, s')

unfoldable pub encode_frames :
    Opus → List Samples → List Samples → Sender → List VoicePacket × Sender
encode_frames opus before [] s = ([], s)
encode_frames opus before (frame ∷ rest) s =
    add_packet s (opus.encode_frame before frame) (encode_frames opus (before ++ frame ∷ []) rest)

-- One turn of encodeVoice: the packets of a transmission, and the next packet number.
unfoldable pub encode_voice : Opus → Samples → Sender → List VoicePacket × Sender
encode_voice opus audio s = encode_frames opus [] (frames audio) s

pub record Transmission : Type 0 where
  pub client_name : Text
  pub audio : Samples

abbrev pub decoded : Option Samples → Samples → Samples
decoded none rest = rest
decoded (some pcm) rest = pcm ++ rest

unfoldable pub decode_packets : Opus → List Bytes → List VoicePacket → Samples
decode_packets opus before [] = []
decode_packets opus before (p ∷ ps) =
    decoded (opus.decode_frame before p.audio_bytes)
      (decode_packets opus (before ++ p.audio_bytes ∷ []) ps)

abbrev pub name_of : Option ClientInfo → Text
name_of none = []
name_of (some info) = info.name

-- One turn of decodeVoice: what it publishes.
unfoldable pub decode_voice :
    Opus → List (Bytes × ClientInfo) → List VoicePacket → Option Transmission
decode_voice opus clients [] = none
decode_voice opus clients (p ∷ ps) = elim (decode_packets opus [] (p ∷ ps)) [
  | [] ↦ none
  | s ∷ pcm ↦
      some (record { client_name = name_of (lookup p.origin_guid clients); audio = s ∷ pcm })
]

-- writePackets, with a write error only logged; `none` is a panic of Encode.
unfoldable pub write_packets : List VoicePacket → Option (List Bytes)
write_packets [] = some []
write_packets (p ∷ ps) = do b ← encode p; bs ← write_packets ps; some (b ∷ bs)

-- What a turn of transmit writes, once the channel is clear.
unfoldable pub transmit : Bool → List VoicePacket → Option (List Bytes)
transmit mute packets = if mute then some [] else write_packets packets

-- The loop over the receivers of waitForClearChannel: whether one receives, and the deadline.
unfoldable pub latest_deadline : ℕ → Receivers → Bool × ℕ → Bool × ℕ
latest_deadline now [] found = found
latest_deadline now ((radio, r) ∷ rs) (is_receiving, deadline) = latest_deadline now rs (
    if is_receiving_transmission now r
    then (true, if ltb deadline r.deadline then r.deadline else deadline)
    else (is_receiving, deadline))

-- One look at the channel: how long to sleep before the next, or `none` if it is clear. One reading
-- of the clock stands for those of the look.
unfoldable pub clear_channel_delay : ℕ → Receivers → Option ℕ
clear_channel_delay now rs =
    let (is_receiving, deadline) = latest_deadline now rs (false, now) in
    if is_receiving then some (deadline - now + 250000000) else none
