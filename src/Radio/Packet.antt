-- ===== src/Radio/Packet.antt =====
-- pkg/simpleradio/voice/packet.go: the SRS voice packet, NewVoicePacket, Encode and Decode. A
-- float64 frequency is its bit pattern, so math.Float64bits and its inverse are the identity.
pub mod Layout
pub mod Reading
pub mod RoundTrip
pub mod Decoded
use skyeye.Common.{
  ℕ, zero, suc, ◌+◌, ◌*◌, ◌≡◌, List, [], ◌∷◌, ◌++◌, Option, none, some, ltb, if◌then◌else◌, ◌>>=◌,
  length, replicate,
}
use skyeye.Radio.Bytes.{
  Bytes, add16, sub16, of_le, slice, index, read_le, copy_into, put_le, set_byte,
}

pub record Frequency : Type 0 where
  pub bits : ℕ
  pub modulation : ℕ
  pub encryption : ℕ

pub record VoicePacket : Type 0 where
  pub packet_length : ℕ
  pub audio_segment_length : ℕ
  pub frequencies_segment_length : ℕ
  pub audio_bytes : Bytes
  pub frequencies : List Frequency
  pub unit_id : ℕ
  pub packet_id : ℕ
  pub hops : ℕ
  pub relay_guid : Bytes
  pub origin_guid : Bytes

abbrev pub header_segment_length : ℕ
header_segment_length = 6

abbrev pub fixed_segment_length : ℕ
fixed_segment_length = 58

abbrev pub frequency_length : ℕ
frequency_length = 10

abbrev pub guid_length : ℕ
guid_length = 22

abbrev pub max_uint16 : ℕ
max_uint16 = 0xffff

-- A length as a uint16, at most the largest.
abbrev pub clamp16 : ℕ → ℕ
clamp16 n = if ltb max_uint16 n then max_uint16 else n

unfoldable pub new_voice_packet : Bytes → List Frequency → ℕ → ℕ → ℕ → Bytes → Bytes → VoicePacket
new_voice_packet audio frequencies unit_id packet_id hops relay origin =
    let a = clamp16 (length audio) in
    let f = clamp16 (length frequencies * frequency_length) in
    record {
      packet_length = add16 (add16 (add16 header_segment_length a) f) fixed_segment_length;
      audio_segment_length = a;
      frequencies_segment_length = f;
      audio_bytes = audio;
      frequencies = frequencies;
      unit_id = unit_id;
      packet_id = packet_id;
      hops = hops;
      relay_guid = relay;
      origin_guid = origin;
    }

-- The loop over the frequencies, from index i on.
unfoldable pub put_frequencies : ℕ → ℕ → List Frequency → Bytes → Option Bytes
put_frequencies start i [] b = some b
put_frequencies start i (f ∷ fs) b =
    let offset = start + i * frequency_length in
    do
      b ← put_le 8 offset (offset + 8) f.bits b
      b ← set_byte (offset + 8) f.modulation b
      b ← set_byte (offset + 9) f.encryption b
      put_frequencies start (i + 1) fs b

-- The fixed segment. The pointers are uint16, and the first byte of the segment stays zero.
unfoldable pub put_fixed : VoicePacket → Bytes → Option Bytes
put_fixed p b =
    let unit_id_ptr = add16 (sub16 p.packet_length fixed_segment_length) 1 in
    let packet_id_ptr = add16 unit_id_ptr 4 in
    let hops_ptr = add16 packet_id_ptr 8 in
    let relay_id_ptr = add16 hops_ptr 1 in
    let origin_id_ptr = add16 relay_id_ptr guid_length in
    do
      b ← put_le 4 unit_id_ptr packet_id_ptr p.unit_id b
      b ← put_le 8 packet_id_ptr hops_ptr p.packet_id b
      b ← set_byte hops_ptr p.hops b
      b ← copy_into relay_id_ptr origin_id_ptr p.relay_guid b
      copy_into origin_id_ptr p.packet_length p.origin_guid b

-- `none` is a panic: Encode does not recover from one.
unfoldable pub encode : VoicePacket → Option Bytes
encode p = do
  b ← put_le 2 0 2 p.packet_length (replicate p.packet_length 0)
  b ← put_le 2 2 4 p.audio_segment_length b
  b ← put_le 2 4 6 p.frequencies_segment_length b
  b ← copy_into header_segment_length (header_segment_length + length p.audio_bytes) p.audio_bytes b
  b ← put_frequencies (header_segment_length + p.audio_segment_length) 0 p.frequencies b
  put_fixed p b

-- The loop over the frequencies segment, ten bytes at a time. A segment that ends inside a
-- frequency makes one of the indices panic.
unfoldable pub get_frequencies : Bytes → Option (List Frequency)
get_frequencies [] = some []
get_frequencies (b0 ∷ b1 ∷ b2 ∷ b3 ∷ b4 ∷ b5 ∷ b6 ∷ b7 ∷ m ∷ e ∷ rest) = do
  fs ← get_frequencies rest
  some (
      record {
        bits = of_le (b0 ∷ b1 ∷ b2 ∷ b3 ∷ b4 ∷ b5 ∷ b6 ∷ b7 ∷ []);
        modulation = m;
        encryption = e;
      }
      ∷ fs)
get_frequencies _ = none

-- `none` is the error that Decode makes of a panic.
unfoldable pub decode : Bytes → Option VoicePacket
decode b = do
  packet_length ← read_le 2 0 2 b
  let origin_id_ptr = sub16 packet_length guid_length
  let relay_id_ptr = sub16 origin_id_ptr guid_length
  let hops_ptr = sub16 relay_id_ptr 1
  let packet_id_ptr = sub16 hops_ptr 8
  let unit_id_ptr = sub16 packet_id_ptr 4
  audio_segment_length ← read_le 2 2 4 b
  frequencies_segment_length ← read_le 2 4 6 b
  unit_id ← read_le 4 unit_id_ptr packet_id_ptr b
  packet_id ← read_le 8 packet_id_ptr hops_ptr b
  hops ← index hops_ptr b
  relay_guid ← slice relay_id_ptr (add16 relay_id_ptr guid_length) b
  origin_guid ← slice origin_id_ptr (add16 origin_id_ptr guid_length) b
  audio ← slice header_segment_length (header_segment_length + audio_segment_length) b
  let frequencies_segment_ptr = add16 6 audio_segment_length
  segment ← slice frequencies_segment_ptr (frequencies_segment_ptr + frequencies_segment_length) b
  frequencies ← get_frequencies segment
  some (record {
    packet_length = packet_length;
    audio_segment_length = audio_segment_length;
    frequencies_segment_length = frequencies_segment_length;
    audio_bytes = audio;
    frequencies = frequencies;
    unit_id = unit_id;
    packet_id = packet_id;
    hops = hops;
    relay_guid = relay_guid;
    origin_guid = origin_guid;
  })
