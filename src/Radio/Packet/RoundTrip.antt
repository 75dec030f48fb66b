-- ===== src/Radio/Packet/RoundTrip.antt =====
-- Decoding what Encode wrote, for packets of NewVoicePacket.
use mathlib.Core.List.{append_assoc, append-nil}
use skyeye.Common.{
  ℕ, ◌+◌, ◌*◌, ◌^◌, ◌<◌, ◌≡◌, refl, List, [], ◌∷◌, ◌++◌, some, arith, ◌>>=◌, length, length-append,
  All,
}
use skyeye.Radio.Bytes.{Bytes, add16, sub16, le_bytes, slice, index, read_le, length-le_bytes}
use skyeye.Radio.Packet.{
  Frequency, VoicePacket, frequency_length, guid_length, new_voice_packet, encode, decode,
}
use skyeye.Radio.Packet.Layout.{
  Fits, layout, header_bytes, fixed_bytes, frequencies_bytes, encode-layout,
  length-frequencies_bytes,
}
use skyeye.Radio.Packet.Reading.{
  slice_here, read_le_here, index_here, IsWord64, get_frequencies-bytes,
}

-- The fields of a packet are words of their widths.
pub record InRange (p : VoicePacket) : Type 0 where
  pub unit_word : p.unit_id < 256 ^ 4
  pub packet_word : p.packet_id < 256 ^ 8
  pub frequency_words : All IsWord64 p.frequencies

-- What stands before each part of the packet.
abbrev before_fixed : VoicePacket → Bytes
before_fixed p = header_bytes p ++ (p.audio_bytes ++ frequencies_bytes p.frequencies)

abbrev before_unit : VoicePacket → Bytes
before_unit p = before_fixed p ++ 0 ∷ []

abbrev before_packet_id : VoicePacket → Bytes
before_packet_id p = before_unit p ++ le_bytes 4 p.unit_id

abbrev before_hops : VoicePacket → Bytes
before_hops p = before_packet_id p ++ le_bytes 8 p.packet_id

abbrev before_relay : VoicePacket → Bytes
before_relay p = before_hops p ++ p.hops ∷ []

abbrev before_origin : VoicePacket → Bytes
before_origin p = before_relay p ++ p.relay_guid

-- What stands behind each part of the packet.
abbrev after_hops : VoicePacket → Bytes
after_hops p = p.relay_guid ++ p.origin_guid

abbrev after_unit : VoicePacket → Bytes
after_unit p = le_bytes 8 p.packet_id ++ (p.hops ∷ after_hops p)

abbrev after_audio : VoicePacket → Bytes
after_audio p = frequencies_bytes p.frequencies ++ fixed_bytes p

abbrev after_header : VoicePacket → Bytes
after_header p = p.audio_bytes ++ after_audio p

-- Each part of the packet is read back from where Encode put it.
module _ (p : VoicePacket) (v : Fits p) where
  length-header_bytes : length (header_bytes p) ≡ 6
  unfolding header_bytes le_bytes
  length-header_bytes = refl

  length-before_fixed : length (before_fixed p) + 58 ≡ p.packet_length
  length-before_fixed = omega (
    arith,
    length-header_bytes,
    length-append (header_bytes p) (p.audio_bytes ++ frequencies_bytes p.frequencies),
    length-append p.audio_bytes (frequencies_bytes p.frequencies),
    length-frequencies_bytes p.frequencies,
    v.total_length,
    v.audio_length,
    v.frequencies_length,
  )

  length-before_unit : length (before_unit p) + 57 ≡ p.packet_length
  length-before_unit = omega (arith, length-before_fixed, length-append (before_fixed p) (0 ∷ []))

  length-before_packet_id : length (before_packet_id p) + 53 ≡ p.packet_length
  length-before_packet_id = omega (
    arith,
    length-before_unit,
    length-append (before_unit p) (le_bytes 4 p.unit_id),
    length-le_bytes 4 p.unit_id,
  )

  length-before_hops : length (before_hops p) + 45 ≡ p.packet_length
  length-before_hops = omega (
    arith,
    length-before_packet_id,
    length-append (before_packet_id p) (le_bytes 8 p.packet_id),
    length-le_bytes 8 p.packet_id,
  )

  length-before_relay : length (before_relay p) + 44 ≡ p.packet_length
  length-before_relay =
      omega (arith, length-before_hops, length-append (before_hops p) (p.hops ∷ []))

  length-before_origin : length (before_origin p) + 22 ≡ p.packet_length
  length-before_origin =
      omega
        (arith, length-before_relay, length-append (before_relay p) p.relay_guid, v.relay_length)

  read_packet_length : read_le 2 0 2 (layout p) ≡ some p.packet_length
  unfolding layout header_bytes
  read_packet_length =
      let post =
        le_bytes 2 p.audio_segment_length
        ++ (le_bytes 2 p.frequencies_segment_length ++ after_header p) in
      read_le_here [] post 0 refl 2 p.packet_length 2 (simp append_assoc) refl
        (omega (arith, v.in_range))

  read_audio_segment_length : read_le 2 2 4 (layout p) ≡ some p.audio_segment_length
  unfolding layout header_bytes
  read_audio_segment_length =
      let l = length-le_bytes 2 p.packet_length in
      read_le_here (le_bytes 2 p.packet_length)
        (le_bytes 2 p.frequencies_segment_length ++ after_header p) 2 (omega arith) 2
        p.audio_segment_length 4 (simp append_assoc) refl
        (omega (arith, v.in_range, v.total_length))

  read_frequencies_segment_length : read_le 2 4 6 (layout p) ≡ some p.frequencies_segment_length
  unfolding layout header_bytes
  read_frequencies_segment_length =
      let pre = le_bytes 2 p.packet_length ++ le_bytes 2 p.audio_segment_length in
      let l : length pre ≡ 4 = unfold le_bytes in refl in
      read_le_here pre (after_header p) 4 (omega arith) 2 p.frequencies_segment_length 6
        (simp append_assoc) refl (omega (arith, v.in_range, v.total_length))

  slice_audio : slice 6 (6 + p.audio_segment_length) (layout p) ≡ some p.audio_bytes
  unfolding layout
  slice_audio =
      slice_here (header_bytes p) (after_audio p) 6 (omega (arith, length-header_bytes))
        p.audio_bytes _ refl (omega (arith, v.audio_length))

  slice_frequencies :
      (lo : ℕ)
      → lo ≡ 6 + p.audio_segment_length
      → slice lo (lo + p.frequencies_segment_length) (layout p)
        ≡ some (frequencies_bytes p.frequencies)
  unfolding layout
  slice_frequencies lo e =
      slice_here (header_bytes p ++ p.audio_bytes) (fixed_bytes p) lo
        (omega (
          arith,
          length-header_bytes,
          length-append (header_bytes p) p.audio_bytes,
          v.audio_length,
        ))
        (frequencies_bytes p.frequencies) _ (simp append_assoc)
        (omega (arith, length-frequencies_bytes p.frequencies, v.frequencies_length))

  read_unit_id :
      (lo hi : ℕ)
      → lo + 57 ≡ p.packet_length
      → hi + 53 ≡ p.packet_length
      → p.unit_id < 256 ^ 4
      → read_le 4 lo hi (layout p) ≡ some p.unit_id
  unfolding layout fixed_bytes
  read_unit_id lo hi e h r =
      read_le_here (before_unit p) (after_unit p) lo (omega (arith, length-before_unit)) 4 p.unit_id
        hi (simp append_assoc) (omega arith) r

  read_packet_id :
      (lo hi : ℕ)
      → lo + 53 ≡ p.packet_length
      → hi + 45 ≡ p.packet_length
      → p.packet_id < 256 ^ 8
      → read_le 8 lo hi (layout p) ≡ some p.packet_id
  unfolding layout fixed_bytes
  read_packet_id lo hi e h r =
      read_le_here (before_packet_id p) (p.hops ∷ after_hops p) lo
        (omega (arith, length-before_packet_id)) 8 p.packet_id hi (simp append_assoc) (omega arith)
        r

  index_hops : (i : ℕ) → i + 45 ≡ p.packet_length → index i (layout p) ≡ some p.hops
  unfolding layout fixed_bytes
  index_hops i e =
      index_here (before_hops p) (after_hops p) i (omega (arith, length-before_hops)) p.hops
        (simp append_assoc)

  slice_relay :
      (lo hi : ℕ)
      → lo + 44 ≡ p.packet_length
      → hi ≡ lo + 22
      → slice lo hi (layout p) ≡ some p.relay_guid
  unfolding layout fixed_bytes
  slice_relay lo hi e h =
      slice_here (before_relay p) p.origin_guid lo (omega (arith, length-before_relay)) p.relay_guid
        hi (simp append_assoc) (omega (arith, v.relay_length))

  slice_origin :
      (lo hi : ℕ)
      → lo + 22 ≡ p.packet_length
      → hi ≡ lo + 22
      → slice lo hi (layout p) ≡ some p.origin_guid
  unfolding layout fixed_bytes
  slice_origin lo hi e h =
      slice_here (before_origin p) [] lo (omega (arith, length-before_origin)) p.origin_guid hi
        (simp (append_assoc, append-nil)) (omega (arith, v.origin_length))

decode-layout : (p : VoicePacket) → Fits p → InRange p → decode (layout p) ≡ some p
unfolding decode
decode-layout p v w =
    let origin_id_ptr = sub16 p.packet_length 22 in
    let relay_id_ptr = sub16 origin_id_ptr 22 in
    let hops_ptr = sub16 relay_id_ptr 1 in
    let packet_id_ptr = sub16 hops_ptr 8 in
    let unit_id_ptr = sub16 packet_id_ptr 4 in
    let range : p.packet_length < 0x1_0000 = v.in_range in
    let q4 : origin_id_ptr + 22 ≡ p.packet_length = omega (arith, v.total_length) in
    let q3 : relay_id_ptr + 44 ≡ p.packet_length = omega (arith, v.total_length, q4) in
    let q2 : hops_ptr + 45 ≡ p.packet_length = omega (arith, v.total_length, q3) in
    let q1 : packet_id_ptr + 53 ≡ p.packet_length = omega (arith, v.total_length, q2) in
    let q0 : unit_id_ptr + 57 ≡ p.packet_length = omega (arith, v.total_length, q1) in
    let segment = add16 6 p.audio_segment_length in
    rw (
      read_packet_length p v,
      read_audio_segment_length p v,
      read_frequencies_segment_length p v,
      read_unit_id p v unit_id_ptr packet_id_ptr q0 q1 w.unit_word,
      read_packet_id p v packet_id_ptr hops_ptr q1 q2 w.packet_word,
      index_hops p v hops_ptr q2,
      slice_relay p v relay_id_ptr (add16 relay_id_ptr 22) q3 (omega (arith, q3)),
      slice_origin p v origin_id_ptr (add16 origin_id_ptr 22) q4 (omega (arith, q4)),
      slice_audio p v,
      slice_frequencies p v segment (omega (arith, v.total_length)),
      get_frequencies-bytes p.frequencies w.frequency_words,
    )

new_voice_packet-Fits :
    (audio : Bytes) (frequencies : List Frequency) (unit_id packet_id hops : ℕ)
    (relay origin : Bytes)
    → length relay ≡ guid_length
    → length origin ≡ guid_length
    → 64 + length audio + length frequencies * frequency_length < 0x1_0000
    → Fits (new_voice_packet audio frequencies unit_id packet_id hops relay origin)
unfolding new_voice_packet
new_voice_packet-Fits audio frequencies unit_id packet_id hops relay origin r o h = ground arith

-- A packet of NewVoicePacket whose parts fit in 65535 bytes, with GUIDs of 22 bytes, a unit ID of
-- 32 bits, and a packet ID and frequencies of 64 bits, is encoded without a panic, and Decode
-- gives back the same packet.
pub decode-encode :
    (audio : Bytes) (frequencies : List Frequency) (unit_id packet_id hops : ℕ)
    (relay origin : Bytes)
    → 64 + length audio + length frequencies * frequency_length < 0x1_0000
    → length relay ≡ guid_length
    → length origin ≡ guid_length
    → InRange (new_voice_packet audio frequencies unit_id packet_id hops relay origin)
    → let p = new_voice_packet audio frequencies unit_id packet_id hops relay origin in
      (encode p >>= decode) ≡ some p
decode-encode audio frequencies unit_id packet_id hops relay origin h r o w =
    let p = new_voice_packet audio frequencies unit_id packet_id hops relay origin in
    let v = new_voice_packet-Fits audio frequencies unit_id packet_id hops relay origin r o h in
    rw (encode-layout p v) (decode-layout p v w)
