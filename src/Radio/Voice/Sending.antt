-- ===== src/Radio/Voice/Sending.antt =====
-- pkg/simpleradio/voice.go: the packets of a transmission.
use skyeye.Common.{
  ℕ, suc, ◌+◌, ◌%◌, ◌^◌, ◌≡◌, ◌≤◌, ◌<◌, refl, List, [], ◌∷◌, ◌++◌, Option, none, some, arith, ◌>>=◌,
  length, map, All,
}
use mathlib.Core.Path.{subst}
use skyeye.Radio.Bytes.{Bytes}
use skyeye.Radio.Packet.{Frequency, VoicePacket, new_voice_packet, encode, decode, guid_length}
use skyeye.Radio.Packet.Reading.{IsWord64}
use skyeye.Radio.Packet.RoundTrip.{decode-encode}
use skyeye.Radio.Voice.{
  Opus, Sender, Samples, frequency_of, voice_packet, add_packet, encode_frames, encode_voice,
  frames,
}

-- The packets come from one client on the same frequencies, number after number, and each is read
-- back from the wire.
abbrev pub IsSent : Bytes → List Frequency → ℕ → List VoicePacket → Type 0
IsSent guid fs n [] = Unit
IsSent guid fs n (p ∷ ps) =
    (p.origin_guid ≡ guid)
    × (p.frequencies ≡ fs)
    × (p.packet_id ≡ n)
    × ((encode p >>= decode) ≡ some p)
    × IsSent guid fs (suc n) ps

-- A client that can send: its GUID has the length of one, and its radios fit in a packet.
pub record IsReady (s : Sender) (count : ℕ) : Type 0 where
  pub guid_is : length s.guid ≡ guid_length
  pub few_radios : length (map frequency_of s.radios) ≤ 1000
  pub words : All IsWord64 (map frequency_of s.radios)
  pub numbers : s.packet_number + count < 2 ^ 64

module _ (opus : Opus) where
  voice_packet-sent :
      (s : Sender) (count : ℕ) (b : Bytes)
      → IsReady s (suc count)
      → length b ≤ 1024
      → (encode (voice_packet s b) >>= decode) ≡ some (voice_packet s b)
  voice_packet-sent s count b v short =
      decode-encode b (map frequency_of s.radios) 100000002 s.packet_number 0 s.guid s.guid
        (omega (arith, v.few_radios, short)) v.guid_is v.guid_is
        (unfold new_voice_packet in
          record {
            unit_word = omega arith;
            packet_word = omega (arith, v.numbers);
            frequency_words = v.words;
          })

  add_packet-IsSent :
      (s : Sender) (o : Option Bytes) (rest : Sender → List VoicePacket × Sender) (count : ℕ)
      → ((b : Bytes) → o ≡ some b → length b ≤ 1024)
      → IsReady s (suc count)
      → ((t : Sender)
          → IsReady t count
          → IsSent t.guid (map frequency_of t.radios) t.packet_number (rest t).0)
      → IsSent s.guid (map frequency_of s.radios) s.packet_number (add_packet s o rest).0
  unfolding new_voice_packet
  add_packet-IsSent s none rest count short v sent = sent s (record {
    guid_is = v.guid_is;
    few_radios = v.few_radios;
    words = v.words;
    numbers = omega (arith, v.numbers);
  })
  add_packet-IsSent s (some b) rest count short v sent =
      let next : (s.packet_number + 1) % 2 ^ 64 ≡ suc s.packet_number = omega (arith, v.numbers) in
      let t = record s { packet_number = (s.packet_number + 1) % 2 ^ 64 } in
      let ready : IsReady t count = record {
        guid_is = v.guid_is;
        few_radios = v.few_radios;
        words = v.words;
        numbers = rw next (omega (arith, v.numbers));
      } in
      (
        refl,
        refl,
        refl,
        voice_packet-sent s count b v (short b refl),
        subst (λ n. IsSent s.guid (map frequency_of s.radios) n (rest t).0) next (sent t ready),
      )

  encode_frames-IsSent :
      (before rest : List Samples) (s : Sender)
      → IsReady s (length rest)
      → IsSent s.guid
          (map frequency_of s.radios)
          s.packet_number
          (encode_frames opus before rest s).0
  unfolding encode_frames
  encode_frames-IsSent before [] s v = tt
  encode_frames-IsSent before (frame ∷ rest) s v =
      add_packet-IsSent s (opus.encode_frame before frame)
        (encode_frames opus (before ++ frame ∷ []) rest) (length rest)
        (opus.encode_frame_length before frame) v
        (λ t ready. encode_frames-IsSent (before ++ frame ∷ []) rest t ready)

  pub encode_voice-IsSent :
      (audio : Samples) (s : Sender)
      → IsReady s (length (frames audio))
      → IsSent s.guid (map frequency_of s.radios) s.packet_number (encode_voice opus audio s).0
  unfolding encode_voice
  encode_voice-IsSent audio s v = encode_frames-IsSent [] (frames audio) s v
