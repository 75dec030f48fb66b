-- ===== src/Radio/VoiceTests.antt =====
-- Runs of the voice encoder on silence, and the theorems at such inputs.
use skyeye.Common.{
  ℕ, zero, suc, ◌+◌, ◌*◌, ◌≡◌, ◌<◌, ◌≤◌, refl, ◌⊎◌, true, false, List, [], ◌∷◌, ◌++◌, none, some,
  arith, length, replicate, All,
}
use skyeye.Radio.Bytes.{Bytes}
use skyeye.Radio.Types.{Radio, is_same_frequency}
use skyeye.Radio.Receiver.{Receiver, Receivers, is_receiving_transmission, reset, run, tick}
use skyeye.Radio.Samples.{whole, distance, guid, radio, open_radios}
use skyeye.Radio.Voice.{
  Opus, Sender, Samples, frame_of, frames_from, frames, encode_frames, encode_voice, transmit,
  latest_deadline, clear_channel_delay,
}
use skyeye.Radio.Voice.Frames.{joined, frames-joined}
use skyeye.Radio.Voice.Waiting.{clear_channel_delay_cases}
use skyeye.Radio.Voice.Delivery.{Signal, arrival, fired, feed, run-transmit}
use skyeye.Radio.Voice.Reception.{is_tuned}

two_bytes : (b : Bytes) → some (7 ∷ 8 ∷ []) ≡ some b → length b ≤ 1024
two_bytes b e = ground (arith, e)

-- Every frame is encoded to two bytes.
abbrev short_opus : Opus
short_opus = record {
  encode_frame = λ before f. some (7 ∷ 8 ∷ []);
  decode_frame = λ before b. some b;
  encode_frame_length = λ before f. two_bytes;
}

abbrev sender : Sender
sender = record { guid = guid; radios = radio ∷ []; packet_number = 1 }

-- A bit more than a second.
abbrev silence : Samples
silence = replicate 16001 0

encoded : length (encode_voice short_opus silence sender).0 ≡ 26
unfolding encode_voice encode_frames frames_from frame_of
encoded = refl

framed : length (frames silence) ≡ 26
unfolding frames_from frame_of
framed = refl

-- A packet every 40 ms, and the ticker behind each.
abbrev signals_from : ℕ → ℕ → List Signal
signals_from k zero = []
signals_from k (suc n) =
    arrival (k * 40_000_000) ∷ fired (k * 40_000_000 + 1) 0 ∷ signals_from (suc k) n

abbrev signals : List Signal
signals = fired 0 0 ∷ signals_from 1 26

run-transmit_example :
    let ps = (encode_voice short_opus silence sender).0 in
    (bs : List Bytes) × (transmit false ps ≡ some bs)
    × (run whole (feed open_radios signals bs) ((radio, reset) ∷ [])).1 ≡ []
    × (run whole
          (feed open_radios signals bs ++ (open_radios, 1_340_000_001, tick 0) ∷ [])
          ((radio, reset) ∷ [])
        ≡ ((radio, reset) ∷ [], ps ∷ []))
unfolding is_tuned is_same_frequency distance
run-transmit_example =
    run-transmit short_opus whole sender silence open_radios radio signals 1_340_000_001
      (record {
        guid_is = refl;
        few_radios = omega arith;
        words = (omega arith, tt);
        numbers = omega (arith, framed);
      })
      (omega arith) refl refl (omega (arith, encoded)) (omega arith) (omega arith)
      (omega (arith, encoded))

-- The channel is clear 250 ms after the last deadline.
abbrev busy : Receiver
busy = record { buffer = []; origin = guid; deadline = 300; packet_number = 5 }

waited :
    clear_channel_delay 100 ((radio, busy) ∷ (radio, record busy { deadline = 200 }) ∷ [])
    ≡ some 250000200
unfolding clear_channel_delay latest_deadline is_receiving_transmission
waited = refl

abbrev channel_in_use : Receivers
channel_in_use = (radio, busy) ∷ (radio, reset) ∷ []

clear_channel_delay_cases_example :
    ((clear_channel_delay 100 channel_in_use ≡ none)
      × All (λ (e : Radio × Receiver). is_receiving_transmission 100 e.1 ≡ false) channel_in_use)
    ⊎ ((delay : ℕ) × (clear_channel_delay 100 channel_in_use ≡ some delay)
        × (250000000 ≤ delay)
        × All
            (λ (e : Radio × Receiver).
              is_receiving_transmission 100 e.1 ≡ true → e.1.deadline + 250000000 ≤ 100 + delay)
            channel_in_use)
clear_channel_delay_cases_example = clear_channel_delay_cases 100 channel_in_use

frames-joined_example :
    (k : ℕ) × (k < 640)
    × (joined (frames silence) ≡ silence ++ replicate k 0)
    × All (λ f. length f ≡ 640) (frames silence)
frames-joined_example = frames-joined silence
