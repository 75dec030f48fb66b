-- ===== src/Radio/Voice/Reception.antt =====
-- pkg/simpleradio: what a receiver does with a packet of a transmission, and its buffer when the ticker fires.
use skyeye.Common.{
  ℕ, ◌+◌, ◌≡◌, ◌≤◌, ◌<◌, refl, ap, ◌∙◌, ◌⊎◌, inl, inr, Bool, true, false, ◌||◌, List, [], ◌∷◌, ◌++◌,
  none, some, arith, nat_eq, nat_eq_iff, length, Bool-cases, if◌then◌else◌, list_eq, list_eq_iff,
  list_Eq,
}
use skyeye.Radio.Bytes.{Bytes}
use skyeye.Radio.Types.{Float64, Radio, is_same_frequency}
use skyeye.Radio.Packet.{Frequency, VoicePacket, decode}
use skyeye.Radio.Receiver.{
  Receiver, Receivers, Settings, datagram, tick, reset, receive, receive_on, receive_all,
  receive_voice, flush, has_transmission, is_accepted, test_radio, max_rx_gap,
}

-- The receiver is free, or is taken by this client and behind this number.
abbrev pub IsWaiting : Bytes → ℕ → Receiver → Type 0
IsWaiting guid n r =
    ((r.origin ≡ []) × (r.packet_number ≡ 0)) ⊎ ((r.origin ≡ guid) × (r.packet_number < n))

abbrev pub accepted : ℕ → VoicePacket → Receiver → Receiver
accepted now p r = record {
  buffer = r.buffer ++ p ∷ [];
  origin = p.origin_guid;
  deadline = now + max_rx_gap;
  packet_number = p.packet_id;
}

receive-IsWaiting :
    (now : ℕ) (p : VoicePacket) (r : Receiver)
    → IsWaiting p.origin_guid p.packet_id r
    → receive now p r ≡ accepted now p r
unfolding receive list_eq
receive-IsWaiting now p r (inl (free, zeroth)) = rw (free, zeroth) refl
receive-IsWaiting now p r (inr (same, behind)) =
    rw (same, (list_eq_iff p.origin_guid p.origin_guid).1 refl) (ground (arith, behind))

receive_again :
    (now : ℕ) (p : VoicePacket) (r : Receiver)
    → 1 ≤ p.packet_id
    → p.packet_id ≤ r.packet_number
    → receive now p r ≡ r
unfolding receive
receive_again now p r first late = ground (arith, first, late)

-- A radio that one of the frequencies is for.
unfoldable pub is_tuned : Float64 → Radio → List Frequency → Bool
is_tuned float radio [] = false
is_tuned float radio (f ∷ fs) =
    is_same_frequency float (test_radio f) radio || is_tuned float radio fs

pub flush_early :
    (now deadline : ℕ) (radio : Radio) (r : Receiver)
    → r.deadline ≡ deadline
    → now ≤ deadline
    → flush now ((radio, r) ∷ []) ≡ ((radio, r) ∷ [], [])
unfolding flush has_transmission
flush_early now deadline radio r due early = ground (arith, due, early)

pub flush_empty :
    (now : ℕ) (radio : Radio) (r : Receiver)
    → r.buffer ≡ []
    → flush now ((radio, r) ∷ []) ≡ ((radio, r) ∷ [], [])
unfolding flush has_transmission
flush_empty now radio r empty = rw empty refl

pub flush_complete :
    (late : ℕ) (radio : Radio) (r : Receiver) (ps : List VoicePacket)
    → r.buffer ≡ ps
    → r.deadline < late
    → 25 < length ps
    → flush late ((radio, r) ∷ []) ≡ ((radio, reset) ∷ [], ps ∷ [])
unfolding flush has_transmission
flush_complete late radio r ps same over long = rw same (ground (arith, over, long))

module _ (float : Float64) where
  receive_on_again :
      (now : ℕ) (p : VoicePacket) (radio : Radio) (fs : List Frequency) (r : Receiver)
      → 1 ≤ p.packet_id
      → p.packet_id ≤ r.packet_number
      → receive_on float now p radio fs r ≡ r
  unfolding receive_on
  receive_on_again now p radio [] r first late = refl
  receive_on_again now p radio (f ∷ fs) r first late =
      rw (receive_again now p r first late)
        (elim (Bool-cases (is_same_frequency float (test_radio f) radio)) [
          | inl same ↦ rw same (receive_on_again now p radio fs r first late)
          | inr other ↦ rw other (receive_on_again now p radio fs r first late)
        ])

  pub receive_on-is_tuned :
      (now : ℕ) (p : VoicePacket) (radio : Radio) (fs : List Frequency) (r : Receiver)
      → 1 ≤ p.packet_id
      → IsWaiting p.origin_guid p.packet_id r
      → is_tuned float radio fs ≡ true
      → receive_on float now p radio fs r ≡ accepted now p r
  unfolding receive_on is_tuned
  receive_on-is_tuned now p radio [] r first w tuned = absurd (ground (arith, tuned))
  receive_on-is_tuned now p radio (f ∷ fs) r first w tuned =
      elim (Bool-cases (is_same_frequency float (test_radio f) radio)) [
        | inl same ↦
            rw (same, receive-IsWaiting now p r w)
              (receive_on_again now p radio fs (accepted now p r) first (omega arith))
        | inr other ↦ rw other (receive_on-is_tuned now p radio fs r first w (rw other at tuned))
      ]

  pub receive_voice-datagram :
      (c : Settings) (t : ℕ) (p : VoicePacket) (b : Bytes) (rs : Receivers)
      → c.secure_coalition_radios ≡ false
      → decode b ≡ some p
      → receive_voice float c t (datagram b) rs ≡ (receive_all float t p rs, [])
  unfolding receive_voice is_accepted
  receive_voice-datagram c t p b rs open_ read =
      ap
        (λ d. elim d as (λ _. Receivers × List (List VoicePacket)) [
          | none ↦ (rs, [])
          | some q ↦ (if is_accepted c q then receive_all float t q rs else rs, [])
        ])
        read
      ∙ rw open_ refl

  -- The ticker leaves a transmission that goes on alone.
  pub receive_voice-fired :
      (c : Settings) (t waiting : ℕ) (radio : Radio) (r : Receiver)
      → (waiting ≡ 0 → flush t ((radio, r) ∷ []) ≡ ((radio, r) ∷ [], []))
      → receive_voice float c t (tick waiting) ((radio, r) ∷ []) ≡ ((radio, r) ∷ [], [])
  unfolding receive_voice
  receive_voice-fired c t waiting radio r silent = elim (Bool-cases (nat_eq waiting 0)) [
    | inl idle ↦ rw idle (silent ((nat_eq_iff waiting 0).0 idle))
    | inr busy ↦ rw busy refl
  ]
