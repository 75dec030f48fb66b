-- ===== src/Radio/Receiver/Runs.antt =====
-- The loop of receiveVoice over any sequence of datagrams and ticks.
use skyeye.Common.{
  ℕ, ◌≡◌, ◌≢◌, ap, inl, inr, List, [], ◌∷◌, some, arith, nat_eq, Bool-cases, Option-cases, length,
  All, All-append,
}
use skyeye.Radio.Bytes.{Bytes}
use skyeye.Radio.Types.{Float64}
use skyeye.Radio.Packet.{VoicePacket, decode}
use skyeye.Radio.Packet.Decoded.{decode-IsDecoded}
use skyeye.Radio.Receiver.{
  Receivers, Settings, Event, datagram, tick, receive_all, receive_voice, run, is_accepted,
}
use skyeye.Radio.Receiver.Order.{AllInv, IsTransmission, receive_on-Inv, flush-Inv}

decode-origin-ne-nil : (b : Bytes) {p : VoicePacket} → decode b ≡ some p → p.origin_guid ≢ []
decode-origin-ne-nil b h z = omega (arith, (decode-IsDecoded b h).origin, ap length z)

module _ (float : Float64) where
  receive_all-Inv :
      (now : ℕ) (p : VoicePacket) (rs : Receivers)
      → p.origin_guid ≢ []
      → AllInv rs
      → AllInv (receive_all float now p rs)
  unfolding receive_all
  receive_all-Inv now p [] ne v = tt
  receive_all-Inv now p ((radio, r) ∷ rs) ne v =
      (receive_on-Inv float now p radio p.frequencies r ne v.0, receive_all-Inv now p rs ne v.1)

  receive_voice-Inv :
      (c : Settings) (now : ℕ) (e : Event) (rs : Receivers)
      → AllInv rs
      → AllInv (receive_voice float c now e rs).0
        × All IsTransmission (receive_voice float c now e rs).1
  unfolding receive_voice
  receive_voice-Inv c now (tick waiting) rs v = elim (Bool-cases (nat_eq waiting 0)) [
    | inl done ↦ rw done (flush-Inv now rs v)
    | inr more ↦ rw more (v, tt)
  ]
  receive_voice-Inv c now (datagram b) rs v = elim (Option-cases (decode b)) [
    | inl bad ↦ rw (bad, receive_voice) (v, tt)
    | inr (p, good) ↦ elim (Bool-cases (is_accepted c p)) [
      | inr dropped ↦ rw (good, receive_voice, dropped) (v, tt)
      | inl heard ↦
          rw (good, receive_voice, heard)
            (receive_all-Inv now p rs (decode-origin-ne-nil b good) v, tt)
    ]
  ]

  -- Whatever datagrams arrive and whenever the ticker fires, under settings that may change at any
  -- time: if the receivers are in order at the start, then each list of packets that receiveVoice
  -- hands on comes from one speaker, with rising packet numbers, and is longer than a second; and
  -- the receivers are in order at the end.
  pub run-IsTransmission :
      (es : List (Settings × ℕ × Event)) (rs : Receivers)
      → AllInv rs
      → AllInv (run float es rs).0 × All IsTransmission (run float es rs).1
  unfolding run
  run-IsTransmission [] rs v = (v, tt)
  run-IsTransmission ((c, now, e) ∷ es) rs v =
      let (kept, out) = receive_voice-Inv c now e rs v in
      let (after, later) = run-IsTransmission es (receive_voice float c now e rs).0 kept in
      (after, All-append IsTransmission (receive_voice float c now e rs).1 _ out later)
