-- ===== src/Radio/Voice/Delivery.antt =====
-- pkg/simpleradio: a transmission from the encoder of one client to the receiver of another.
use skyeye.Common.{
  ℕ, suc, ◌+◌, ◌≡◌, ◌≤◌, ◌<◌, refl, sym, ap, ◌∙◌, inl, inr, true, false, List, [], ◌∷◌, ◌++◌, none,
  some, arith, Option, length, map, bind-eq-some, list_Eq,
}
use mathlib.Core.List.{append_assoc, append-nil}
use skyeye.Radio.Bytes.{Bytes}
use skyeye.Radio.Types.{Float64, Radio}
use skyeye.Radio.Packet.{Frequency, VoicePacket, encode, decode}
use skyeye.Radio.Receiver.{
  Receiver, Receivers, Settings, Event, datagram, tick, reset, receive_on, receive_all,
  receive_voice, run, max_rx_gap,
}
use skyeye.Radio.Voice.{
  Opus, Sender, Samples, frames, frequency_of, encode_voice, write_packets, transmit,
}
use skyeye.Radio.Voice.Reception.{
  IsWaiting, accepted, is_tuned, receive_on-is_tuned, receive_voice-datagram, receive_voice-fired,
  flush_early, flush_empty, flush_complete,
}
use skyeye.Radio.Voice.Sending.{IsSent, IsReady, encode_voice-IsSent}

-- What happens at the receiver: the next packet arrives, or the ticker fires while so many datagrams
-- wait, each with its time.
pub data Signal : Type 0 where
  arrival : ℕ → Signal
  fired : ℕ → ℕ → Signal

abbrev pub arrivals : List Signal → ℕ
arrivals [] = 0
arrivals (arrival t ∷ signals) = suc (arrivals signals)
arrivals (fired t waiting ∷ signals) = arrivals signals

abbrev pub feed : Settings → List Signal → List Bytes → List (Settings × ℕ × Event)
feed c [] bs = []
feed c (fired t waiting ∷ signals) bs = (c, t, tick waiting) ∷ feed c signals bs
feed c (arrival t ∷ signals) [] = feed c signals []
feed c (arrival t ∷ signals) (b ∷ bs) = (c, t, datagram b) ∷ feed c signals bs

-- The ticker may fire at any time before the first packet, and behind a packet, while nothing waits,
-- not later than 300 ms after it.
abbrev pub IsInTime : Option ℕ → List Signal → Type 0
IsInTime deadline [] = Unit
IsInTime deadline (arrival t ∷ signals) = IsInTime (some (t + max_rx_gap)) signals
IsInTime none (fired t waiting ∷ signals) = IsInTime none signals
IsInTime (some deadline) (fired t waiting ∷ signals) =
    (waiting ≡ 0 → t ≤ deadline) × IsInTime (some deadline) signals

-- 300 ms after the last arrival.
abbrev pub deadline_after : ℕ → List Signal → ℕ
deadline_after deadline [] = deadline
deadline_after deadline (arrival t ∷ signals) = deadline_after (t + max_rx_gap) signals
deadline_after deadline (fired t waiting ∷ signals) = deadline_after deadline signals

-- The receiver after the packets came.
abbrev received : List Signal → List VoicePacket → Receiver → Receiver
received [] ps r = r
received (fired t waiting ∷ signals) ps r = received signals ps r
received (arrival t ∷ signals) [] r = r
received (arrival t ∷ signals) (p ∷ ps) r = received signals ps (accepted t p r)

-- Nothing is in the buffer yet, or this is the receiver's deadline.
abbrev IsDue : Option ℕ → Receiver → Type 0
IsDue none r = r.buffer ≡ []
IsDue (some deadline) r = r.deadline ≡ deadline

abbrev IsCarried : List VoicePacket → List Bytes → Type 0
IsCarried [] [] = Unit
IsCarried (p ∷ ps) (b ∷ bs) = (decode b ≡ some p) × IsCarried ps bs
IsCarried _ _ = ⊥

write_packets-IsCarried :
    (guid : Bytes) (fs : List Frequency) (n : ℕ) (ps : List VoicePacket)
    → IsSent guid fs n ps
    → (bs : List Bytes) × (write_packets ps ≡ some bs) × IsCarried ps bs
unfolding write_packets
write_packets-IsCarried guid fs n [] v = ([], refl, tt)
write_packets-IsCarried guid fs n (p ∷ ps) v =
    let (b, coded, read) = bind-eq-some (encode p) decode v.3 in
    let (bs, written, carried) = write_packets-IsCarried guid fs (suc n) ps v.4 in
    (b ∷ bs, rw (coded, written) refl, (read, carried))

received_buffer :
    (signals : List Signal) (ps : List VoicePacket) (r : Receiver)
    → arrivals signals ≡ length ps
    → (received signals ps r).buffer ≡ r.buffer ++ ps
received_buffer [] [] r same = sym (append-nil r.buffer)
received_buffer [] (p ∷ ps) r same = absurd (ground (arith, same))
received_buffer (fired t waiting ∷ signals) ps r same = received_buffer signals ps r same
received_buffer (arrival t ∷ signals) [] r same = absurd (ground (arith, same))
received_buffer (arrival t ∷ signals) (p ∷ ps) r same =
    received_buffer signals ps (accepted t p r) (ground (arith, same))
    ∙ append_assoc r.buffer (p ∷ []) ps

received_deadline :
    (signals : List Signal) (ps : List VoicePacket) (r : Receiver)
    → arrivals signals ≡ length ps
    → (received signals ps r).deadline ≡ deadline_after r.deadline signals
received_deadline [] ps r same = refl
received_deadline (fired t waiting ∷ signals) ps r same = received_deadline signals ps r same
received_deadline (arrival t ∷ signals) [] r same = absurd (ground (arith, same))
received_deadline (arrival t ∷ signals) (p ∷ ps) r same =
    received_deadline signals ps (accepted t p r) (ground (arith, same))

module _ (float : Float64) where
  -- Packets that arrive in order are all taken, and none is handed on before the end.
  run-feed :
      (c : Settings) (radio : Radio) (guid : Bytes) (fs : List Frequency) (n : ℕ)
      (deadline : Option ℕ) (signals : List Signal) (ps : List VoicePacket) (bs : List Bytes)
      (r : Receiver) (more : List (Settings × ℕ × Event))
      → c.secure_coalition_radios ≡ false
      → is_tuned float radio fs ≡ true
      → 1 ≤ n
      → arrivals signals ≡ length ps
      → IsInTime deadline signals
      → IsDue deadline r
      → IsSent guid fs n ps
      → IsCarried ps bs
      → IsWaiting guid n r
      → run float (feed c signals bs ++ more) ((radio, r) ∷ [])
        ≡ run float more ((radio, received signals ps r) ∷ [])
  unfolding run receive_all
  run-feed c radio guid fs n deadline [] ps bs r more open_ tuned first same timely due v carried
        w =
      refl
  run-feed c radio guid fs n none (fired t waiting ∷ signals) ps bs r more open_ tuned first same
        timely due v carried w =
      rw (receive_voice-fired float c t waiting radio r (λ _. flush_empty t radio r due)) (
        run-feed c radio guid fs n none signals ps bs r more open_ tuned first same timely due v
          carried w)
  run-feed c radio guid fs n (some deadline) (fired t waiting ∷ signals) ps bs r more open_ tuned
        first same timely due v carried w =
      rw
        (receive_voice-fired float c t waiting radio r
          (λ idle. flush_early t deadline radio r due (timely.0 idle)))
        (run-feed c radio guid fs n (some deadline) signals ps bs r more open_ tuned first same
          timely.1 due v carried w)
  run-feed c radio guid fs n deadline (arrival t ∷ signals) [] bs r more open_ tuned first same
        timely due v carried w =
      absurd (ground (arith, same))
  run-feed c radio guid fs n deadline (arrival t ∷ signals) (p ∷ ps) [] r more open_ tuned first
        same timely due v carried w =
      elim carried [ ]
  run-feed c radio guid fs n deadline (arrival t ∷ signals) (p ∷ ps) (b ∷ bs) r more open_ tuned
        first same timely due v carried w =
      let waits : IsWaiting p.origin_guid p.packet_id r = rw (v.0, v.2) w in
      let heard : receive_on float t p radio p.frequencies r ≡ accepted t p r =
        receive_on-is_tuned float t p radio p.frequencies r (rw v.2 first) waits (rw v.1 tuned) in
      rw (receive_voice-datagram float c t p b ((radio, r) ∷ []) open_ carried.0, heard)
        (run-feed c radio guid fs (suc n) (some (t + max_rx_gap)) signals ps bs (accepted t p r)
          more open_ tuned (omega (arith, first)) (ground (arith, same)) timely refl v.4 carried.1
          (inr (v.0, omega (arith, v.2))))

-- What one client sends, another hears. Let the sender be ready: a GUID of 22 bytes, at most a
-- thousand radios with words for frequencies, and a packet number that is not 0 and does not wrap
-- around during the transmission. Let the receiver, with a free radio that is tuned to one of the
-- sender's, take packets from anyone, and let the packets arrive in order. The ticker may fire in
-- between, when nothing waits not later than 300 ms after the packet before. Then the sender writes
-- the packets without a panic, and the receiver hands on nothing until an idle tick more than 300 ms
-- after the last arrival, and then exactly the packets that were encoded, if they last longer than a
-- second, and is free again.
pub run-transmit :
    (opus : Opus) (float : Float64) (s : Sender) (audio : Samples) (c : Settings) (radio : Radio)
    (signals : List Signal) (late : ℕ)
    → IsReady s (length (frames audio))
    → 1 ≤ s.packet_number
    → is_tuned float radio (map frequency_of s.radios) ≡ true
    → c.secure_coalition_radios ≡ false
    → arrivals signals ≡ length (encode_voice opus audio s).0
    → IsInTime none signals
    → deadline_after 0 signals < late
    → 25 < length (encode_voice opus audio s).0
    → let ps = (encode_voice opus audio s).0 in
      (bs : List Bytes) × (transmit false ps ≡ some bs)
      × (run float (feed c signals bs) ((radio, reset) ∷ [])).1 ≡ []
      × (run float (feed c signals bs ++ (c, late, tick 0) ∷ []) ((radio, reset) ∷ [])
          ≡ ((radio, reset) ∷ [], ps ∷ []))
unfolding transmit
run-transmit opus float s audio c radio signals late ready first tuned anyone same timely over
      long =
    let ps = (encode_voice opus audio s).0 in
    let fs = map frequency_of s.radios in
    let sent = encode_voice-IsSent opus audio s ready in
    let (bs, written, carried) = write_packets-IsCarried s.guid fs s.packet_number ps sent in
    let last = received signals ps reset in
    let flushed =
      flush_complete late radio last ps (received_buffer signals ps reset same)
        (omega (arith, received_deadline signals ps reset same, over)) long in
    let fed = λ (more : List (Settings × ℕ × Event)).
      run-feed float c radio s.guid fs s.packet_number none signals ps bs reset more anyone tuned
        first same timely refl sent carried (inl (refl, refl)) in
    (
      bs,
      written,
      ap (λ events. (run float events ((radio, reset) ∷ [])).1)
            (sym (append-nil (feed c signals bs)))
          ∙ ap (λ (end : Receivers × List (List VoicePacket)). end.1) (fed [])
          ∙ (unfold run in refl),
      fed ((c, late, tick 0) ∷ []) ∙ (unfold run receive_voice in rw flushed refl),
    )
