-- ===== src/Radio/Receiver/Order.antt =====
-- What a receiver's buffer is: one speaker's packets, in the order in which they were sent.
use skyeye.Common.{
  ℕ, ◌+◌, ◌*◌, ◌≤◌, ◌<◌, ◌≡◌, ◌≢◌, refl, ◌⊎◌, inl, inr, List, [], ◌∷◌, ◌++◌, arith, ltb,
  list_eq_iff, Bool-cases, length, All, All-append,
}
use skyeye.Radio.Bytes.{Bytes}
use skyeye.Radio.Types.{Float64, Radio, is_same_frequency}
use skyeye.Radio.Packet.{Frequency, VoicePacket}
use skyeye.Radio.Receiver.{
  Receiver, Receivers, receive, receive_on, reset, has_transmission, flush, test_radio,
  min_rx_duration, frame_length,
}

-- Packet numbers rise along the list.
abbrev pub IsAscending : List VoicePacket → Type 0
IsAscending [] = Unit
IsAscending (p ∷ ps) = All (λ q. p.packet_id < q.packet_id) ps × IsAscending ps

-- Every packet of the list has this origin.
abbrev pub IsFrom : Bytes → List VoicePacket → Type 0
IsFrom guid = All (λ p. p.origin_guid ≡ guid)

pub record Inv (r : Receiver) : Type 0 where
  pub from : IsFrom r.origin r.buffer
  pub ascending : IsAscending r.buffer
  pub newest : All (λ p. p.packet_id ≤ r.packet_number) r.buffer
  pub idle : r.origin ≡ [] → r.buffer ≡ []

pub reset-Inv : Inv reset
reset-Inv = record { from = tt; ascending = tt; newest = tt; idle = λ _. refl }

IsAscending-concat :
    (ps : List VoicePacket) (q : VoicePacket) (n : ℕ)
    → IsAscending ps
    → All (λ p. p.packet_id ≤ n) ps
    → n < q.packet_id
    → IsAscending (ps ++ q ∷ [])
IsAscending-concat [] q n a h l = (tt, tt)
IsAscending-concat (p ∷ ps) q n a h l = (
  All-append (λ q. p.packet_id < q.packet_id) ps (q ∷ []) a.0 (omega arith, tt),
  IsAscending-concat ps q n a.1 h.1 l,
)

newest_mono :
    (ps : List VoicePacket) (m n : ℕ)
    → m ≤ n
    → All (λ p. p.packet_id ≤ m) ps
    → All (λ p. p.packet_id ≤ n) ps
newest_mono [] m n l h = tt
newest_mono (p ∷ ps) m n l h = (omega arith, newest_mono ps m n l h.1)

-- The buffer after a packet that is accepted.
extend-Inv :
    (r : Receiver) (p : VoicePacket) (deadline : ℕ)
    → p.origin_guid ≢ []
    → (r.buffer ≡ []) ⊎ ((r.packet_number < p.packet_id) × (r.origin ≡ p.origin_guid))
    → Inv r
    → Inv (record {
      buffer = r.buffer ++ p ∷ [];
      origin = p.origin_guid;
      deadline = deadline;
      packet_number = p.packet_id;
    })
extend-Inv r p deadline ne (inl e) v = rw e (record {
  from = (refl, tt);
  ascending = (tt, tt);
  newest = (omega arith, tt);
  idle = λ z. absurd (ne z);
})
extend-Inv r p deadline ne (inr (newer, same)) v = record {
  from =
      All-append (λ q. q.origin_guid ≡ p.origin_guid) r.buffer (p ∷ []) (rw same at v.from)
        (refl, tt);
  ascending = IsAscending-concat r.buffer p r.packet_number v.ascending v.newest newer;
  newest =
      All-append (λ q. q.packet_id ≤ p.packet_id) r.buffer (p ∷ [])
        (newest_mono r.buffer r.packet_number p.packet_id (omega arith) v.newest) (omega arith, tt);
  idle = λ z. absurd (ne z);
}

-- A packet is dropped, or it begins a buffer, or it goes on with the speaker of the buffer.
receive_cases :
    (now : ℕ) (p : VoicePacket) (r : Receiver)
    → (receive now p r ≡ r)
      ⊎ ((receive now p r ≡ record {
        buffer = r.buffer ++ p ∷ [];
        origin = p.origin_guid;
        deadline = now + 300_000_000;
        packet_number = p.packet_id;
      })
          × ((r.origin ≡ []) ⊎ ((r.packet_number < p.packet_id) × (r.origin ≡ p.origin_guid))))
unfolding receive
receive_cases now p r = ground (arith, list_eq_iff r.origin [], list_eq_iff r.origin p.origin_guid)

receive-Inv :
    (now : ℕ) (p : VoicePacket) (r : Receiver) → p.origin_guid ≢ [] → Inv r → Inv (receive now p r)
receive-Inv now p r ne v = elim (receive_cases now p r) [
  | inl e ↦ rw e v
  | inr (e, inl z) ↦ rw e (extend-Inv r p _ ne (inl (v.idle z)) v)
  | inr (e, inr h) ↦ rw e (extend-Inv r p _ ne (inr h) v)
]

-- SRS servers repeat a packet for each frequency that a radio hears it on: hearing the same packet
-- again, at whatever time, changes nothing, not even the deadline.
pub receive-receive :
    (now later : ℕ) (p : VoicePacket) (r : Receiver)
    → p.origin_guid ≢ []
    → receive later p (receive now p r) ≡ receive now p r
unfolding receive
receive-receive now later p r ne = ground (
  arith,
  list_eq_iff r.origin [],
  list_eq_iff r.origin p.origin_guid,
  list_eq_iff p.origin_guid [],
)

module _ (float : Float64) where
  pub receive_on-Inv :
      (now : ℕ) (p : VoicePacket) (radio : Radio) (fs : List Frequency) (r : Receiver)
      → p.origin_guid ≢ []
      → Inv r
      → Inv (receive_on float now p radio fs r)
  unfolding receive_on
  receive_on-Inv now p radio [] r ne v = v
  receive_on-Inv now p radio (f ∷ fs) r ne v =
      elim (Bool-cases (is_same_frequency float (test_radio f) radio)) [
        | inl same ↦
            rw same (receive_on-Inv now p radio fs (receive now p r) ne (receive-Inv now p r ne v))
        | inr other ↦ rw other (receive_on-Inv now p radio fs r ne v)
      ]

-- The receivers of all radios are in order.
abbrev pub AllInv : Receivers → Type 0
AllInv = All (λ (x : Radio × Receiver). Inv x.1)

-- What receiveVoice may hand on: one speaker's packets in their order, longer than a second.
pub record IsTransmission (ps : List VoicePacket) : Type 0 where
  pub speaker : Bytes
  pub from : IsFrom speaker ps
  pub ascending : IsAscending ps
  pub long : min_rx_duration < length ps * frame_length

pub flush-Inv :
    (now : ℕ) (rs : Receivers)
    → AllInv rs
    → AllInv (flush now rs).0 × All IsTransmission (flush now rs).1
unfolding flush
flush-Inv now [] v = (tt, tt)
flush-Inv now ((radio, r) ∷ rs) v =
    let (vs, outs) = flush-Inv now rs v.1 in
    elim (Bool-cases (has_transmission now r)) [
      | inr quiet ↦ rw quiet ((v.0, vs), outs)
      | inl over ↦ elim (Bool-cases (ltb min_rx_duration (length r.buffer * frame_length))) [
        | inr short ↦ rw (over, short) ((reset-Inv, vs), outs)
        | inl long ↦
            rw (over, long)
              (
                (reset-Inv, vs),
                (
                  record {
                    speaker = r.origin;
                    from = v.0.from;
                    ascending = v.0.ascending;
                    long = ground arith;
                  },
                  outs,
                ),
              )
      ]
    ]
