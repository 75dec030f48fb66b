-- ===== src/Radio/Tests.antt =====
-- Runs of the radio client on small inputs, and the theorems at such inputs.
use skyeye.Common.{
  ℕ, zero, suc, ◌*◌, ◌≡◌, refl, List, [], ◌∷◌, ◌++◌, some, arith, ◌>>=◌, replicate, All, list_eq,
  list_Eq, lookup, insert,
}
use skyeye.Coalitions.{is_spectator}
use skyeye.Radio.Bytes.{
  Bytes, le_bytes, of_le, slice, index, read_le, overwrite, copy_into, put_le, set_byte,
}
use skyeye.Radio.Types.{
  update, client_disconnect, is_same_frequency, any_same_frequency, is_on_frequency,
}
use skyeye.Radio.Packet.{
  VoicePacket, new_voice_packet, put_frequencies, put_fixed, encode, get_frequencies, decode,
}
use skyeye.Radio.Samples.{whole, distance, guid, channel, radio, open_radios, pilot, client, met}
use skyeye.Radio.Packet.RoundTrip.{decode-encode}
use skyeye.Radio.Packet.Decoded.{IsDecoded, decode-IsDecoded}
use skyeye.Radio.Receiver.{
  Settings, Event, datagram, tick, receive, reset, is_accepted, has_transmission, flush, receive_on,
  receive_all, receive_voice, run,
}
use skyeye.Radio.Receiver.Order.{AllInv, IsTransmission, reset-Inv}
use skyeye.Radio.Receiver.Runs.{run-IsTransmission}
use skyeye.Radio.Clients.{
  Message, new_message, is_peer, sync_client, handle_message_of, handle_messages, count_peers,
  humans_on_frequency, bots_on_frequency, is_bot, has_suffix,
}
use skyeye.Radio.Clients.Membership.{PeersOk, handle_messages-PeersOk}

abbrev packet : ℕ → VoicePacket
packet n = record {
  packet_length = 76;
  audio_segment_length = 2;
  frequencies_segment_length = 10;
  audio_bytes = 7 ∷ 8 ∷ [];
  frequencies = channel ∷ [];
  unit_id = 100_000_002;
  packet_id = n;
  hops = 0;
  relay_guid = guid;
  origin_guid = guid;
}

decode-encode_runs : (encode (packet 5) >>= decode) ≡ some (packet 5)
unfolding encode put_frequencies put_fixed decode get_frequencies le_bytes of_le slice index read_le
    overwrite copy_into put_le set_byte
decode-encode_runs = refl

decode-encode_example :
    let p = new_voice_packet (7 ∷ 8 ∷ []) (channel ∷ []) 100_000_002 5 0 guid guid in
    (encode p >>= decode) ≡ some p
unfolding new_voice_packet
decode-encode_example =
    decode-encode (7 ∷ 8 ∷ []) (channel ∷ []) 100_000_002 5 0 guid guid (omega arith) refl refl
      (record {
        unit_word = omega arith;
        packet_word = omega arith;
        frequency_words = (omega arith, tt);
      })

-- The packet 5 on the wire.
abbrev wire : ℕ → Bytes
wire n =
    76
    ∷ 0
    ∷ 2
    ∷ 0
    ∷ 10
    ∷ 0
    ∷ 7
    ∷ 8
    ∷ (channel_bytes ++ (0 ∷ (unit_bytes ++ (n ∷ (zeros ++ (guid ++ guid))))))
  where
    channel_bytes : Bytes
    channel_bytes = 0xc0 ∷ 0xf4 ∷ 0xf5 ∷ 0x0e ∷ 0 ∷ 0 ∷ 0 ∷ 0 ∷ 0 ∷ 0 ∷ []

    unit_bytes : Bytes
    unit_bytes = 0x02 ∷ 0xe1 ∷ 0xf5 ∷ 0x05 ∷ []

    zeros : Bytes
    zeros = replicate 8 0

decode-wire : decode (wire 5) ≡ some (packet 5)
unfolding decode get_frequencies of_le slice index read_le
decode-wire = refl

decode-IsDecoded_example : IsDecoded (packet 5)
decode-IsDecoded_example = decode-IsDecoded (wire 5) decode-wire

-- n packets, one every 40 ms, the last one first.
abbrev talk : ℕ → List (Settings × ℕ × Event)
talk zero = []
talk (suc n) = (open_radios, n * 40_000_000, datagram (wire n)) ∷ talk n

abbrev broadcast : List (Settings × ℕ × Event)
broadcast =
    (open_radios, 40, datagram (wire 5))
    ∷ (open_radios, 80, datagram (wire 4))
    ∷ (open_radios, 120, datagram (wire 6))
    ∷ (open_radios, 160, tick 0)
    ∷ (open_radios, 400_000_000, tick 0)
    ∷ []

-- A packet out of order is dropped, and a transmission below a second is not handed on.
run_short : run whole broadcast ((radio, reset) ∷ []) ≡ ((radio, reset) ∷ [], [])
unfolding run receive_voice decode get_frequencies of_le slice index read_le is_accepted receive_all
    receive_on is_same_frequency receive flush has_transmission list_eq distance
run_short = refl

run-IsTransmission_example :
    AllInv (run whole broadcast ((radio, reset) ∷ [])).0
    × All IsTransmission (run whole broadcast ((radio, reset) ∷ [])).1
run-IsTransmission_example =
    run-IsTransmission whole broadcast ((radio, reset) ∷ []) (reset-Inv, tt)

abbrev hello : Message
hello = record (new_message update) { client = some pilot }

abbrev bye : Message
bye = record (new_message client_disconnect) { client = some pilot }

peers_after_hello : (handle_messages whole (hello ∷ []) client).clients ≡ (b'p' ∷ [], pilot) ∷ []
unfolding handle_messages handle_message_of sync_client is_peer is_on_frequency any_same_frequency
    is_same_frequency is_spectator list_eq insert distance
peers_after_hello = refl

handle_messages-PeersOk_example : PeersOk whole (handle_messages whole (hello ∷ bye ∷ []) client)
unfolding lookup
handle_messages-PeersOk_example =
    handle_messages-PeersOk whole (hello ∷ bye ∷ []) client (λ g o h. cc)

one_human : (humans_on_frequency whole met ≡ 1) × (bots_on_frequency whole met ≡ 0)
unfolding humans_on_frequency bots_on_frequency count_peers is_bot has_suffix is_on_frequency
    any_same_frequency is_same_frequency list_eq distance
one_human = (refl, refl)
