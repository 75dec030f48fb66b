-- ===== src/Radio/Packet/Decoded.antt =====
-- What Decode guarantees of whatever bytes it accepts.
use mathlib.Core.Option.{some-injective}
use mathlib.Core.Path.{subst}
use skyeye.Common.{
  ℕ, suc, ◌+◌, ◌-◌, ◌*◌, ◌≤◌, ◌≡◌, sym, ◌∙◌, ◌%◌, List, [], ◌∷◌, some, arith, bind-eq-some, length,
  drop, length-take, length-drop,
}
use skyeye.Radio.Bytes.{Bytes, add16, sub16, slice, index, read_le}
use skyeye.Radio.Packet.{
  Frequency, VoicePacket, frequency_length, guid_length, decode, get_frequencies,
}

length-slice : (lo hi : ℕ) (b : Bytes) {s : Bytes} → slice lo hi b ≡ some s → length s + lo ≡ hi
unfolding slice
length-slice lo hi b h = ground (arith, length-take (hi - lo) (drop lo b), length-drop lo b)

length-slice_from : (lo n : ℕ) (b : Bytes) {s : Bytes} → slice lo (lo + n) b ≡ some s → length s ≡ n
length-slice_from lo n b h = omega (arith, length-slice lo (lo + n) b h)

length-slice_guid :
    (n : ℕ) (b : Bytes) {s : Bytes}
    → slice (n % 0x1_0000) (add16 (n % 0x1_0000) guid_length) b ≡ some s
    → length s ≡ guid_length
length-slice_guid n b h =
    omega (arith, length-slice (n % 0x1_0000) (add16 (n % 0x1_0000) guid_length) b h)

length-get_frequencies_fuel :
    (n : ℕ) (s : Bytes) {fs : List Frequency}
    → length s ≤ n
    → get_frequencies s ≡ some fs
    → length s ≡ length fs * frequency_length
unfolding get_frequencies
length-get_frequencies_fuel n [] h e = ground arith
length-get_frequencies_fuel (suc n) (b0 ∷ b1 ∷ b2 ∷ b3 ∷ b4 ∷ b5 ∷ b6 ∷ b7 ∷ m ∷ x ∷ rest) h e =
    let (gs, r, q) = bind-eq-some (get_frequencies rest) _ e in
    ground (arith, length-get_frequencies_fuel n rest (omega arith) r)
length-get_frequencies_fuel _ _ h e = ground arith

length-get_frequencies :
    (s : Bytes) {fs : List Frequency}
    → get_frequencies s ≡ some fs
    → length s ≡ length fs * frequency_length
length-get_frequencies s = length-get_frequencies_fuel (length s) s (omega arith)

-- The packets that Decode returns: their headers measure what they hold, GUIDs are complete.
pub record IsDecoded (p : VoicePacket) : Type 0 where
  pub audio : length p.audio_bytes ≡ p.audio_segment_length
  pub frequencies : length p.frequencies * frequency_length ≡ p.frequencies_segment_length
  pub relay : length p.relay_guid ≡ guid_length
  pub origin : length p.origin_guid ≡ guid_length

-- A packet that Decode returns, from any bytes at all, holds as many audio bytes and as many
-- frequencies (of ten bytes) as its two segment lengths say, and two GUIDs of 22 bytes.
pub decode-IsDecoded : (b : Bytes) {p : VoicePacket} → decode b ≡ some p → IsDecoded p
unfolding decode
decode-IsDecoded b {p} h =
    let (n, e0, h0) = bind-eq-some (read_le 2 0 2 b) _ h in
    let origin_id_ptr = sub16 n guid_length in
    let relay_id_ptr = sub16 origin_id_ptr guid_length in
    let hops_ptr = sub16 relay_id_ptr 1 in
    let packet_id_ptr = sub16 hops_ptr 8 in
    let unit_id_ptr = sub16 packet_id_ptr 4 in
    let (a, e1, h1) = bind-eq-some (read_le 2 2 4 b) _ h0 in
    let (f, e2, h2) = bind-eq-some (read_le 2 4 6 b) _ h1 in
    let (u, e3, h3) = bind-eq-some (read_le 4 unit_id_ptr packet_id_ptr b) _ h2 in
    let (i, e4, h4) = bind-eq-some (read_le 8 packet_id_ptr hops_ptr b) _ h3 in
    let (hops, e5, h5) = bind-eq-some (index hops_ptr b) _ h4 in
    let (r, e6, h6) = bind-eq-some (slice relay_id_ptr (add16 relay_id_ptr guid_length) b) _ h5 in
    let (o, e7, h7) = bind-eq-some (slice origin_id_ptr (add16 origin_id_ptr guid_length) b) _ h6 in
    let (audio, e8, h8) = bind-eq-some (slice 6 (6 + a) b) _ h7 in
    let (s, e9, h9) = bind-eq-some (slice (add16 6 a) (add16 6 a + f) b) _ h8 in
    let (fs, e10, h10) = bind-eq-some (get_frequencies s) _ h9 in
    let l9 : length fs * frequency_length ≡ f =
      sym (length-get_frequencies s e10) ∙ length-slice_from (add16 6 a) f b e9 in
    subst IsDecoded (some-injective _ p h10) (record {
      audio = length-slice_from 6 a b e8;
      frequencies = l9;
      relay = length-slice_guid _ b e6;
      origin = length-slice_guid _ b e7;
    })
