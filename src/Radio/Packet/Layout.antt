-- ===== src/Radio/Packet/Layout.antt =====
-- Encode writes the packet from left to right, so its buffer is always what has been written and
-- zeros behind it; the result is the concatenation of the parts.
use mathlib.Core.List.{append_assoc, append-nil}
use skyeye.Common.{
  ℕ, zero, suc, ◌+◌, ◌-◌, ◌*◌, ◌<◌, ◌≡◌, refl, sym, ap, ◌∙◌, List, [], ◌∷◌, ◌++◌, some, arith,
  length, take, drop, replicate, length-append, length-replicate, take-append_length,
}
use skyeye.Radio.Bytes.{
  Bytes, add16, sub16, le_bytes, overwrite, copy_into, put_le, set_byte, length-le_bytes,
}
use skyeye.Radio.Packet.{
  Frequency, VoicePacket, fixed_segment_length, frequency_length, guid_length, put_frequencies,
  put_fixed, encode,
}

-- A buffer that holds `b` and has room for `k` more bytes.
abbrev pub filled : Bytes → ℕ → Bytes
filled b k = b ++ replicate k 0

drop-replicate : (m n : ℕ) (a : ℕ) → drop m (replicate (m + n) a) ≡ replicate n a
drop-replicate zero n a = ap (λ k. replicate k a) (omega arith)
drop-replicate (suc m) n a =
    let e : suc m + n ≡ suc (m + n) = omega arith in rw e (drop-replicate m n a)

drop_past : (xs ys : Bytes) (n : ℕ) → drop (length xs + n) (xs ++ ys) ≡ drop n ys
drop_past [] ys n = ap (λ k. drop k ys) (omega arith)
drop_past (x ∷ xs) ys n =
    let e : length (x ∷ xs) + n ≡ suc (length xs + n) = omega arith in rw e (drop_past xs ys n)

length-filled : (b : Bytes) (k : ℕ) → length (filled b k) ≡ length b + k
length-filled b k = omega (arith, length-append b (replicate k 0), length-replicate {A = ℕ} k 0)

-- Writing next to what is there.
overwrite-filled :
    (b xs : Bytes) (k : ℕ) → overwrite (length b) xs (filled b (length xs + k)) ≡ filled (b ++ xs) k
unfolding overwrite
overwrite-filled b xs k = rw (
  take-append_length b (replicate (length xs + k) 0),
  drop_past b (replicate (length xs + k) 0) (length xs),
  drop-replicate (length xs) k 0,
  append_assoc b xs (replicate k 0),
)

take-length : (xs : Bytes) → take (length xs) xs ≡ xs
take-length [] = refl
take-length (x ∷ xs) = ap (◌∷◌ x) (take-length xs)

module _ (b : Bytes) (k : ℕ) where
  -- The words, bytes and slices that Encode puts next to what is there.
  put_le-filled :
      (n lo hi v : ℕ)
      → lo ≡ length b
      → hi ≡ lo + n
      → put_le n lo hi v (filled b (n + k)) ≡ some (filled (b ++ le_bytes n v) k)
  unfolding put_le
  put_le-filled n lo hi v e h =
      ground
        (arith, length-filled b (n + k), length-le_bytes n v, overwrite-filled b (le_bytes n v) k)

  set_byte-filled :
      (i v : ℕ) → i ≡ length b → set_byte i v (filled b (1 + k)) ≡ some (filled (b ++ v ∷ []) k)
  unfolding set_byte
  set_byte-filled i v e = ground (arith, length-filled b (1 + k), overwrite-filled b (v ∷ []) k)

  copy_into-filled :
      (lo hi : ℕ) (xs : Bytes)
      → lo ≡ length b
      → hi ≡ lo + length xs
      → copy_into lo hi xs (filled b (length xs + k)) ≡ some (filled (b ++ xs) k)
  unfolding copy_into
  copy_into-filled lo hi xs e h =
      let n : hi - lo ≡ length xs = omega arith in
      ground (
        arith,
        n,
        ap (λ m. take m xs) n,
        take-length xs,
        length-filled b (length xs + k),
        overwrite-filled b xs k,
      )

unfoldable pub frequency_bytes : Frequency → Bytes
frequency_bytes f = le_bytes 8 f.bits ++ (f.modulation ∷ f.encryption ∷ [])

unfoldable pub frequencies_bytes : List Frequency → Bytes
frequencies_bytes [] = []
frequencies_bytes (f ∷ fs) = frequency_bytes f ++ frequencies_bytes fs

pub length-frequencies_bytes :
    (fs : List Frequency) → length (frequencies_bytes fs) ≡ length fs * frequency_length
unfolding frequencies_bytes frequency_bytes le_bytes
length-frequencies_bytes [] = refl
length-frequencies_bytes (f ∷ fs) = omega (arith, length-frequencies_bytes fs)

-- The loop over the frequencies writes them one after the other.
put_frequencies-filled :
    (start i : ℕ) (fs : List Frequency) (b : Bytes) (k : ℕ)
    → start + i * frequency_length ≡ length b
    → put_frequencies start i fs (filled b (length (frequencies_bytes fs) + k))
      ≡ some (filled (b ++ frequencies_bytes fs) k)
unfolding put_frequencies frequencies_bytes
put_frequencies-filled start i [] b k e = rw append-nil (ap (λ n. some (filled b n)) (omega arith))
put_frequencies-filled start i (f ∷ fs) b k e =
    let r = length (frequencies_bytes fs) + k in
    let room : length (frequency_bytes f ++ frequencies_bytes fs) + k ≡ 8 + (1 + (1 + r)) =
      unfold frequency_bytes le_bytes in omega arith in
    let b1 = b ++ le_bytes 8 f.bits in
    let b2 = b1 ++ f.modulation ∷ [] in
    let b3 = b2 ++ f.encryption ∷ [] in
    let l1 : length b1 ≡ length b + 8 =
      omega (arith, length-append b (le_bytes 8 f.bits), length-le_bytes 8 f.bits) in
    let l2 : length b2 ≡ length b + 9 = omega (arith, length-append b1 (f.modulation ∷ [])) in
    let l3 : length b3 ≡ length b + 10 = omega (arith, length-append b2 (f.encryption ∷ [])) in
    let off = start + i * frequency_length in
    rw
      (
        room,
        put_le-filled b (1 + (1 + r)) 8 off (off + 8) f.bits e refl,
        set_byte-filled b1 (1 + r) (off + 8) f.modulation (omega (arith, l1)),
        set_byte-filled b2 r (off + 9) f.encryption (omega (arith, l2)),
      )
      (put_frequencies-filled start (i + 1) fs b3 k (omega (arith, l3))
        ∙ ap (λ bs. some (filled bs k)) (unfold frequency_bytes in simp append_assoc))

unfoldable pub header_bytes : VoicePacket → Bytes
header_bytes p =
    le_bytes 2 p.packet_length
    ++ (le_bytes 2 p.audio_segment_length ++ le_bytes 2 p.frequencies_segment_length)

-- The fixed segment: one byte that is not used, then the fields.
unfoldable pub fixed_bytes : VoicePacket → Bytes
fixed_bytes p =
    0
    ∷ (le_bytes 4 p.unit_id
        ++ (le_bytes 8 p.packet_id ++ (p.hops ∷ (p.relay_guid ++ p.origin_guid))))

-- A packet whose headers say the truth, whose GUIDs have their length, and that a uint16 measures.
pub record Fits (p : VoicePacket) : Type 0 where
  pub audio_length : p.audio_segment_length ≡ length p.audio_bytes
  pub frequencies_length : p.frequencies_segment_length ≡ length p.frequencies * frequency_length
  pub total_length : p.packet_length ≡ 64 + p.audio_segment_length + p.frequencies_segment_length
  pub in_range : p.packet_length < 0x1_0000
  pub relay_length : length p.relay_guid ≡ guid_length
  pub origin_length : length p.origin_guid ≡ guid_length

put_fixed-filled :
    (p : VoicePacket) (b : Bytes)
    → length b + fixed_segment_length ≡ p.packet_length
    → Fits p
    → put_fixed p (filled b fixed_segment_length) ≡ some (b ++ fixed_bytes p)
unfolding put_fixed
put_fixed-filled p b e v =
    let b0 = b ++ 0 ∷ [] in
    let b1 = b0 ++ le_bytes 4 p.unit_id in
    let b2 = b1 ++ le_bytes 8 p.packet_id in
    let b3 = b2 ++ p.hops ∷ [] in
    let b4 = b3 ++ p.relay_guid in
    let unit_id_ptr = add16 (sub16 p.packet_length fixed_segment_length) 1 in
    let packet_id_ptr = add16 unit_id_ptr 4 in
    let hops_ptr = add16 packet_id_ptr 8 in
    let relay_id_ptr = add16 hops_ptr 1 in
    let origin_id_ptr = add16 relay_id_ptr guid_length in
    let range : p.packet_length < 0x1_0000 = v.in_range in
    let l0 : length b0 ≡ length b + 1 = omega (arith, length-append b (0 ∷ [])) in
    let l1 : length b1 ≡ length b + 5 =
      omega (arith, l0, length-append b0 (le_bytes 4 p.unit_id), length-le_bytes 4 p.unit_id) in
    let l2 : length b2 ≡ length b + 13 =
      omega (arith, l1, length-append b1 (le_bytes 8 p.packet_id), length-le_bytes 8 p.packet_id) in
    let l3 : length b3 ≡ length b + 14 = omega (arith, l2, length-append b2 (p.hops ∷ [])) in
    let l4 : length b4 ≡ length b + 36 =
      omega (arith, l3, length-append b3 p.relay_guid, v.relay_length) in
    let q0 : unit_id_ptr ≡ length b + 1 = omega arith in
    let q1 : packet_id_ptr ≡ length b + 5 = omega (arith, q0) in
    let q2 : hops_ptr ≡ length b + 13 = omega (arith, q1) in
    let q3 : relay_id_ptr ≡ length b + 14 = omega (arith, q2) in
    let q4 : origin_id_ptr ≡ length b + 36 = omega (arith, q3) in
    let start : filled b 58 ≡ filled b0 57 = sym (append_assoc b (0 ∷ []) (replicate 57 0)) in
    let w1 : put_le 4 unit_id_ptr packet_id_ptr p.unit_id (filled b0 57) ≡ some (filled b1 53) =
      put_le-filled b0 53 4 unit_id_ptr packet_id_ptr p.unit_id (omega arith) (omega arith) in
    let w2 : put_le 8 packet_id_ptr hops_ptr p.packet_id (filled b1 53) ≡ some (filled b2 45) =
      put_le-filled b1 45 8 packet_id_ptr hops_ptr p.packet_id (omega arith) (omega arith) in
    let w3 : set_byte hops_ptr p.hops (filled b2 45) ≡ some (filled b3 44) =
      set_byte-filled b2 44 hops_ptr p.hops (omega arith) in
    let w4 : copy_into relay_id_ptr origin_id_ptr p.relay_guid (filled b3 44)
        ≡ some (filled b4 22) =
      ap (λ n. copy_into relay_id_ptr origin_id_ptr p.relay_guid (filled b3 n)) {x = 44}
        (omega arith)
      ∙ copy_into-filled b3 22 relay_id_ptr origin_id_ptr p.relay_guid (omega arith)
          (omega arith) in
    let w5 : copy_into origin_id_ptr p.packet_length p.origin_guid (filled b4 22)
        ≡ some (filled (b4 ++ p.origin_guid) 0) =
      ap (λ n. copy_into origin_id_ptr p.packet_length p.origin_guid (filled b4 n)) {x = 22}
        (omega arith)
      ∙ copy_into-filled b4 0 origin_id_ptr p.packet_length p.origin_guid (omega arith)
          (omega arith) in
    rw (start, w1, w2, w3, w4, w5) (unfold fixed_bytes in simp (append_assoc, append-nil))

-- What Encode returns: the parts of the packet, one behind the other.
unfoldable pub layout : VoicePacket → Bytes
layout p = header_bytes p ++ (p.audio_bytes ++ (frequencies_bytes p.frequencies ++ fixed_bytes p))

pub encode-layout : (p : VoicePacket) → Fits p → encode p ≡ some (layout p)
unfolding encode layout header_bytes
encode-layout p v =
    let h1 = le_bytes 2 p.packet_length in
    let h2 = h1 ++ le_bytes 2 p.audio_segment_length in
    let h3 = h2 ++ le_bytes 2 p.frequencies_segment_length in
    let b4 = h3 ++ p.audio_bytes in
    let fb = frequencies_bytes p.frequencies in
    let b5 = b4 ++ fb in
    let room = length p.audio_bytes + (length fb + 58) in
    let lf = length-frequencies_bytes p.frequencies in
    let k1 = length-le_bytes 2 p.packet_length in
    let k2 = length-le_bytes 2 p.audio_segment_length in
    let k3 = length-le_bytes 2 p.frequencies_segment_length in
    let l2 : length h2 ≡ 4 = omega (arith, length-append h1 (le_bytes 2 p.audio_segment_length)) in
    let l3 : length h3 ≡ 6 =
      omega (arith, length-append h2 (le_bytes 2 p.frequencies_segment_length)) in
    let l4 : length b4 ≡ 6 + length p.audio_bytes = omega (arith, length-append h3 p.audio_bytes) in
    let l5 : length b5 + 58 ≡ p.packet_length =
      omega (arith, length-append b4 fb, v.total_length, v.audio_length, v.frequencies_length) in
    let total : p.packet_length ≡ 2 + (2 + (2 + room)) =
      omega (arith, v.total_length, v.audio_length, v.frequencies_length) in
    rw
      (
        ap (λ n. replicate {A = ℕ} n 0) total,
        put_le-filled [] (2 + (2 + room)) 2 0 2 p.packet_length refl refl,
        put_le-filled h1 (2 + room) 2 2 4 p.audio_segment_length (omega arith) refl,
        put_le-filled h2 room 2 4 6 p.frequencies_segment_length (omega arith) refl,
        copy_into-filled h3 (length fb + 58) 6 (6 + length p.audio_bytes) p.audio_bytes
            (omega arith) refl,
        put_frequencies-filled (6 + p.audio_segment_length) 0 p.frequencies b4 58
            (omega (arith, v.audio_length)),
        put_fixed-filled p b5 l5 v,
      )
      (simp append_assoc)
