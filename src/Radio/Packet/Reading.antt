-- ===== src/Radio/Packet/Reading.antt =====
-- Reading back bytes that stand at a place of a buffer.
use mathlib.Core.List.{append-nil}
use skyeye.Common.{
  ℕ, zero, suc, ◌+◌, ◌-◌, ◌^◌, ◌<◌, ◌≡◌, refl, ap, List, [], ◌∷◌, ◌++◌, some, arith, length, take,
  length-append, All, take-append_length, drop-append_length,
}
use skyeye.Radio.Bytes.{
  Bytes, le_bytes, of_le, slice, index, read_le, length-le_bytes, of_le-le_bytes,
}
use skyeye.Radio.Packet.{Frequency, get_frequencies}
use skyeye.Radio.Packet.Layout.{frequency_bytes, frequencies_bytes}

pub slice-at :
    (pre xs post : Bytes) (lo hi : ℕ)
    → lo ≡ length pre
    → hi ≡ lo + length xs
    → slice lo hi (pre ++ (xs ++ post)) ≡ some xs
unfolding slice
slice-at pre xs post lo hi e h =
    let n : hi - lo ≡ length xs = omega arith in
    rw (n, e)
      (ground (
        arith,
        drop-append_length pre (xs ++ post),
        take-append_length xs post,
        length-append pre (xs ++ post),
        length-append xs post,
      ))

pub read_le-at :
    (pre post : Bytes) (n v lo hi : ℕ)
    → lo ≡ length pre
    → hi ≡ lo + n
    → v < 256 ^ n
    → read_le n lo hi (pre ++ (le_bytes n v ++ post)) ≡ some v
unfolding read_le
read_le-at pre post n v lo hi e h r =
    let l = length-le_bytes n v in
    rw (slice-at pre (le_bytes n v) post lo hi e (omega arith)) (
      ground (
        arith,
        take-append_length (le_bytes n v) [],
        append-nil (le_bytes n v),
        ap (λ m. take m (le_bytes n v)) l,
        of_le-le_bytes n v r,
      ))

pub index-at :
    (pre : Bytes) (x : ℕ) (post : Bytes) (i : ℕ)
    → i ≡ length pre
    → index i (pre ++ (x ∷ post)) ≡ some x
unfolding index
index-at [] x post i e = rw e
index-at (y ∷ pre) x post zero e = cc
index-at (y ∷ pre) x post (suc i) e = index-at pre x post i (omega arith)

-- The same with the buffer given by an equation.
module _ {b : Bytes} (pre post : Bytes) (lo : ℕ) (l : lo ≡ length pre) where
  pub slice_here :
      (xs : Bytes) (hi : ℕ)
      → b ≡ pre ++ (xs ++ post)
      → hi ≡ lo + length xs
      → slice lo hi b ≡ some xs
  slice_here xs hi e h = rw e (slice-at pre xs post lo hi l h)

  pub read_le_here :
      (n v hi : ℕ)
      → b ≡ pre ++ (le_bytes n v ++ post)
      → hi ≡ lo + n
      → v < 256 ^ n
      → read_le n lo hi b ≡ some v
  read_le_here n v hi e h r = rw e (read_le-at pre post n v lo hi l h r)

  pub index_here : (x : ℕ) → b ≡ pre ++ (x ∷ post) → index lo b ≡ some x
  index_here x e = rw e (index-at pre x post lo l)

-- A float64 is 64 bits.
abbrev pub IsWord64 : Frequency → Type 0
IsWord64 f = f.bits < 256 ^ 8

pub get_frequencies-bytes :
    (fs : List Frequency) → All IsWord64 fs → get_frequencies (frequencies_bytes fs) ≡ some fs
unfolding get_frequencies frequencies_bytes frequency_bytes le_bytes
get_frequencies-bytes [] w = refl
get_frequencies-bytes (f ∷ fs) w =
    rw (get_frequencies-bytes fs w.1)
      (ap (λ n. some (record f { bits = n } ∷ fs)) (unfold of_le in omega arith))
