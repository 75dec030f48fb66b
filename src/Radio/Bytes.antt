-- ===== src/Radio/Bytes.antt =====
-- Byte slices as pkg/simpleradio/voice/packet.go uses them: a slice expression or an index that Go
-- would refuse with a panic is `none`, and encoding/binary's little endian words are digit lists.
use native.Mathlib.Nat.{pow-suc}
use skyeye.Common.{
  ℕ, zero, suc, ◌+◌, ◌-◌, ◌*◌, ◌/◌, ◌%◌, ◌^◌, ◌<◌, ◌≡◌, refl, ap, List, [], ◌∷◌, ◌++◌, ◌&&◌, Option,
  none, some, arith, leb, ltb, if◌then◌else◌, ◌>>=◌, length, take, drop,
}

abbrev pub Bytes : Type 0
Bytes = List ℕ

-- uint16 arithmetic.
abbrev pub add16 : ℕ → ℕ → ℕ
add16 a b = (a + b) % 0x1_0000

abbrev pub sub16 : ℕ → ℕ → ℕ
sub16 a b = (a + 0x1_0000 - b % 0x1_0000) % 0x1_0000

-- The n bytes of an n-byte word, least significant first, and the word that bytes stand for.
unfoldable pub le_bytes : ℕ → ℕ → Bytes
le_bytes zero v = []
le_bytes (suc n) v = (v % 256) ∷ le_bytes n (v / 256)

unfoldable pub of_le : Bytes → ℕ
of_le [] = 0
of_le (b ∷ bs) = b + 256 * of_le bs

-- b[lo:hi]
unfoldable pub slice : ℕ → ℕ → Bytes → Option Bytes
slice lo hi b = if leb lo hi && leb hi (length b) then some (take (hi - lo) (drop lo b)) else none

-- b[i]
unfoldable pub index : ℕ → Bytes → Option ℕ
index i [] = none
index zero (x ∷ xs) = some x
index (suc i) (x ∷ xs) = index i xs

-- binary.LittleEndian.UintN(b[lo:hi]), for words of n bytes
unfoldable pub read_le : ℕ → ℕ → ℕ → Bytes → Option ℕ
read_le n lo hi b = do s ← slice lo hi b; if leb n (length s) then some (of_le (take n s)) else none

-- The buffer with `xs` written over it from `lo` on.
unfoldable pub overwrite : ℕ → Bytes → Bytes → Bytes
overwrite lo xs b = take lo b ++ (xs ++ drop (lo + length xs) b)

-- copy(b[lo:hi], xs)
unfoldable pub copy_into : ℕ → ℕ → Bytes → Bytes → Option Bytes
copy_into lo hi xs b =
    if leb lo hi && leb hi (length b) then some (overwrite lo (take (hi - lo) xs) b) else none

-- binary.LittleEndian.PutUintN(b[lo:hi], v)
unfoldable pub put_le : ℕ → ℕ → ℕ → ℕ → Bytes → Option Bytes
put_le n lo hi v b =
    if leb lo hi && leb hi (length b) && leb n (hi - lo)
    then some (overwrite lo (le_bytes n v) b)
    else none

-- b[i] = v
unfoldable pub set_byte : ℕ → ℕ → Bytes → Option Bytes
set_byte i v b = if ltb i (length b) then some (overwrite i (v ∷ []) b) else none

pub length-le_bytes : (n v : ℕ) → length (le_bytes n v) ≡ n
unfolding le_bytes
length-le_bytes zero v = refl
length-le_bytes (suc n) v = ap suc (length-le_bytes n (v / 256))

pub of_le-le_bytes : (n v : ℕ) → v < 256 ^ n → of_le (le_bytes n v) ≡ v
unfolding of_le le_bytes
of_le-le_bytes zero v h = omega arith
of_le-le_bytes (suc n) v h =
    let p : 256 ^ suc n ≡ 256 ^ n * 256 = pow-suc 256 n in
    omega (arith, of_le-le_bytes n (v / 256) (omega (arith, p)), p)
