-- ===== src/Vector32.antt =====
-- vector32.h: the 32-byte vectors that hold hashes and seeds. The program runs on x86, which loads
-- words with the lowest byte first; a 128-bit register is the number that its bytes make up.
pub mod Laws
pub mod Tests
use epic_poold.Base.{
  ℕ, suc, ◌+◌, ◌-◌, ◌*◌, ◌/◌, ◌%◌, ◌^◌, ◌<◌, ◌≡◌, Bool, true, false, not, List, [], ◌∷◌, ◌++◌,
  bit_and, bit_xor, ◌==◌, if◌then◌else◌, length, take, drop, replicate, All,
}

abbrev pub size : ℕ
size = 32

pub record V32 : Type 0 where
  pub bytes : List ℕ

-- The array holds 32 bytes.
abbrev pub IsVector : V32 → Type 0
IsVector v = (length v.bytes ≡ 32) × All (λ b. b < 256) v.bytes

-- A load of little-endian bytes.
abbrev pub load : List ℕ → ℕ
load [] = 0
load (b ∷ bytes) = b + 256 * load bytes

-- v32(const uint8_t *) and v32(const v32 &): two halves are copied.
unfoldable pub of_bytes : List ℕ → V32
of_bytes src = record { bytes = take 16 src ++ take 16 (drop 16 src) }

-- The assignments, with what they leave in the vector on the left.
unfoldable pub assign : V32 → V32 → V32
unfolding of_bytes
assign v o = of_bytes o.bytes

unfoldable pub assign_bytes : V32 → List ℕ → V32
unfolding of_bytes
assign_bytes v src = of_bytes src

-- __builtin_bswap32 and __builtin_bswap64.
unfoldable pub bswap32 : ℕ → ℕ
bswap32 x = x % 256 * 2 ^ 24 + x / 256 % 256 * 2 ^ 16 + x / 65536 % 256 * 256 + x / 16777216 % 256

unfoldable pub bswap64 : ℕ → ℕ
unfolding bswap32
bswap64 x = bswap32 (x % 2 ^ 32) * 2 ^ 32 + bswap32 (x / 2 ^ 32)

unfoldable pub get_work32 : V32 → ℕ
unfolding bswap32
get_work32 v = bswap32 (load (take 4 v.bytes))

unfoldable pub get_work64 : V32 → ℕ
unfolding bswap64
get_work64 v = bswap64 (load (take 8 v.bytes))

unfoldable pub get_id : V32 → ℕ
get_id v = bit_and (load (take 8 v.bytes)) 0x7fffffffffffffff

-- _mm_testz_si128(a, b): 1 if a & b is zero.
pub testz : ℕ → ℕ → ℕ
testz a b = if bit_and a b == 0 then 1 else 0

-- operator== on the two 128-bit halves, and operator!=.
unfoldable pub equals : V32 → V32 → Bool
unfolding testz
equals v o =
    let r = bit_xor (load (take 16 v.bytes)) (load (take 16 o.bytes)) in
    let r' = bit_xor (load (take 16 (drop 16 v.bytes))) (load (take 16 (drop 16 o.bytes))) in
    if testz r r == 0 then false else testz r' r' == 1

unfoldable pub differs : V32 → V32 → Bool
unfolding equals
differs v o = not (equals v o)

abbrev pub all_ones : V32
all_ones = record { bytes = replicate 32 0xff }

abbrev pub all_zero : V32
all_zero = record { bytes = replicate 32 0 }

-- set_all_ones and set_all_zero store one value in each half, whatever stood there.
unfoldable pub set_all_ones : V32 → V32
set_all_ones v = all_ones

unfoldable pub set_all_zero : V32 → V32
set_all_zero v = all_zero

-- std::hash<v32>: the four words, combined.
unfoldable pub hash : V32 → ℕ
hash v =
    bit_xor
      (bit_xor (bit_xor (load (take 8 v.bytes)) (load (take 8 (drop 8 v.bytes))))
        (load (take 8 (drop 16 v.bytes))))
      (load (take 8 (drop 24 v.bytes)))
