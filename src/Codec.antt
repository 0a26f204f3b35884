-- ===== src/Codec.antt =====
-- encdec.cpp: hexadecimal text to bytes and back. A `char *` is the list of the bytes that can be
-- read behind it, an output pointer the list of the bytes that can be written; `none` is an
-- access outside of it, which C leaves undefined.
pub mod Spec
pub mod Decode
pub mod Encode
pub mod RoundTrip
pub mod Tests
use mathlib.Core.Option
use epic_poold.Base.{
  ℕ, zero, suc, ◌+◌, ◌-◌, ◌*◌, ◌/◌, ◌%◌, ◌^◌, Bool, true, false, ◌&&◌, Option, none, some, List,
  bit_and, bit_or, leb, if◌then◌else◌, get_elem?, set?,
}

infixl 5 ◌>>=◌
abbrev pub ◌>>=◌ {ℓ κ} : {A : Type ℓ} {B : Type κ} → Option A → (A → Option B) → Option B
none >>= f = none
some a >>= f = f a

-- The value of a digit, and the flag behind the reference `err`.
pub hf_hex2bin : ℕ → Bool → ℕ × Bool
hf_hex2bin c err =
    if leb b'0' c && leb c b'9'
    then (c - b'0', err)
    else if leb b'a' c && leb c b'f'
    then (c - b'a' + 0xA, err)
    else if leb b'A' c && leb c b'F'
    then (c - b'A' + 0xA, err)
    else (0, true)

-- The byte stored for two digits; `<<` and `|` are done in int, the store keeps eight bits.
pub join_digits : ℕ → ℕ → ℕ
join_digits high low = bit_or (high * 16) low % 256

-- The loop of `hex2bin` at `i = 2 * k`, with `left` rounds left.
pub hex2bin_loop : ℕ → ℕ → List ℕ → List ℕ → Bool → Option (Bool × List ℕ)
hex2bin_loop zero k inp out error = some (true, out)
hex2bin_loop (suc left) k inp out error = do
  c ← get_elem? inp (2 * k)
  d ← get_elem? inp (2 * k + 1)
  let (high, error') = hf_hex2bin c error
  let (low, error'') = hf_hex2bin d error'
  out' ← set? out k (join_digits high low)
  elim error'' [ true ↦ some (false, out') | false ↦ hex2bin_loop left (k + 1) inp out' false ]

-- `i` runs over 0, 2, 4, … below `len`: (len + 1) / 2 rounds.
unfoldable pub hex2bin : List ℕ → ℕ → List ℕ → Option (Bool × List ℕ)
unfolding hex2bin_loop hf_hex2bin join_digits
hex2bin inp len out = hex2bin_loop ((len + 1) / 2) 0 inp out false

pub hf_bin2hex : ℕ → ℕ
hf_bin2hex c = if leb c 0x9 then b'0' + c else b'a' - 0xA + c

-- The places in the output are unsigned ints.
pub bin2hex_loop : ℕ → ℕ → List ℕ → List ℕ → Option (List ℕ)
bin2hex_loop zero i inp out = some out
bin2hex_loop (suc left) i inp out = do
  c ← get_elem? inp i
  out' ← set? out (i * 2 % 2 ^ 32) (hf_bin2hex (bit_and c 0xF0 / 16))
  out'' ← set? out' ((i * 2 + 1) % 2 ^ 32) (hf_bin2hex (bit_and c 0x0F))
  bin2hex_loop left (i + 1) inp out''

unfoldable pub bin2hex : List ℕ → ℕ → List ℕ → Option (List ℕ)
unfolding bin2hex_loop hf_bin2hex
bin2hex inp len out = do out' ← bin2hex_loop len 0 inp out; set? out' (len * 2 % 2 ^ 32) 0
