-- ===== src/Codec/Spec.antt =====
-- What hexadecimal text means, without buffers: the digits of a byte, and the bytes of a text.
use epic_poold.Base.{
  ℕ, ◌+◌, ◌-◌, ◌*◌, ◌/◌, ◌%◌, ◌<◌, ◌≡◌, refl, ◌&&◌, Option, none, some, List, [], ◌∷◌, arith, leb,
  if◌then◌else◌, length, All,
}

-- The value of a hexadecimal digit, in either case.
abbrev pub digit : ℕ → Option ℕ
digit c =
    if leb b'0' c && leb c b'9'
    then some (c - b'0')
    else if leb b'a' c && leb c b'f'
    then some (c - b'a' + 10)
    else if leb b'A' c && leb c b'F'
    then some (c - b'A' + 10)
    else none

abbrev pub join_nibbles : Option ℕ → Option ℕ → Option (List ℕ) → Option (List ℕ)
join_nibbles (some high) (some low) (some bytes) = some ((high * 16 + low) ∷ bytes)
join_nibbles _ _ _ = none

-- The bytes that a text of digits spells; none for a text that is not pairs of digits.
unfoldable pub unhex : List ℕ → Option (List ℕ)
unhex [] = some []
unhex (c ∷ []) = none
unhex (c ∷ d ∷ text) = join_nibbles (digit c) (digit d) (unhex text)

-- The lower-case digit of a value below 16.
abbrev pub digit_char : ℕ → ℕ
digit_char n = if leb n 9 then n + b'0' else n - 10 + b'a'

unfoldable pub hex_text : List ℕ → List ℕ
hex_text [] = []
hex_text (b ∷ bytes) = digit_char (b / 16) ∷ digit_char (b % 16) ∷ hex_text bytes

abbrev pub IsByte : ℕ → Type 0
IsByte b = b < 256

pub length-hex_text : (bytes : List ℕ) → length (hex_text bytes) ≡ 2 * length bytes
unfolding hex_text
length-hex_text [] = refl
length-hex_text (b ∷ bytes) = omega (arith, length-hex_text bytes)

-- Every byte string is spelled by its text.
pub unhex-hex_text : (bytes : List ℕ) → All IsByte bytes → unhex (hex_text bytes) ≡ some bytes
unfolding unhex hex_text
unhex-hex_text [] _ = refl
unhex-hex_text (b ∷ bytes) (small, rest) = ground (arith, unhex-hex_text bytes rest)
