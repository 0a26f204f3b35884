-- ===== src/ItoaLjust.antt =====
-- itoa_ljust.cpp: integers to decimal text, two digits at a time. The text that a call has written
-- is a list, and `p` is its end; a terminator stands at the pointer that a call returns. Machine
-- integers are their bit patterns, and `int` arithmetic wraps around as the compiler does it.
pub mod Spec
pub mod Pairs
pub mod Unsigned
pub mod Wide
pub mod Signed
pub mod Tests
use epic_poold.Base.{
  ℕ, zero, suc, ◌+◌, ◌-◌, ◌*◌, ◌/◌, ◌%◌, ◌^◌, true, false, Option, none, some, List, [], ◌∷◌, ◌++◌,
  ltb, leb, ◌==◌, if◌then◌else◌, get_or, codes,
}

pub lut : List ℕ
lut =
    codes "0001020304050607080910111213141516171819"
    ++ codes "2021222324252627282930313233343536373839"
    ++ codes "4041424344454647484950515253545556575859"
    ++ codes "6061626364656667686970717273747576777879"
    ++ codes "8081828384858687888990919293949596979899"

-- The two characters that `out(dd(u), p)` copies.
pub dd : ℕ → List ℕ
dd u = get_or lut (2 * u) 0 ∷ get_or lut (2 * u + 1) 0 ∷ []

-- `u -= x` on uint32_t.
pub sub32 : ℕ → ℕ → ℕ
sub32 u x = (u + 2 ^ 32 - x % 2 ^ 32) % 2 ^ 32

-- `'0' + d` as a char.
pub one_digit : ℕ → ℕ
one_digit d = (b'0' + d) % 256

-- The cases of the switch, each falling through into the next.
pub case_2 : ℕ → List ℕ → List ℕ
case_2 u out = out ++ dd (u / 1)

pub case_3 : ℕ → ℕ → List ℕ → List ℕ
case_3 u d out = case_2 (sub32 u (d * 100)) out

pub case_4 : ℕ → List ℕ → List ℕ
case_4 u out = case_3 u (u / 100) (out ++ dd (u / 100))

pub case_5 : ℕ → ℕ → List ℕ → List ℕ
case_5 u d out = case_4 (sub32 u (d * 10000)) out

pub case_6 : ℕ → List ℕ → List ℕ
case_6 u out = case_5 u (u / 10000) (out ++ dd (u / 10000))

pub case_7 : ℕ → ℕ → List ℕ → List ℕ
case_7 u d out = case_6 (sub32 u (d * 1000000)) out

pub case_8 : ℕ → List ℕ → List ℕ
case_8 u out = case_7 u (u / 1000000) (out ++ dd (u / 1000000))

pub case_9 : ℕ → ℕ → List ℕ → List ℕ
case_9 u d out = case_8 (sub32 u (d * 100000000)) out

pub case_10 : ℕ → List ℕ → List ℕ
case_10 u out = case_9 u (u / 100000000) (out ++ dd (u / 100000000))

pub itoa_switch : ℕ → List ℕ → ℕ → ℕ → List ℕ
itoa_switch u out d n =
    if n == 10
    then case_10 u out
    else if n == 9
    then case_9 u d out
    else if n == 8
    then case_8 u out
    else if n == 7
    then case_7 u d out
    else if n == 6
    then case_6 u out
    else if n == 5
    then case_5 u d out
    else if n == 4
    then case_4 u out
    else if n == 3
    then case_3 u d out
    else if n == 2
    then case_2 u out
    else out

-- `n = digits(u, k, d, p, n)` and then the switch; `d` is whatever it was, unless it is set here.
pub digits_then : ℕ → ℕ → ℕ → List ℕ → ℕ → List ℕ
digits_then u k d out n =
    if ltb u (k * 10 % 2 ^ 32)
    then itoa_switch u (out ++ one_digit (u / k) ∷ []) (u / k) (n - 1)
    else itoa_switch u out d n

-- itoa(uint32_t, char*), with the value that the uninitialised `d` has.
unfoldable pub itoa_u32 : ℕ → ℕ → List ℕ → List ℕ
itoa_u32 d u out =
    if leb 100000000 u
    then digits_then u 100000000 d out 10
    else if ltb u 100
    then digits_then u 1 d out 2
    else if ltb u 10000
    then digits_then u 100 d out 4
    else if ltb u 1000000
    then digits_then u 10000 d out 6
    else digits_then u 1000000 d out 8

-- itoa(int32_t, char*): the sign, and the magnitude by negation of the pattern.
unfoldable pub itoa_i32 : ℕ → ℕ → List ℕ → List ℕ
itoa_i32 d i out =
    if leb (2 ^ 31) i
    then itoa_u32 d ((2 ^ 32 - i) % 2 ^ 32) (out ++ b'-' ∷ [])
    else itoa_u32 d i out

-- What stands behind the recursive call: `lower`, its first digit, and the other eight.
pub lower_digits : ℕ → List ℕ → List ℕ
lower_digits u out =
    let lower = (u + 2 ^ 64 - u / 1000000000 * 1000000000 % 2 ^ 64) % 2 ^ 64 % 2 ^ 32 in
    itoa_switch lower (out ++ one_digit (lower / 100000000) ∷ []) (lower / 100000000) 9

-- itoa(uint64_t, char*), which calls itself for the upper part; `none` when the fuel runs out.
unfoldable pub itoa_u64 : ℕ → ℕ → ℕ → List ℕ → Option (List ℕ)
itoa_u64 zero d u out = none
itoa_u64 (suc fuel) d u out = elim (u % 2 ^ 32 == u) [
  | true ↦ some (itoa_u32 d (u % 2 ^ 32) out)
  | false ↦ elim (itoa_u64 fuel d (u / 1000000000) out) [
    | none ↦ none
    | some out' ↦ some (lower_digits u out')
  ]
]

unfoldable pub itoa_i64 : ℕ → ℕ → ℕ → List ℕ → Option (List ℕ)
unfolding itoa_u64
itoa_i64 fuel d i out =
    if leb (2 ^ 63) i
    then itoa_u64 fuel d ((2 ^ 64 - i) % 2 ^ 64) (out ++ b'-' ∷ [])
    else itoa_u64 fuel d i out
