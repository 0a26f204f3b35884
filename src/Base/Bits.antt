-- ===== src/Base/Bits.antt =====
-- The bit operations at variables: each is a recursion on binary digits, on which these laws are
-- proved by induction.
use Prim.Native.Nat.{
  ℕ, zero, suc, ◌+◌, ◌-◌, ◌*◌, ◌/◌, ◌%◌, ◌^◌, ◌≤◌, ◌<◌, min, max, digits, differ, bit_and, bit_or,
  bit_xor, bit_xor-bitwise, bit_and-bitwise, bit_or-bitwise,
}
use mathlib.Core.Path.{◌≡◌, refl, sym, ◌∙◌, ap}
use native.Mathlib.Nat.{pow-suc, le_refl, one-le-pow}
use native.Mathlib.Omega.{arith}

differ-eq-zero : (x y : ℕ) → differ x y ≡ 0 → x ≡ y
differ-eq-zero zero y e = sym e
differ-eq-zero (suc x) zero e = absurd (omega arith)
differ-eq-zero (suc x) (suc y) e = ap suc (differ-eq-zero x y e)

differ_self : (x : ℕ) → differ x x ≡ 0
differ_self zero = refl
differ_self (suc x) = differ_self x

xor_zero : (n a b : ℕ) → a ≤ n → digits (λ y. y) differ n a b ≡ 0 → a ≡ b
xor_zero zero zero b h e = sym e
xor_zero zero (suc a) b h e = absurd (omega arith)
xor_zero (suc n) zero b h e = sym e
xor_zero (suc n) (suc a) b h e =
    let low : suc a % 2 ≡ b % 2 = differ-eq-zero (suc a % 2) (b % 2) (omega arith) in
    let high : suc a / 2 ≡ b / 2 = xor_zero n (suc a / 2) (b / 2) (omega arith) (omega arith) in
    omega arith

xor_self : (n a : ℕ) → a ≤ n → digits (λ y. y) differ n a a ≡ 0
xor_self zero zero h = refl
xor_self zero (suc a) h = absurd (omega arith)
xor_self (suc n) zero h = refl
xor_self (suc n) (suc a) h =
    omega (arith, differ_self (suc a % 2), xor_self n (suc a / 2) (omega arith))

-- Two numbers are equal exactly when their exclusive or is 0.
pub eq_of_bit_xor : (a b : ℕ) → bit_xor a b ≡ 0 → a ≡ b
eq_of_bit_xor a b e = xor_zero a a b (le_refl a) (sym (bit_xor-bitwise a b) ∙ e)

pub bit_xor_self : (a : ℕ) → bit_xor a a ≡ 0
bit_xor_self a = bit_xor-bitwise a a ∙ xor_self a a (le_refl a)

and_self : (n a : ℕ) → a ≤ n → digits (λ y. zero) min n a a ≡ a
and_self zero zero h = refl
and_self zero (suc a) h = absurd (omega arith)
and_self (suc n) zero h = refl
and_self (suc n) (suc a) h = omega (arith, and_self n (suc a / 2) (omega arith))

pub bit_and_self : (a : ℕ) → bit_and a a ≡ a
bit_and_self a = bit_and-bitwise a a ∙ and_self a a (le_refl a)

or_zero : (n a : ℕ) → a ≤ n → digits (λ y. y) max n a 0 ≡ a
or_zero zero zero h = refl
or_zero zero (suc a) h = absurd (omega arith)
or_zero (suc n) zero h = refl
or_zero (suc n) (suc a) h = omega (arith, or_zero n (suc a / 2) (omega arith))

double : (q p k : ℕ) → p ≡ 2 ^ k → q * 2 ^ suc k ≡ 2 * (q * p)
double q p k e = omega (arith, ap (λ (t : ℕ). q * t) (pow-suc 2 k), ap (λ (t : ℕ). q * t) e)

or_fields : (n k a q r : ℕ) → a ≤ n → a ≡ q * 2 ^ k → r < 2 ^ k → digits (λ y. y) max n a r ≡ a + r
or_fields n zero a q r h e small =
    let none_left : r ≡ 0 = omega arith in rw none_left (or_zero n a h ∙ omega arith)
or_fields zero (suc k) zero q r h e small = omega arith
or_fields zero (suc k) (suc a) q r h e small = absurd (omega arith)
or_fields (suc n) (suc k) zero q r h e small = omega arith
or_fields (suc n) (suc k) (suc a) q r h e small =
    let even : suc a ≡ 2 * (q * 2 ^ k) = e ∙ double q (2 ^ k) k refl in
    let ih =
      or_fields n k (suc a / 2) q (r / 2) (omega arith) (omega arith)
        (omega (arith, pow-suc 2 k)) in
    omega arith

-- `(q << k) | r` is a sum when `r` fits `k` bits.
pub bit_or-shifted : (k q r : ℕ) → r < 2 ^ k → bit_or (q * 2 ^ k) r ≡ q * 2 ^ k + r
bit_or-shifted k q r small =
    bit_or-bitwise (q * 2 ^ k) r ∙ or_fields (q * 2 ^ k) k (q * 2 ^ k) q r (le_refl _) refl small

and_zero : (n a : ℕ) → digits (λ y. zero) min n a 0 ≡ 0
and_zero zero a = refl
and_zero (suc n) zero = refl
and_zero (suc n) (suc a) = omega (arith, and_zero n (suc a / 2))

and_mask :
    (n k a q r : ℕ)
    → a ≤ n
    → a ≡ q * 2 ^ k + r
    → r < 2 ^ k
    → digits (λ y. zero) min n a (2 ^ k - 1) ≡ r
and_mask n zero a q r h e small = and_zero n a ∙ omega arith
and_mask zero (suc k) zero q r h e small = omega arith
and_mask zero (suc k) (suc a) q r h e small = absurd (omega arith)
and_mask (suc n) (suc k) zero q r h e small = omega arith
and_mask (suc n) (suc k) (suc a) q r h e small =
    let even : suc a ≡ 2 * (q * 2 ^ k) + r = e ∙ ap (λ (t : ℕ). t + r) (double q (2 ^ k) k refl) in
    let two : 2 ^ suc k ≡ 2 * 2 ^ k = omega (arith, pow-suc 2 k) in
    let halved : (2 ^ suc k - 1) / 2 ≡ 2 ^ k - 1 = omega arith in
    let ih = and_mask n k (suc a / 2) q (r / 2) (omega arith) (omega arith) (omega arith) in
    rw halved (omega (arith, one-le-pow k 2))

-- `&` with `k` low ones is the remainder by 2 ^ k.
pub bit_and-ones : (k q r : ℕ) → r < 2 ^ k → bit_and (q * 2 ^ k + r) (2 ^ k - 1) ≡ r
bit_and-ones k q r small =
    bit_and-bitwise _ _ ∙ and_mask _ k (q * 2 ^ k + r) q r (le_refl _) refl small

pub bit_and-low : (k a : ℕ) → bit_and a (2 ^ k - 1) ≡ a % 2 ^ k
bit_and-low k a = ground (arith, one-le-pow k 2, bit_and-ones k (a / 2 ^ k) (a % 2 ^ k))
