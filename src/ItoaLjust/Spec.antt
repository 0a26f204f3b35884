-- ===== src/ItoaLjust/Spec.antt =====
-- Decimal text: what it stands for, and which text is the usual one.
use epic_poold.Base.{
  ℕ, ◌+◌, ◌-◌, ◌*◌, ◌^◌, ◌≤◌, ◌<◌, ◌≡◌, ◌≢◌, ◌∙◌, refl, ap, ap₂, List, [], ◌∷◌, ◌++◌, arith, length,
  All, All-append,
}
use mathlib.Core.List.{cons-ne-nil}
use native.Mathlib.Decide.{dec_lt}
use native.Mathlib.Nat.{pow-suc, pow-le-pow_right}

abbrev pub IsDigit : ℕ → Type 0
IsDigit c = (b'0' ≤ c) × (c ≤ b'9')

abbrev pub value_from : ℕ → List ℕ → ℕ
value_from n [] = n
value_from n (c ∷ s) = value_from (n * 10 + (c - b'0')) s

abbrev pub value : List ℕ → ℕ
value = value_from 0

-- Digits that stand for `n`, with no zero in front unless it is the only one.
pub record IsDecimal (n : ℕ) (text : List ℕ) : Type 0 where
  pub digits : All IsDigit text
  pub exact : value text ≡ n
  pub some_digit : text ≢ []
  pub no_leading_zero : (s : List ℕ) → text ≡ b'0' ∷ s → s ≡ []

pub value_from-append :
    (n : ℕ) (s t : List ℕ) → value_from n (s ++ t) ≡ value_from (value_from n s) t
value_from-append n [] t = refl
value_from-append n (c ∷ s) t = value_from-append (n * 10 + (c - b'0')) s t

pub value_from-split : (n : ℕ) (s : List ℕ) → value_from n s ≡ n * 10 ^ length s + value s
value_from-split n [] = omega arith
value_from-split n (c ∷ s) = omega (
  arith,
  value_from-split (n * 10 + (c - b'0')) s,
  value_from-split (0 * 10 + (c - b'0')) s,
  ap (λ (t : ℕ). n * t) (pow-suc 10 (length s)),
)

pub value-lt-pow : (s : List ℕ) → All IsDigit s → value s < 10 ^ length s
value-lt-pow [] _ = omega arith
value-lt-pow (c ∷ s) (d, ds) =
    grind
      (arith, value-lt-pow s ds, value_from-split (0 * 10 + (c - b'0')) s, pow-suc 10 (length s))

pow-le-value : (c : ℕ) (s : List ℕ) → b'0' < c → 10 ^ length s ≤ value (c ∷ s)
pow-le-value c s h = grind (arith, value_from-split (0 * 10 + (c - b'0')) s)

-- The usual text of a number below 10 ^ m has at most m digits.
pub length-IsDecimal :
    (n : ℕ) (text : List ℕ) (m : ℕ) → IsDecimal n text → n < 10 ^ m → 0 < m → length text ≤ m
length-IsDecimal n [] m v small pos = omega arith
length-IsDecimal n (c ∷ []) m v small pos = omega arith
length-IsDecimal n (c ∷ c' ∷ s) m v small pos = elim (dec_lt (length (c' ∷ s)) m) [
  | yes h ↦ h
  | no h ↦ elim (dec_lt b'0' c) [
    | yes first ↦ absurd (
        omega (
          arith,
          v.exact,
          pow-le-value c (c' ∷ s) first,
          pow-le-pow_right {n = 10} (omega arith) {i = m} {j = length (c' ∷ s)} (omega arith),
        ))
    | no zero_first ↦ absurd (
        cons-ne-nil c' s
          (v.no_leading_zero (c' ∷ s) (ap (λ (x : ℕ). x ∷ c' ∷ s) (omega (arith, v.digits.0)))))
  ]
]

-- The text of a quotient with the digits of the remainder behind it.
pub IsDecimal-append :
    (a b k u : ℕ) (s t : List ℕ)
    → IsDecimal a s
    → 0 < a
    → All IsDigit t
    → value t ≡ b
    → length t ≡ k
    → u ≡ a * 10 ^ k + b
    → IsDecimal u (s ++ t)
IsDecimal-append a b k u [] t v pos digits exact size e = absurd (v.some_digit refl)
IsDecimal-append a b k u (c ∷ s) t v pos digits exact size e = record {
  digits = All-append IsDigit (c ∷ s) t v.digits digits;
  exact =
      value_from-append 0 (c ∷ s) t
      ∙ value_from-split (value (c ∷ s)) t
      ∙ rw (v.exact, exact, size) (rw e);
  some_digit = λ nil. absurd (cons-ne-nil c (s ++ t) nil);
  no_leading_zero = λ r zero_first.
      let first : c ≡ b'0' = cc in
      let alone : s ≡ [] = v.no_leading_zero s (ap (λ (x : ℕ). x ∷ s) first) in
      absurd (omega (arith, v.exact, ap value (ap₂ (λ (x : ℕ) (r : List ℕ). x ∷ r) first alone)));
}
