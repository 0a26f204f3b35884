-- ===== src/ItoaLjust/Wide.antt =====
-- `itoa` of an unsigned 64-bit number, by parts of nine digits.
use epic_poold.Base.{
  ℕ, zero, suc, ◌+◌, ◌-◌, ◌*◌, ◌/◌, ◌%◌, ◌^◌, ◌≤◌, ◌<◌, ◌≡◌, ◌∙◌, inl, inr, ap, List, [], ◌∷◌, ◌++◌,
  arith, ◌==◌, ==_iff, Bool-cases, true, false, Option, some, append_assoc,
}
use epic_poold.ItoaLjust.{one_digit, itoa_switch, itoa_u32, lower_digits, itoa_u64}
use epic_poold.ItoaLjust.Spec.{length-IsDecimal, IsDecimal-append}
use epic_poold.ItoaLjust.Pairs.{Prints, Prints-trans, one_digit-Prints, case_9-Prints}
use epic_poold.ItoaLjust.Unsigned.{Writes, itoa_u32-Writes}

-- The lower part is printed with all its nine digits.
lower_digits-Prints :
    (u : ℕ) (out : List ℕ) → u < 2 ^ 64 → Prints 9 (u % 1000000000) out (lower_digits u out)
unfolding lower_digits itoa_switch
lower_digits-Prints u out h =
    let lower : (u + 2 ^ 64 - u / 1000000000 * 1000000000 % 2 ^ 64) % 2 ^ 64 % 2 ^ 32
        ≡ u % 1000000000 =
      omega arith in
    let v : ℕ = u % 1000000000 in
    rw lower (
      Prints-trans 1 (v / 100000000) 8 (v % 100000000) v
        (one_digit-Prints (v / 100000000) out (omega arith))
        (case_9-Prints v (out ++ one_digit (v / 100000000) ∷ []) (omega arith)) (omega arith))

-- A returned text as above.
abbrev pub Returns : ℕ → ℕ → List ℕ → Option (List ℕ) → Type 0
Returns m u out r = (out' : List ℕ) × (r ≡ some out') × Writes m u out out'

module _ (fuel d u : ℕ) (out : List ℕ) (wide : u < 2 ^ 64) where
  itoa_u64_short : (u % 2 ^ 32 == u) ≡ true → itoa_u64 (suc fuel) d u out ≡ some (itoa_u32 d u out)
  unfolding itoa_u64
  itoa_u64_short e = rw (e, itoa_u64) (ap (λ (n : ℕ). some (itoa_u32 d n out)) ((==_iff _ _).0 e))

  itoa_u64_long :
      (u % 2 ^ 32 == u) ≡ false
      → Returns 20 (u / 1000000000) out (itoa_u64 fuel d (u / 1000000000) out)
      → Returns 20 u out (itoa_u64 (suc fuel) d u out)
  unfolding itoa_u64
  itoa_u64_long e (mid, r, (upper, er, v, _)) =
      let low = lower_digits-Prints u mid wide in
      let all =
        IsDecimal-append (u / 1000000000) (u % 1000000000) 9 u upper low.text v (ground arith)
          low.digits low.exact low.size (omega arith) in
      (
        lower_digits u mid,
        rw (e, itoa_u64, r),
        (
          upper ++ low.text,
          low.appended ∙ rw (er, append_assoc),
          all,
          length-IsDecimal u (upper ++ low.text) 20 all (omega arith) (omega arith),
        ),
      )

short_Returns :
    (fuel u d : ℕ) (out : List ℕ)
    → u < 2 ^ 64
    → (u % 2 ^ 32 == u) ≡ true
    → Returns 20 u out (itoa_u64 (suc fuel) d u out)
short_Returns fuel u d out wide e =
    let (text, et, v, size) = itoa_u32-Writes u d out (ground arith) in
    (itoa_u32 d u out, itoa_u64_short fuel d u out wide e, (text, et, v, omega arith))

-- One more call for each nine digits above 2 ^ 32.
once : (fuel u d : ℕ) (out : List ℕ) → u < 2 ^ 32 → Returns 20 u out (itoa_u64 (suc fuel) d u out)
once fuel u d out small = short_Returns fuel u d out (omega arith) (ground arith)

more :
    (fuel u d : ℕ) (out : List ℕ)
    → u < 2 ^ 64
    → Returns 20 (u / 1000000000) out (itoa_u64 fuel d (u / 1000000000) out)
    → Returns 20 u out (itoa_u64 (suc fuel) d u out)
more fuel u d out wide upper = elim (Bool-cases (u % 2 ^ 32 == u)) [
  | inl e ↦ short_Returns fuel u d out wide e
  | inr e ↦ itoa_u64_long fuel d u out wide e upper
]

-- Every uint64_t is printed as its usual decimal text of at most twenty digits; the function calls
-- itself at most twice, so three calls are enough fuel.
pub itoa_u64-Returns :
    (fuel u d : ℕ) (out : List ℕ) → 3 ≤ fuel → u < 2 ^ 64 → Returns 20 u out (itoa_u64 fuel d u out)
itoa_u64-Returns zero u d out enough wide = absurd (omega arith)
itoa_u64-Returns (suc zero) u d out enough wide = absurd (omega arith)
itoa_u64-Returns (suc (suc zero)) u d out enough wide = absurd (omega arith)
itoa_u64-Returns (suc (suc (suc fuel))) u d out enough wide = more (suc (suc fuel)) u d out wide (
    more (suc fuel) (u / 1000000000) d out (omega arith)
      (once fuel (u / 1000000000 / 1000000000) d out (omega arith)))
