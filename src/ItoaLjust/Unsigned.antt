-- ===== src/ItoaLjust/Unsigned.antt =====
-- `itoa` of an unsigned 32-bit number.
use epic_poold.Base.{
  ℕ, suc, ◌/◌, ◌%◌, ◌^◌, ◌≤◌, ◌<◌, ◌≡◌, ◌∙◌, ◌⊎◌, inl, inr, refl, ap, List, [], ◌∷◌, ◌++◌, arith,
  length, All,
}
use epic_poold.ItoaLjust.{
  one_digit, case_2, case_3, case_4, case_5, case_6, case_7, case_8, case_9, case_10, itoa_switch,
  digits_then, itoa_u32,
}
use native.Mathlib.Decide.{dec_lt}
use epic_poold.ItoaLjust.Spec.{IsDigit, IsDecimal, value, value-lt-pow, length-IsDecimal}
use epic_poold.ItoaLjust.Pairs.{
  Prints, Prints-trans, one_digit-Prints, case_2-Prints, case_3-Prints, case_4-Prints,
  case_5-Prints, case_6-Prints, case_7-Prints, case_8-Prints, case_9-Prints, case_10-Prints,
}

-- A text with exactly as many digits as the number needs has no zero in front.
no_zero :
    (s : List ℕ) (u j : ℕ)
    → All IsDigit (b'0' ∷ s)
    → value (b'0' ∷ s) ≡ u
    → length (b'0' ∷ s) ≡ suc j
    → (10 ^ j ≤ u) ⊎ (j ≡ 0)
    → s ≡ []
no_zero [] u j digits exact size needed = refl
no_zero (c ∷ s) u j digits exact size (inr e) = absurd (omega arith)
no_zero (c ∷ s) u j digits exact size (inl long) =
    let same : length (c ∷ s) ≡ j = omega arith in
    absurd (omega (arith, rw (← same) at long, value-lt-pow (c ∷ s) digits.1))

-- What a call appends: the digits that the number needs.
abbrev pub Printed : ℕ → List ℕ → List ℕ → Type 0
Printed u out r = (j : ℕ) × Prints (suc j) u out r × ((10 ^ j ≤ u) ⊎ (j ≡ 0))

module _ (u d : ℕ) (out : List ℕ) (word : u < 2 ^ 32) where
  -- Which call of `digits` is made, by the size of the number.
  call_10 : 100000000 ≤ u → itoa_u32 d u out ≡ digits_then u 100000000 d out 10
  unfolding itoa_u32
  call_10 lo = ground arith

  call_8 : 1000000 ≤ u → u < 100000000 → itoa_u32 d u out ≡ digits_then u 1000000 d out 8
  unfolding itoa_u32
  call_8 lo hi = ground arith

  call_6 : 10000 ≤ u → u < 1000000 → itoa_u32 d u out ≡ digits_then u 10000 d out 6
  unfolding itoa_u32
  call_6 lo hi = ground arith

  call_4 : 100 ≤ u → u < 10000 → itoa_u32 d u out ≡ digits_then u 100 d out 4
  unfolding itoa_u32
  call_4 lo hi = ground arith

  call_2 : u < 100 → itoa_u32 d u out ≡ digits_then u 1 d out 2
  unfolding itoa_u32
  call_2 hi = ground arith

  branch_1 : u < 10 → itoa_u32 d u out ≡ out ++ one_digit u ∷ []
  unfolding digits_then itoa_switch
  branch_1 hi = let e : u / 1 ≡ u = omega arith in call_2 (omega arith) ∙ ground arith

  print_1 : u < 10 → Printed u out (itoa_u32 d u out)
  print_1 hi = rw (branch_1 hi) (0, one_digit-Prints u out hi, inr refl)

  branch_2 : 10 ≤ u → u < 100 → itoa_u32 d u out ≡ case_2 u out
  unfolding digits_then itoa_switch
  branch_2 lo hi = call_2 (omega arith) ∙ ground arith

  print_2 : 10 ≤ u → u < 100 → Printed u out (itoa_u32 d u out)
  print_2 lo hi = rw (branch_2 lo hi) (1, case_2-Prints u out hi, inl lo)

  branch_3 :
      100 ≤ u → u < 1000 → itoa_u32 d u out ≡ case_3 u (u / 100) (out ++ one_digit (u / 100) ∷ [])
  unfolding digits_then itoa_switch
  branch_3 lo hi = call_4 (omega arith) (omega arith) ∙ ground arith

  print_3 : 100 ≤ u → u < 1000 → Printed u out (itoa_u32 d u out)
  print_3 lo hi = rw (branch_3 lo hi) (
    2,
    Prints-trans 1 (u / 100) 2 (u % 100) u (one_digit-Prints (u / 100) out (omega arith))
        (case_3-Prints u (out ++ one_digit (u / 100) ∷ []) word) (omega arith),
    inl lo,
  )

  branch_4 : 1000 ≤ u → u < 10000 → itoa_u32 d u out ≡ case_4 u out
  unfolding digits_then itoa_switch
  branch_4 lo hi = call_4 (omega arith) (omega arith) ∙ ground arith

  print_4 : 1000 ≤ u → u < 10000 → Printed u out (itoa_u32 d u out)
  print_4 lo hi = rw (branch_4 lo hi) (3, case_4-Prints u out hi, inl lo)

  branch_5 :
      10000 ≤ u
      → u < 100000
      → itoa_u32 d u out ≡ case_5 u (u / 10000) (out ++ one_digit (u / 10000) ∷ [])
  unfolding digits_then itoa_switch
  branch_5 lo hi = call_6 (omega arith) (omega arith) ∙ ground arith

  print_5 : 10000 ≤ u → u < 100000 → Printed u out (itoa_u32 d u out)
  print_5 lo hi = rw (branch_5 lo hi) (
    4,
    Prints-trans 1 (u / 10000) 4 (u % 10000) u (one_digit-Prints (u / 10000) out (omega arith))
        (case_5-Prints u (out ++ one_digit (u / 10000) ∷ []) word) (omega arith),
    inl lo,
  )

  branch_6 : 100000 ≤ u → u < 1000000 → itoa_u32 d u out ≡ case_6 u out
  unfolding digits_then itoa_switch
  branch_6 lo hi = call_6 (omega arith) (omega arith) ∙ ground arith

  print_6 : 100000 ≤ u → u < 1000000 → Printed u out (itoa_u32 d u out)
  print_6 lo hi = rw (branch_6 lo hi) (5, case_6-Prints u out hi, inl lo)

  branch_7 :
      1000000 ≤ u
      → u < 10000000
      → itoa_u32 d u out ≡ case_7 u (u / 1000000) (out ++ one_digit (u / 1000000) ∷ [])
  unfolding digits_then itoa_switch
  branch_7 lo hi = call_8 (omega arith) (omega arith) ∙ ground arith

  print_7 : 1000000 ≤ u → u < 10000000 → Printed u out (itoa_u32 d u out)
  print_7 lo hi = rw (branch_7 lo hi) (
    6,
    Prints-trans 1 (u / 1000000) 6 (u % 1000000) u
        (one_digit-Prints (u / 1000000) out (omega arith))
        (case_7-Prints u (out ++ one_digit (u / 1000000) ∷ []) word) (omega arith),
    inl lo,
  )

  branch_8 : 10000000 ≤ u → u < 100000000 → itoa_u32 d u out ≡ case_8 u out
  unfolding digits_then itoa_switch
  branch_8 lo hi = call_8 (omega arith) (omega arith) ∙ ground arith

  print_8 : 10000000 ≤ u → u < 100000000 → Printed u out (itoa_u32 d u out)
  print_8 lo hi = rw (branch_8 lo hi) (7, case_8-Prints u out hi, inl lo)

  branch_9 :
      100000000 ≤ u
      → u < 1000000000
      → itoa_u32 d u out ≡ case_9 u (u / 100000000) (out ++ one_digit (u / 100000000) ∷ [])
  unfolding digits_then itoa_switch
  branch_9 lo hi = call_10 (omega arith) ∙ ground arith

  print_9 : 100000000 ≤ u → u < 1000000000 → Printed u out (itoa_u32 d u out)
  print_9 lo hi = rw (branch_9 lo hi) (
    8,
    Prints-trans 1 (u / 100000000) 8 (u % 100000000) u
        (one_digit-Prints (u / 100000000) out (omega arith))
        (case_9-Prints u (out ++ one_digit (u / 100000000) ∷ []) word) (omega arith),
    inl lo,
  )

  branch_10 : 1000000000 ≤ u → itoa_u32 d u out ≡ case_10 u out
  unfolding digits_then itoa_switch
  branch_10 lo = call_10 (omega arith) ∙ ground arith

  print_10 : 1000000000 ≤ u → Printed u out (itoa_u32 d u out)
  print_10 lo = rw (branch_10 lo) (9, case_10-Prints u out word, inl lo)

  pub itoa_u32-Printed : Printed u out (itoa_u32 d u out)
  itoa_u32-Printed = elim (dec_lt u 10) [
    | yes h ↦ print_1 h
    | no g1 ↦ elim (dec_lt u 100) [
      | yes h ↦ print_2 (omega arith) h
      | no g2 ↦ elim (dec_lt u 1000) [
        | yes h ↦ print_3 (omega arith) h
        | no g3 ↦ elim (dec_lt u 10000) [
          | yes h ↦ print_4 (omega arith) h
          | no g4 ↦ elim (dec_lt u 100000) [
            | yes h ↦ print_5 (omega arith) h
            | no g5 ↦ elim (dec_lt u 1000000) [
              | yes h ↦ print_6 (omega arith) h
              | no g6 ↦ elim (dec_lt u 10000000) [
                | yes h ↦ print_7 (omega arith) h
                | no g7 ↦ elim (dec_lt u 100000000) [
                  | yes h ↦ print_8 (omega arith) h
                  | no g8 ↦ elim (dec_lt u 1000000000) [
                    | yes h ↦ print_9 (omega arith) h
                    | no g9 ↦ print_10 (omega arith)
                  ]
                ]
              ]
            ]
          ]
        ]
      ]
    ]
  ]

-- What stands behind `out` in `r` is the usual decimal text of `u`, of at most `m` digits.
abbrev pub Writes : ℕ → ℕ → List ℕ → List ℕ → Type 0
Writes m u out r = (text : List ℕ) × (r ≡ out ++ text) × IsDecimal u text × (length text ≤ m)

Printed-IsDecimal :
    (u : ℕ) (out r : List ℕ)
    → Printed u out r
    → (text : List ℕ) × (r ≡ out ++ text) × IsDecimal u text
Printed-IsDecimal u out r (j, p, needed) = (
  p.text,
  p.appended,
  record {
    digits = p.digits;
    exact = p.exact;
    some_digit = λ e. absurd (omega (arith, p.size, ap length e));
    no_leading_zero =
        λ s e. no_zero s u j (rw e at p.digits) (rw e at p.exact) (rw e at p.size) needed;
  },
)

-- Every uint32_t is printed as its usual decimal text of at most ten digits, whatever value the
-- uninitialised `d` has.
pub itoa_u32-Writes : (u d : ℕ) (out : List ℕ) → u < 2 ^ 32 → Writes 10 u out (itoa_u32 d u out)
itoa_u32-Writes u d out word =
    let (text, e, v) = Printed-IsDecimal u out (itoa_u32 d u out) (itoa_u32-Printed u d out word) in
    (text, e, v, length-IsDecimal u text 10 v (omega arith) (omega arith))
