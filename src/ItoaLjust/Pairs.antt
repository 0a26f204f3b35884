-- ===== src/ItoaLjust/Pairs.antt =====
-- What the cases of the switch append: a fixed number of digits that stand for the number.
use epic_poold.Base.{
  ℕ, ◌+◌, ◌*◌, ◌/◌, ◌%◌, ◌^◌, ◌<◌, ◌≡◌, ◌∙◌, ◌&&◌, true, refl, List, [], ◌∷◌, ◌++◌, arith, length,
  All, All-append, append_assoc, length-append, all_below, all_below_sound, ◌==◌, get_or,
}
use epic_poold.ItoaLjust.{
  lut, dd, sub32, one_digit, case_2, case_3, case_4, case_5, case_6, case_7, case_8, case_9,
  case_10,
}
use epic_poold.ItoaLjust.Spec.{IsDigit, value, value_from-append, value_from-split}

-- `r` is `out` with `k` digits behind it that stand for `u`.
pub record Prints (k u : ℕ) (out r : List ℕ) : Type 0 where
  pub text : List ℕ
  pub appended : r ≡ out ++ text
  pub size : length text ≡ k
  pub digits : All IsDigit text
  pub exact : value text ≡ u

pub Prints-trans :
    (j a k b u : ℕ) {out mid r : List ℕ}
    → Prints j a out mid
    → Prints k b mid r
    → u ≡ a * 10 ^ k + b
    → Prints (j + k) u out r
Prints-trans j a k b u {out} {mid} {r} p q e = record {
  text = p.text ++ q.text;
  appended = q.appended ∙ rw (p.appended, append_assoc);
  size = omega (arith, length-append p.text q.text, p.size, q.size);
  digits = All-append IsDigit p.text q.text p.digits q.digits;
  exact =
      value_from-append 0 p.text q.text
      ∙ value_from-split (value p.text) q.text
      ∙ rw (p.exact, q.exact, q.size) (rw e);
}

lut_table :
    all_below 100
      (λ u. (get_or lut (2 * u) 0 == u / 10 + b'0') && (get_or lut (2 * u + 1) 0 == u % 10 + b'0'))
    ≡ true
unfolding all_below lut
lut_table = refl

dd_lem : (u : ℕ) → u < 100 → dd u ≡ (u / 10 + b'0') ∷ (u % 10 + b'0') ∷ []
unfolding dd
dd_lem u h = ground (arith, all_below_sound 100 _ u lut_table h)

dd-Prints : (u : ℕ) (out : List ℕ) → u < 100 → Prints 2 u out (out ++ dd u)
dd-Prints u out h = rw (dd_lem u h) (record {
  text = (u / 10 + b'0') ∷ (u % 10 + b'0') ∷ [];
  appended = refl;
  size = refl;
  digits = omega arith;
  exact = omega arith;
})

pub one_digit-Prints : (u : ℕ) (out : List ℕ) → u < 10 → Prints 1 u out (out ++ one_digit u ∷ [])
unfolding one_digit
one_digit-Prints u out h = record {
  text = one_digit u ∷ [];
  appended = refl;
  size = refl;
  digits = omega arith;
  exact = omega arith;
}

pub case_2-Prints : (u : ℕ) (out : List ℕ) → u < 100 → Prints 2 u out (case_2 u out)
unfolding case_2
case_2-Prints u out h = let e : u / 1 ≡ u = omega arith in rw e (dd-Prints u out h)

-- Each odd case subtracts the digits that are printed, which leaves the remainder, though `d * k`
-- may exceed an int; each even case prints two more of them.
pub case_3-Prints :
    (u : ℕ) (out : List ℕ) → u < 2 ^ 32 → Prints 2 (u % 100) out (case_3 u (u / 100) out)
unfolding case_3 sub32
case_3-Prints u out h =
    let left : sub32 u (u / 100 * 100) ≡ u % 100 = omega arith in
    rw left (case_2-Prints (u % 100) out (omega arith))

pub case_4-Prints : (u : ℕ) (out : List ℕ) → u < 10000 → Prints 4 u out (case_4 u out)
unfolding case_4
case_4-Prints u out h =
    Prints-trans 2 (u / 100) 2 (u % 100) u (dd-Prints (u / 100) out (omega arith))
      (case_3-Prints u (out ++ dd (u / 100)) (omega arith)) (omega arith)

pub case_5-Prints :
    (u : ℕ) (out : List ℕ) → u < 2 ^ 32 → Prints 4 (u % 10000) out (case_5 u (u / 10000) out)
unfolding case_5 sub32
case_5-Prints u out h =
    let left : sub32 u (u / 10000 * 10000) ≡ u % 10000 = omega arith in
    rw left (case_4-Prints (u % 10000) out (omega arith))

pub case_6-Prints : (u : ℕ) (out : List ℕ) → u < 1000000 → Prints 6 u out (case_6 u out)
unfolding case_6
case_6-Prints u out h =
    Prints-trans 2 (u / 10000) 4 (u % 10000) u (dd-Prints (u / 10000) out (omega arith))
      (case_5-Prints u (out ++ dd (u / 10000)) (omega arith)) (omega arith)

pub case_7-Prints :
    (u : ℕ) (out : List ℕ) → u < 2 ^ 32 → Prints 6 (u % 1000000) out (case_7 u (u / 1000000) out)
unfolding case_7 sub32
case_7-Prints u out h =
    let left : sub32 u (u / 1000000 * 1000000) ≡ u % 1000000 = omega arith in
    rw left (case_6-Prints (u % 1000000) out (omega arith))

pub case_8-Prints : (u : ℕ) (out : List ℕ) → u < 100000000 → Prints 8 u out (case_8 u out)
unfolding case_8
case_8-Prints u out h =
    Prints-trans 2 (u / 1000000) 6 (u % 1000000) u (dd-Prints (u / 1000000) out (omega arith))
      (case_7-Prints u (out ++ dd (u / 1000000)) (omega arith)) (omega arith)

pub case_9-Prints :
    (u : ℕ) (out : List ℕ)
    → u < 2 ^ 32
    → Prints 8 (u % 100000000) out (case_9 u (u / 100000000) out)
unfolding case_9 sub32
case_9-Prints u out h =
    let left : sub32 u (u / 100000000 * 100000000) ≡ u % 100000000 = omega arith in
    rw left (case_8-Prints (u % 100000000) out (omega arith))

pub case_10-Prints : (u : ℕ) (out : List ℕ) → u < 2 ^ 32 → Prints 10 u out (case_10 u out)
unfolding case_10
case_10-Prints u out h =
    Prints-trans 2 (u / 100000000) 8 (u % 100000000) u (dd-Prints (u / 100000000) out (omega arith))
      (case_9-Prints u (out ++ dd (u / 100000000)) (omega arith)) (omega arith)
