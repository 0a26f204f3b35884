-- ===== src/ItoaLjust/Tests.antt =====
-- Runs of the printer, and its theorems at concrete inputs.
use epic_poold.Base.{codes, ◌-◌, ◌^◌, ◌≡◌, refl, some, [], arith}
use epic_poold.ItoaLjust.{
  lut, dd, sub32, one_digit, case_2, case_3, case_4, case_5, case_6, case_7, case_8, case_9,
  case_10, itoa_switch, digits_then, lower_digits, itoa_u32, itoa_i32, itoa_u64,
}
use epic_poold.ItoaLjust.Wide.{Returns, itoa_u64-Returns}

largest_u32 : itoa_u32 7 4294967295 (codes "x") ≡ codes "x4294967295"
unfolding itoa_u32 digits_then itoa_switch case_10 case_9 case_8 case_7 case_6 case_5 case_4 case_3
    case_2 dd lut sub32 one_digit
largest_u32 = refl

odd_digits : itoa_u32 7 1050 [] ≡ codes "1050"
unfolding itoa_u32 digits_then itoa_switch case_4 case_3 case_2 dd lut sub32 one_digit
odd_digits = refl

least_i32 : itoa_i32 7 2147483648 [] ≡ codes "-2147483648"
unfolding itoa_i32 itoa_u32 digits_then itoa_switch case_10 case_9 case_8 case_7 case_6 case_5
    case_4 case_3 case_2 dd lut sub32 one_digit
least_i32 = refl

largest_u64 : itoa_u64 3 7 18446744073709551615 [] ≡ some (codes "18446744073709551615")
unfolding itoa_u64 lower_digits itoa_u32 digits_then itoa_switch case_10 case_9 case_8 case_7 case_6
    case_5 case_4 case_3 case_2 dd lut sub32 one_digit
largest_u64 = refl

itoa_u64-Returns_example : Returns 20 (2 ^ 64 - 1) [] (itoa_u64 3 7 (2 ^ 64 - 1) [])
itoa_u64-Returns_example = itoa_u64-Returns 3 (2 ^ 64 - 1) 7 [] (omega arith) (omega arith)
