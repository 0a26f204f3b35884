-- ===== src/Vector32/Tests.antt =====
-- Runs of the vector's operations, and their laws at concrete vectors.
use epic_poold.Base.{◌≡◌, refl, [], ◌∷◌, ◌++◌, arith, replicate}
use epic_poold.Vector32.{
  V32, IsVector, all_ones, all_zero, get_work32, get_work64, get_id, set_all_ones, hash, of_bytes,
}

abbrev counted : V32
counted = record { bytes = 1 ∷ 2 ∷ 3 ∷ 4 ∷ 5 ∷ 6 ∷ 7 ∷ 8 ∷ replicate 24 9 }

counted-IsVector : IsVector counted
counted-IsVector = omega arith

work_of_counted : (get_work32 counted ≡ 0x01020304) × (get_work64 counted ≡ 0x0102030405060708)
unfolding get_work32 get_work64
work_of_counted = (refl, refl)

id_of_ones : get_id (set_all_ones counted) ≡ 0x7fffffffffffffff
unfolding get_id set_all_ones
id_of_ones = refl

copy_of_counted : of_bytes (counted.bytes ++ 1 ∷ []) ≡ counted
unfolding of_bytes
copy_of_counted = refl

hash_of_ones : hash all_ones ≡ 0
unfolding hash
hash_of_ones = refl

all_zero-IsVector : IsVector all_zero
all_zero-IsVector = omega arith
