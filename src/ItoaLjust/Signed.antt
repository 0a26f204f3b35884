-- ===== src/ItoaLjust/Signed.antt =====
-- `itoa` of the signed widths: the sign, then the magnitude.
use epic_poold.Base.{
  ℕ, suc, ◌-◌, ◌/◌, ◌%◌, ◌^◌, ◌≤◌, ◌<◌, ◌≡◌, ◌∙◌, inl, inr, refl, List, [], ◌∷◌, ◌++◌, arith,
  length, if◌then◌else◌, leb, Bool-cases, some, append_assoc,
}
use epic_poold.ItoaLjust.{itoa_i32, itoa_i64}
use epic_poold.ItoaLjust.Spec.{IsDecimal}
use epic_poold.ItoaLjust.Unsigned.{itoa_u32-Writes}
use epic_poold.ItoaLjust.Wide.{itoa_u64-Returns}

-- An integer: a natural number, or the negation of a successor.
pub data ℤ : Type 0 where
  pos : ℕ → ℤ
  negsuc : ℕ → ℤ

-- The integer that a pattern of `w` bits stands for.
abbrev pub signed : ℕ → ℕ → ℤ
signed w i = if leb (2 ^ w / 2) i then negsuc (2 ^ w - i - 1) else pos i

-- The usual text of an integer: that of its magnitude, behind a minus sign if it is negative.
abbrev pub IsSignedDecimal : ℤ → List ℕ → Type 0
IsSignedDecimal (pos n) text = IsDecimal n text
IsSignedDecimal (negsuc n) text = (s : List ℕ) × (text ≡ b'-' ∷ s) × IsDecimal (suc n) s

abbrev pub SignedText : ℕ → ℤ → List ℕ → List ℕ → Type 0
SignedText m z out r =
    (text : List ℕ) × (r ≡ out ++ text) × IsSignedDecimal z text × (length text ≤ m)

-- Every int32_t, the least one included, is printed as its usual text of at most 11 characters.
pub itoa_i32-SignedText :
    (i d : ℕ) (out : List ℕ) → i < 2 ^ 32 → SignedText 11 (signed 32 i) out (itoa_i32 d i out)
unfolding itoa_i32
itoa_i32-SignedText i d out word = elim (Bool-cases (leb (2 ^ 31) i)) [
  | inl neg ↦
      let (text, e, v, size) =
        itoa_u32-Writes ((2 ^ 32 - i) % 2 ^ 32) d (out ++ b'-' ∷ []) (omega arith) in
      let magnitude : (2 ^ 32 - i) % 2 ^ 32 ≡ suc (2 ^ 32 - i - 1) = ground arith in
      rw neg (b'-' ∷ text, e ∙ rw append_assoc, (text, refl, rw magnitude at v), omega arith)
  | inr nonneg ↦
      let (text, e, v, size) = itoa_u32-Writes i d out word in rw nonneg (text, e, v, omega arith)
]

-- Every int64_t, the least one included, is printed as its usual text of at most 21 characters.
pub itoa_i64-SignedText :
    (fuel i d : ℕ) (out : List ℕ)
    → 3 ≤ fuel
    → i < 2 ^ 64
    → (r : List ℕ) × (itoa_i64 fuel d i out ≡ some r) × SignedText 21 (signed 64 i) out r
unfolding itoa_i64
itoa_i64-SignedText fuel i d out enough word = elim (Bool-cases (leb (2 ^ 63) i)) [
  | inl neg ↦
      let (r, returns, (text, e, v, size)) =
        itoa_u64-Returns fuel ((2 ^ 64 - i) % 2 ^ 64) d (out ++ b'-' ∷ []) enough (omega arith) in
      let magnitude : (2 ^ 64 - i) % 2 ^ 64 ≡ suc (2 ^ 64 - i - 1) = ground arith in
      rw neg (
        r,
        returns,
        (b'-' ∷ text, e ∙ rw append_assoc, (text, refl, rw magnitude at v), omega arith),
      )
  | inr nonneg ↦
      let (r, returns, (text, e, v, size)) = itoa_u64-Returns fuel i d out enough word in
      rw nonneg (r, returns, (text, e, v, omega arith))
]
