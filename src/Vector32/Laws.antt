-- ===== src/Vector32/Laws.antt =====
-- What the words, ids and comparisons of a vector say about its bytes.
use epic_poold.Base.{
  ℕ, zero, suc, ◌+◌, ◌-◌, ◌*◌, ◌/◌, ◌%◌, ◌^◌, ◌≤◌, ◌<◌, ◌≡◌, ◌≢◌, ◌∙◌, ◌↔◌, refl, sym, ap, ap₂, inl,
  inr, true, List, [], ◌∷◌, ◌++◌, bit_xor, ◌==◌, if◌then◌else◌, length, take, drop, All, arith,
  length-take, length-drop, take-append-drop, Bool-cases, All-take, All-drop,
}
use epic_poold.Base.Bits.{eq_of_bit_xor, bit_xor_self, bit_and_self, bit_and-low}
use epic_poold.Vector32.{
  V32, IsVector, load, bswap32, bswap64, get_work32, get_work64, get_id, testz, equals, differs,
  assign, of_bytes,
}

-- The number that bytes spell with the highest byte first.
abbrev pub big_endian : ℕ → List ℕ → ℕ
big_endian n [] = n
big_endian n (b ∷ bytes) = big_endian (n * 256 + b) bytes

abbrev IsBytes : List ℕ → Type 0
IsBytes = All (λ b. b < 256)

load-injective :
    (s t : List ℕ) → IsBytes s → IsBytes t → length s ≡ length t → load s ≡ load t → s ≡ t
load-injective [] [] hs ht e h = refl
load-injective [] (c ∷ t) hs ht e h = absurd (omega arith)
load-injective (b ∷ s) [] hs ht e h = absurd (omega arith)
load-injective (b ∷ s) (c ∷ t) hs ht e h =
    ap₂ ◌∷◌ (omega arith) (load-injective s t hs.1 ht.1 (omega arith) (omega arith))

-- `testz(a ^ b, a ^ b)` tells whether two registers are equal.
testz-eq : (a b : ℕ) → testz (bit_xor a b) (bit_xor a b) ≡ (if a == b then 1 else 0)
unfolding testz
testz-eq a b = ground (arith, bit_and_self (bit_xor a b), bit_xor_self a, eq_of_bit_xor a b)

take_all {ℓ} : {A : Type ℓ} (n : ℕ) (xs : List A) → length xs ≡ n → take n xs ≡ xs
take_all zero [] e = refl
take_all zero (x ∷ xs) e = absurd (omega arith)
take_all (suc n) [] e = refl
take_all (suc n) (x ∷ xs) e = ap (◌∷◌ x) (take_all n xs (omega arith))

upper_half : (v : V32) → IsVector v → take 16 (drop 16 v.bytes) ≡ drop 16 v.bytes
upper_half v h = take_all 16 (drop 16 v.bytes) (omega (arith, length-drop 16 v.bytes, h.0))

load-half :
    (v o : V32) (n : ℕ)
    → IsVector v
    → IsVector o
    → load (take 16 (drop n v.bytes)) ≡ load (take 16 (drop n o.bytes))
    → take 16 (drop n v.bytes) ≡ take 16 (drop n o.bytes)
load-half v o n hv ho e =
    load-injective (take 16 (drop n v.bytes)) (take 16 (drop n o.bytes))
      (All-take (λ b. b < 256) 16 _ (All-drop (λ b. b < 256) n v.bytes hv.1))
      (All-take (λ b. b < 256) 16 _ (All-drop (λ b. b < 256) n o.bytes ho.1))
      (omega (
        arith,
        length-take 16 (drop n v.bytes),
        length-take 16 (drop n o.bytes),
        length-drop n v.bytes,
        length-drop n o.bytes,
        hv.0,
        ho.0,
      ))
      e

-- An assignment leaves all of the vector on the right.
assign-whole : (v o : V32) → IsVector o → assign v o ≡ o
unfolding assign of_bytes
assign-whole v o h =
    ap (λ (bytes : List ℕ). record { bytes = bytes })
      (ap (λ l. take 16 o.bytes ++ l) (upper_half o h) ∙ take-append-drop 16 o.bytes)

equal_halves : (v o : V32) → IsVector v → IsVector o → equals v o ≡ true → v.bytes ≡ o.bytes
unfolding equals
equal_halves v o hv ho e =
    let low : load (take 16 v.bytes) ≡ load (take 16 o.bytes) =
      ground (arith, testz-eq (load (take 16 v.bytes)) (load (take 16 o.bytes))) in
    let high : load (take 16 (drop 16 v.bytes)) ≡ load (take 16 (drop 16 o.bytes)) =
      ground
        (arith, testz-eq (load (take 16 (drop 16 v.bytes))) (load (take 16 (drop 16 o.bytes)))) in
    let first : take 16 v.bytes ≡ take 16 o.bytes = load-half v o 0 hv ho low in
    let second : drop 16 v.bytes ≡ drop 16 o.bytes =
      sym (upper_half v hv) ∙ load-half v o 16 hv ho high ∙ upper_half o ho in
    sym (take-append-drop 16 v.bytes) ∙ ap₂ ◌++◌ first second ∙ take-append-drop 16 o.bytes

equals_self : (v : V32) → equals v v ≡ true
unfolding equals
equals_self v = ground (
  arith,
  testz-eq (load (take 16 v.bytes)) (load (take 16 v.bytes)),
  testz-eq (load (take 16 (drop 16 v.bytes))) (load (take 16 (drop 16 v.bytes))),
)

-- operator== holds exactly when all 32 bytes are the same, and operator!= exactly when they are not.
pub equals_iff :
    (v o : V32)
    → IsVector v
    → IsVector o
    → ((equals v o ≡ true) ↔ (v ≡ o)) × ((differs v o ≡ true) ↔ (v ≢ o))
unfolding differs
equals_iff v o hv ho = (
  (same, λ e. rw e (equals_self o)),
  (
    λ d e. cc (rw e at d, equals_self o),
    λ ne. elim (Bool-cases (equals v o)) [ inl e ↦ absurd (ne (same e)) | inr e ↦ rw e ],
  ),
)
  where
    same : equals v o ≡ true → v ≡ o
    same e = let b = equal_halves v o hv ho e in λ i. record { bytes = b i }

-- The id of a vector is its first word without the top bit, so it is never the id -1 that stands
-- for no dataset.
pub get_id_lem : (v : V32) → (get_id v ≡ load (take 8 v.bytes) % 2 ^ 63) × (get_id v ≢ 2 ^ 64 - 1)
unfolding get_id
get_id_lem v = let low = bit_and-low 63 (load (take 8 v.bytes)) in (low, omega (arith, low))

words :
    (bytes : List ℕ)
    → 8 ≤ length bytes
    → IsBytes bytes
    → (bswap32 (load (take 4 bytes)) ≡ big_endian 0 (take 4 bytes))
      × (bswap64 (load (take 8 bytes)) ≡ big_endian 0 (take 8 bytes))
      × (bswap64 (load (take 8 bytes)) / 2 ^ 32 ≡ bswap32 (load (take 4 bytes)))
unfolding bswap32 bswap64
words (a ∷ b ∷ c ∷ d ∷ e ∷ f ∷ g ∷ h ∷ bytes) long small = (omega arith, omega arith, omega arith)
words _ long small = absurd (omega arith)

-- The work of a hash is its first four, or eight, bytes read with the highest byte first; so the
-- short work is the upper half of the long one.
pub get_work_lem :
    (v : V32)
    → IsVector v
    → (get_work32 v ≡ big_endian 0 (take 4 v.bytes))
      × (get_work64 v ≡ big_endian 0 (take 8 v.bytes))
      × (get_work64 v / 2 ^ 32 ≡ get_work32 v)
unfolding get_work32 get_work64
get_work_lem v h = words v.bytes (omega (arith, h.0)) h.1
