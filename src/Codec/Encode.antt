-- ===== src/Codec/Encode.antt =====
-- `bin2hex` against the text of bytes.
use epic_poold.Base.{
  ℕ, suc, ◌+◌, ◌*◌, ◌/◌, ◌%◌, ◌^◌, ◌≤◌, ◌<◌, ◌≡◌, ◌∙◌, inl, inr, refl, true, none, some, List, [],
  ◌∷◌, ◌++◌, append_assoc, append-nil, arith, ltb, if◌then◌else◌, length, All, drop, set?, bit_and,
  get_elem?-drop, drop-suc, set?-at, set?-at_end, length-append, Bool-cases, ◌==◌, ==_iff,
  length-drop, drop-drop, all_below, all_below_sound,
}
use native.Mathlib.Numerals.{add-one}
use epic_poold.Codec.{hf_bin2hex, bin2hex_loop, bin2hex}
use epic_poold.Codec.Spec.{digit_char, hex_text, IsByte, length-hex_text}

high_table : all_below 256 (λ c. hf_bin2hex (bit_and c 0xF0 / 16) == digit_char (c / 16)) ≡ true
unfolding all_below hf_bin2hex
high_table = refl

low_table : all_below 256 (λ c. hf_bin2hex (bit_and c 0x0F) == digit_char (c % 16)) ≡ true
unfolding all_below hf_bin2hex
low_table = refl

high_digit : (c : ℕ) → c < 256 → hf_bin2hex (bit_and c 0xF0 / 16) ≡ digit_char (c / 16)
high_digit c h = (==_iff _ _).0 (all_below_sound 256 _ c high_table h)

low_digit : (c : ℕ) → c < 256 → hf_bin2hex (bit_and c 0x0F) ≡ digit_char (c % 16)
low_digit c h = (==_iff _ _).0 (all_below_sound 256 _ c low_table h)

snoc-length : (written : List ℕ) (b k : ℕ) → length written ≡ k → length (written ++ b ∷ []) ≡ k + 1
snoc-length written b k filled = omega (arith, length-append written (b ∷ []))

module _ (n i : ℕ) (inp : List ℕ) (c : ℕ) (more : List ℕ) (small : c < 256) (word : i < 2 ^ 31)
    (at : drop i inp ≡ c ∷ more) (written : List ℕ) (filled : length written ≡ i * 2) where
  abbrev after : List ℕ
  after = (written ++ digit_char (c / 16) ∷ []) ++ digit_char (c % 16) ∷ []

  even : i * 2 % 2 ^ 32 ≡ i * 2
  even = omega (arith, word)

  odd : (i * 2 + 1) % 2 ^ 32 ≡ i * 2 + 1
  odd = omega (arith, word)

  after-length : length after ≡ (i + 1) * 2
  after-length =
      snoc-length (written ++ digit_char (c / 16) ∷ []) _ (i * 2 + 1)
        (snoc-length written _ (i * 2) filled)
      ∙ omega arith

  step_two :
      (r r' : ℕ) (rest : List ℕ)
      → bin2hex_loop (suc n) i inp (written ++ r ∷ r' ∷ rest)
        ≡ bin2hex_loop n (i + 1) inp (after ++ rest)
  unfolding bin2hex_loop
  step_two r r' rest = rw (
    get_elem?-drop inp i c more at,
    even,
    odd,
    set?-at written (r' ∷ rest) r _ (i * 2) filled,
    high_digit c small,
    low_digit c small,
    set?-at (written ++ digit_char (c / 16) ∷ []) rest r' _ (i * 2 + 1)
        (snoc-length written _ (i * 2) filled),
  )

  step_one : (r : ℕ) → bin2hex_loop (suc n) i inp (written ++ r ∷ []) ≡ none
  unfolding bin2hex_loop
  step_one r = rw (
    get_elem?-drop inp i c more at,
    even,
    odd,
    set?-at written [] r (hf_bin2hex (bit_and c 0xF0 / 16)) (i * 2) filled,
    append-nil,
    set?-at_end (written ++ hf_bin2hex (bit_and c 0xF0 / 16) ∷ []) (hf_bin2hex (bit_and c 0x0F))
        (i * 2 + 1) (snoc-length written _ (i * 2) filled),
  )

  step_none : bin2hex_loop (suc n) i inp (written ++ []) ≡ none
  unfolding bin2hex_loop
  step_none = rw (
    get_elem?-drop inp i c more at,
    even,
    odd,
    append-nil,
    set?-at_end written (hf_bin2hex (bit_and c 0xF0 / 16)) (i * 2) filled,
  )

encode_bytes :
    (bytes : List ℕ) (i : ℕ) (inp tail written rest : List ℕ)
    → All IsByte bytes
    → drop i inp ≡ bytes ++ tail
    → i + length bytes ≤ 2 ^ 31
    → length written ≡ i * 2
    → 2 * length bytes ≤ length rest
    → bin2hex_loop (length bytes) i inp (written ++ rest)
      ≡ some (written ++ (hex_text bytes ++ drop (length (hex_text bytes)) rest))
unfolding hex_text
encode_bytes [] i inp tail written rest small at word filled room = unfold bin2hex_loop in refl
encode_bytes (c ∷ bytes) i inp tail written [] small at word filled room = absurd (omega arith)
encode_bytes (c ∷ bytes) i inp tail written (r ∷ []) small at word filled room =
    absurd (omega arith)
encode_bytes (c ∷ bytes) i inp tail written (r ∷ r' ∷ rest) small at word filled room =
    step_two (length bytes) i inp c (bytes ++ tail) small.0 (omega arith) at written filled r r'
      rest
    ∙ encode_bytes bytes (i + 1) inp tail _ rest small.1
        (rw add-one (drop-suc inp i c (bytes ++ tail) at)) (omega arith)
        (after-length (length bytes) i inp c (bytes ++ tail) small.0 (omega arith) at written
          filled)
        (omega arith)
    ∙ simp append_assoc

encode_overflows :
    (bytes : List ℕ) (i : ℕ) (inp tail written rest : List ℕ)
    → All IsByte bytes
    → drop i inp ≡ bytes ++ tail
    → i + length bytes ≤ 2 ^ 31
    → length written ≡ i * 2
    → length rest < 2 * length bytes
    → bin2hex_loop (length bytes) i inp (written ++ rest) ≡ none
encode_overflows [] i inp tail written rest small at word filled full = absurd (omega arith)
encode_overflows (c ∷ bytes) i inp tail written [] small at word filled full =
    step_none (length bytes) i inp c (bytes ++ tail) small.0 (omega arith) at written filled
encode_overflows (c ∷ bytes) i inp tail written (r ∷ []) small at word filled full =
    step_one (length bytes) i inp c (bytes ++ tail) small.0 (omega arith) at written filled r
encode_overflows (c ∷ bytes) i inp tail written (r ∷ r' ∷ rest) small at word filled full =
    step_two (length bytes) i inp c (bytes ++ tail) small.0 (omega arith) at written filled r r'
      rest
    ∙ encode_overflows bytes (i + 1) inp tail _ rest small.1
        (rw add-one (drop-suc inp i c (bytes ++ tail) at)) (omega arith)
        (after-length (length bytes) i inp c (bytes ++ tail) small.0 (omega arith) at written
          filled)
        (omega arith)

-- The terminator goes behind the text, if there is room for it.
terminate :
    (text rest : List ℕ) (i : ℕ)
    → length text ≡ i
    → set? (text ++ rest) i 0
      ≡ (if ltb 0 (length rest) then some (text ++ 0 ∷ drop 1 rest) else none)
terminate text [] i e = rw append-nil (set?-at_end text 0 i e)
terminate text (r ∷ rest) i e =
    ground (arith, set?-at text rest r 0 i e, append_assoc text (0 ∷ []) rest)

-- `bin2hex` writes the two lower-case digits of each byte and a terminator, and leaves the rest of
-- the output as it was; it stays within the output exactly when that holds 2 * len + 1 characters. There are fewer than 2^31 bytes, so that 2 * len is
-- an unsigned int.
pub bin2hex_decides :
    (bytes tail out : List ℕ)
    → All IsByte bytes
    → length bytes < 2 ^ 31
    → bin2hex (bytes ++ tail) (length bytes) out ≡ (
        if ltb (2 * length bytes) (length out)
        then some (hex_text bytes ++ 0 ∷ drop (2 * length bytes + 1) out)
        else none)
unfolding bin2hex
bin2hex_decides bytes tail out small word =
    let doubled : length bytes * 2 % 2 ^ 32 ≡ length bytes * 2 = omega (arith, word) in
    elim (Bool-cases (ltb (length out) (2 * length bytes))) [
      | inl full ↦ rw doubled (
          ground (
            arith,
            encode_overflows bytes 0 (bytes ++ tail) tail [] out small refl (omega arith) refl,
          ))
      | inr room ↦
          rw
            (
              encode_bytes bytes 0 (bytes ++ tail) tail [] out small refl (omega arith) refl
                  (ground arith),
              doubled,
            )
            (ground (
              arith,
              terminate (hex_text bytes) (drop (length (hex_text bytes)) out) (length bytes * 2),
              length-hex_text bytes,
              length-drop (length (hex_text bytes)) out,
              drop-drop out (2 * length bytes),
            ))
    ]
