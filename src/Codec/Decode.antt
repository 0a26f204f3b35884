-- ===== src/Codec/Decode.antt =====
-- `hex2bin` against the meaning of hexadecimal text.
use epic_poold.Base.{
  ℕ, zero, suc, ◌+◌, ◌*◌, ◌/◌, ◌%◌, ◌≤◌, ◌<◌, ◌≡◌, ◌∙◌, ◌⊎◌, inl, inr, refl, Bool, true, false,
  Option, none, some, List, [], ◌∷◌, ◌++◌, append_assoc, arith, length, drop, get_elem?,
  get_elem?-drop, drop-suc, set?-at, length-append, all_below, all_below_sound, ◌==◌,
}
use native.Mathlib.Numerals.{add-one}
use epic_poold.Codec.{hf_hex2bin, join_digits, hex2bin_loop, hex2bin}
use epic_poold.Codec.Spec.{digit, join_nibbles, unhex}

hf_digit : (c : ℕ) (err : Bool) {v : ℕ} → digit c ≡ some v → hf_hex2bin c err ≡ (v, err)
unfolding hf_hex2bin
hf_digit c err h = ground arith

hf_no_digit : (c : ℕ) (err : Bool) → digit c ≡ none → hf_hex2bin c err ≡ (0, true)
unfolding hf_hex2bin
hf_no_digit c err h = ground arith

hf_keeps_error : (c : ℕ) → (hf_hex2bin c true).1 ≡ true
unfolding hf_hex2bin
hf_keeps_error c = ground arith

pub digit-lt : (c : ℕ) {v : ℕ} → digit c ≡ some v → v < 16
digit-lt c h = ground arith

join_table : all_below 256 (λ x. join_digits (x / 16) (x % 16) == x) ≡ true
unfolding all_below join_digits
join_table = refl

join_digits_lem : (high low : ℕ) → high < 16 → low < 16 → join_digits high low ≡ high * 16 + low
join_digits_lem high low h l =
    ground (arith, all_below_sound 256 _ (high * 16 + low) join_table, quotient, remainder)
  where
    quotient : (high * 16 + low) / 16 ≡ high
    quotient = omega arith

    remainder : (high * 16 + low) % 16 ≡ low
    remainder = omega arith

module _ (k : ℕ) (inp : List ℕ) (c d : ℕ) (more : List ℕ)
    (at : drop (2 * k) inp ≡ c ∷ d ∷ more) where
  first : get_elem? inp (2 * k) ≡ some c
  first = get_elem?-drop inp (2 * k) c (d ∷ more) at

  second : get_elem? inp (2 * k + 1) ≡ some d
  second =
      rw add-one (get_elem?-drop inp (suc (2 * k)) d more (drop-suc inp (2 * k) c (d ∷ more) at))

  further : drop (2 * (k + 1)) inp ≡ more
  further = rw index (drop-suc inp (suc (2 * k)) d more (drop-suc inp (2 * k) c (d ∷ more) at))
    where
      index : 2 * (k + 1) ≡ suc (suc (2 * k))
      index = omega arith

module _ (n k : ℕ) (inp : List ℕ) (c d : ℕ) (more : List ℕ) (written rest : List ℕ) (r : ℕ)
    (at : drop (2 * k) inp ≡ c ∷ d ∷ more) (filled : length written ≡ k) where
  abbrev next : Option (Bool × List ℕ)
  next = hex2bin_loop (suc n) k inp (written ++ r ∷ rest) false

  step_digits :
      {high low : ℕ}
      → digit c ≡ some high
      → digit d ≡ some low
      → next ≡ hex2bin_loop n (k + 1) inp ((written ++ (high * 16 + low) ∷ []) ++ rest) false
  unfolding hex2bin_loop
  step_digits {high} {low} hc hd = rw (
    first k inp c d more at,
    second k inp c d more at,
    hf_digit c false hc,
    hf_digit d false hd,
    join_digits_lem high low (digit-lt c hc) (digit-lt d hd),
    set?-at written rest r (high * 16 + low) k filled,
  )

  step_no_digits : (digit c ≡ none) ⊎ (digit d ≡ none) → (out : List ℕ) × (next ≡ some (false, out))
  unfolding hex2bin_loop
  step_no_digits bad = (
    (written ++ join_digits (hf_hex2bin c false).0 (hf_hex2bin d (hf_hex2bin c false).1).0 ∷ [])
        ++ rest,
    rw (
      first k inp c d more at,
      second k inp c d more at,
      set?-at written rest r _ k filled,
      refused bad,
    ),
  )
    where
      refused : (digit c ≡ none) ⊎ (digit d ≡ none) → (hf_hex2bin d (hf_hex2bin c false).1).1 ≡ true
      refused (inl hc) = rw (hf_no_digit c false hc) (hf_keeps_error d)
      refused (inr hd) = rw (hf_no_digit d (hf_hex2bin c false).1 hd)

pub join_nibbles-eq-some :
    (x y : Option ℕ) (z : Option (List ℕ)) {bytes : List ℕ}
    → join_nibbles x y z ≡ some bytes
    → (high : ℕ) × (low : ℕ) × (more : List ℕ) × (x ≡ some high)
      × (y ≡ some low)
      × (z ≡ some more)
      × (bytes ≡ (high * 16 + low) ∷ more)
join_nibbles-eq-some (some high) (some low) (some more) e = (high, low, more, refl, refl, refl, cc)
join_nibbles-eq-some none _ _ e = cc
join_nibbles-eq-some (some high) none _ e = cc
join_nibbles-eq-some (some high) (some low) none e = cc

join_nibbles-eq-none :
    (x y : Option ℕ) (z : Option (List ℕ))
    → join_nibbles x y z ≡ none
    → ((x ≡ none) ⊎ (y ≡ none))
      ⊎ ((high : ℕ) × (low : ℕ) × (x ≡ some high) × (y ≡ some low) × (z ≡ none))
join_nibbles-eq-none none _ _ e = inl (inl refl)
join_nibbles-eq-none (some high) none _ e = inl (inr refl)
join_nibbles-eq-none (some high) (some low) none e = inr (high, low, refl, refl, refl)
join_nibbles-eq-none (some high) (some low) (some more) e = cc

snoc-length : (written : List ℕ) (b k : ℕ) → length written ≡ k → length (written ++ b ∷ []) ≡ k + 1
snoc-length written b k filled = omega (arith, length-append written (b ∷ []))

-- The loop over a text that spells `bytes`, wherever text and output stand in their buffers.
decode_digits :
    (text : List ℕ) (bytes : List ℕ) (k : ℕ) (inp tail written rest : List ℕ)
    → drop (2 * k) inp ≡ text ++ tail
    → length written ≡ k
    → unhex text ≡ some bytes
    → length bytes ≤ length rest
    → hex2bin_loop (length bytes) k inp (written ++ rest) false
      ≡ some (true, written ++ (bytes ++ drop (length bytes) rest))
unfolding unhex
decode_digits [] bytes k inp tail written rest at filled means room =
    let e : [] ≡ bytes = cc in rw (← e) (unfold hex2bin_loop in refl)
decode_digits (c ∷ []) bytes k inp tail written rest at filled means room = cc
decode_digits (c ∷ d ∷ text) bytes k inp tail written rest at filled means room =
    let (high, low, more, hc, hd, hm, e) =
      join_nibbles-eq-some (digit c) (digit d) (unhex text) means in
    rw e (
      go high low more rest hc hd (rw e at room) (λ r.
        decode_digits text more (k + 1) inp tail (written ++ (high * 16 + low) ∷ []) r
          (further k inp c d (text ++ tail) at) (snoc-length written _ k filled) hm))
  where
    go :
        (high low : ℕ) (more rest : List ℕ)
        → digit c ≡ some high
        → digit d ≡ some low
        → suc (length more) ≤ length rest
        → ((r : List ℕ)
            → length more ≤ length r
            → hex2bin_loop
                (length more)
                (k + 1)
                inp
                ((written ++ (high * 16 + low) ∷ []) ++ r)
                false
              ≡ some (true, (written ++ (high * 16 + low) ∷ []) ++ (more ++ drop (length more) r)))
        → hex2bin_loop (suc (length more)) k inp (written ++ rest) false
          ≡ some (true, written ++ ((high * 16 + low) ∷ (more ++ drop (suc (length more)) rest)))
    go high low more [] hc hd room ih = absurd (omega arith)
    go high low more (r ∷ rest) hc hd room ih =
        step_digits (length more) k inp c d (text ++ tail) written rest r at filled hc hd
        ∙ ih rest (omega arith)
        ∙ rw append_assoc

abbrev pub Refused : Option (Bool × List ℕ) → Type 0
Refused r = (out : List ℕ) × (r ≡ some (false, out))

-- The loop over a text that spells nothing, with the terminator behind it.
decode_fails :
    (text : List ℕ) (n k : ℕ) (inp tail written rest : List ℕ)
    → drop (2 * k) inp ≡ text ++ 0 ∷ tail
    → length written ≡ k
    → unhex text ≡ none
    → n ≡ (length text + 1) / 2
    → n ≤ length rest
    → Refused (hex2bin_loop n k inp (written ++ rest) false)
unfolding unhex
decode_fails [] n k inp tail written rest at filled means rounds room = cc
decode_fails (c ∷ text) zero k inp tail written rest at filled means rounds room =
    absurd (omega arith)
decode_fails (c ∷ text) (suc n) k inp tail written [] at filled means rounds room =
    absurd (omega arith)
decode_fails (c ∷ []) (suc n) k inp tail written (r ∷ rest) at filled means rounds room =
    step_no_digits n k inp c 0 tail written rest r at filled (inr refl)
decode_fails (c ∷ d ∷ text) (suc n) k inp tail written (r ∷ rest) at filled means rounds room =
    elim (join_nibbles-eq-none (digit c) (digit d) (unhex text) means) [
      | inl bad ↦ step_no_digits n k inp c d (text ++ 0 ∷ tail) written rest r at filled bad
      | inr (high, low, hc, hd, hm) ↦
          rw (step_digits n k inp c d (text ++ 0 ∷ tail) written rest r at filled hc hd) (
            decode_fails text n (k + 1) inp tail (written ++ (high * 16 + low) ∷ []) rest
              (further k inp c d (text ++ 0 ∷ tail) at) (snoc-length written _ k filled) hm
              (omega arith) (omega arith))
    ]

pub length-unhex :
    (text : List ℕ) {bytes : List ℕ} → unhex text ≡ some bytes → length text ≡ 2 * length bytes
unfolding unhex
length-unhex [] {bytes} e = let nil : [] ≡ bytes = cc in rw (← nil)
length-unhex (c ∷ []) e = cc
length-unhex (c ∷ d ∷ text) e =
    let (_, _, more, _, _, hm, e') = join_nibbles-eq-some (digit c) (digit d) (unhex text) e in
    rw e' (omega (arith, length-unhex text hm))

-- The outcome for a text that spells the bytes given, or nothing.
abbrev pub Decoded : Option (List ℕ) → List ℕ → Option (Bool × List ℕ) → Type 0
Decoded (some bytes) out r = r ≡ some (true, bytes ++ drop (length bytes) out)
Decoded none out r = Refused r

module _ (text tail out : List ℕ) (room : (length text + 1) / 2 ≤ length out) where
  hex2bin_decides_by :
      (o : Option (List ℕ))
      → unhex text ≡ o
      → Decoded o out (hex2bin (text ++ 0 ∷ tail) (length text) out)
  unfolding hex2bin
  hex2bin_decides_by (some bytes) e = rw rounds (
      decode_digits text bytes 0 (text ++ 0 ∷ tail) (0 ∷ tail) [] out refl refl e
        (omega (arith, length-unhex text e)))
    where
      rounds : (length text + 1) / 2 ≡ length bytes
      rounds = omega (arith, length-unhex text e)
  hex2bin_decides_by none e =
      decode_fails text _ 0 (text ++ 0 ∷ tail) tail [] out refl refl e refl room

  -- For a terminated text with room for the result, `hex2bin` returns, and touches nothing outside
  -- its buffers. If the text spells bytes, it returns true with these bytes in front of the rest
  -- of the output; if the text has a character that is no digit, or an odd length, it returns false.
  pub hex2bin_decides : Decoded (unhex text) out (hex2bin (text ++ 0 ∷ tail) (length text) out)
  hex2bin_decides = hex2bin_decides_by (unhex text) refl
