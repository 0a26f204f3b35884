-- ===== src/Codec/Tests.antt =====
-- Runs of the codec, and its theorems at concrete inputs.
use epic_poold.Base.{
  codes, ℕ, ◌≡◌, refl, true, false, none, some, List, [], ◌∷◌, ◌++◌, arith, replicate,
}
use epic_poold.Codec.{hex2bin, bin2hex}
use epic_poold.Codec.Spec.{hex_text, unhex}
use epic_poold.Codec.Decode.{Decoded, hex2bin_decides}
use epic_poold.Codec.Encode.{bin2hex_decides}
use epic_poold.Codec.RoundTrip.{hex2bin-bin2hex}

-- The bytes of an ASCII literal.
decodes : hex2bin (codes "0aFf" ++ 0 ∷ []) 4 (7 ∷ 7 ∷ 7 ∷ []) ≡ some (true, 10 ∷ 255 ∷ 7 ∷ [])
unfolding hex2bin
decodes = refl

odd_length : hex2bin (codes "0aF" ++ 0 ∷ []) 3 (7 ∷ 7 ∷ []) ≡ some (false, 10 ∷ 240 ∷ [])
unfolding hex2bin
odd_length = refl

too_small : bin2hex (1 ∷ 2 ∷ []) 2 (replicate 4 9) ≡ none
unfolding bin2hex
too_small = refl

encodes : bin2hex (10 ∷ 255 ∷ []) 2 (replicate 6 9) ≡ some (codes "0aff" ++ 0 ∷ 9 ∷ [])
unfolding bin2hex
encodes = refl

hex2bin_decides_example :
    Decoded
      (unhex (codes "0aFf"))
      (7 ∷ 7 ∷ 7 ∷ [])
      (hex2bin (codes "0aFf" ++ 0 ∷ []) 4 (7 ∷ 7 ∷ 7 ∷ []))
hex2bin_decides_example = hex2bin_decides (codes "0aFf") [] (7 ∷ 7 ∷ 7 ∷ []) (omega arith)

bin2hex_decides_example : bin2hex (10 ∷ 255 ∷ []) 2 (replicate 5 9) ≡ some (codes "0aff" ++ 0 ∷ [])
unfolding hex_text
bin2hex_decides_example =
    bin2hex_decides (10 ∷ 255 ∷ []) [] (replicate 5 9) (omega arith) (omega arith)

hex2bin-bin2hex_example :
    (text : List ℕ) × (bin2hex (10 ∷ 255 ∷ []) 2 (replicate 5 9) ≡ some text)
    × (hex2bin text 4 (7 ∷ 7 ∷ 7 ∷ []) ≡ some (true, 10 ∷ 255 ∷ 7 ∷ []))
hex2bin-bin2hex_example =
    hex2bin-bin2hex (10 ∷ 255 ∷ []) [] (replicate 5 9) (7 ∷ 7 ∷ 7 ∷ []) (omega arith) (omega arith)
      (omega arith) (omega arith)
