-- ===== src/Codec/RoundTrip.antt =====
-- encdec.cpp: decoding what was encoded.
use epic_poold.Base.{
  ℕ, ◌+◌, ◌*◌, ◌^◌, ◌≤◌, ◌<◌, ◌≡◌, true, some, List, ◌∷◌, ◌++◌, arith, length, All, drop,
}
use epic_poold.Codec.{bin2hex, hex2bin}
use epic_poold.Codec.Spec.{hex_text, unhex, IsByte, length-hex_text, unhex-hex_text}
use epic_poold.Codec.Decode.{hex2bin_decides, Decoded}
use epic_poold.Codec.Encode.{bin2hex_decides}

-- Bytes that are written as text by `bin2hex` are read back by `hex2bin`, into any buffer with room. There
-- are fewer than 2^31 bytes.
pub hex2bin-bin2hex :
    (bytes tail buf out : List ℕ)
    → All IsByte bytes
    → length bytes < 2 ^ 31
    → 2 * length bytes < length buf
    → length bytes ≤ length out
    → (text : List ℕ) × (bin2hex (bytes ++ tail) (length bytes) buf ≡ some text)
      × (hex2bin text (2 * length bytes) out ≡ some (true, bytes ++ drop (length bytes) out))
hex2bin-bin2hex bytes tail buf out small word room room' = (
  hex_text bytes ++ 0 ∷ drop (2 * length bytes + 1) buf,
  ground (arith, bin2hex_decides bytes tail buf small word),
  rw (unhex-hex_text bytes small, length-hex_text bytes) at decoded,
)
  where
    decoded : Decoded (unhex (hex_text bytes)) out (
        hex2bin
          (hex_text bytes ++ 0 ∷ drop (2 * length bytes + 1) buf)
          (length (hex_text bytes))
          out)
    decoded = hex2bin_decides (hex_text bytes) _ out (omega (arith, length-hex_text bytes))
