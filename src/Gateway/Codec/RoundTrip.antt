-- ===== src/Gateway/Codec/RoundTrip.antt =====
-- Every text is decoded from its code, and a code has no separators.
use huasi.Prelude.{
  ℕ, ◌/◌, ◌%◌, ◌<◌, ◌≡◌, ◌≢◌, refl, ◌∙◌, ap, [], ◌∷◌, ◌++◌, arith, Bytes, ◌==◌, if◌then◌else◌, All,
  All-append, IsByte, ==_ne,
}
use huasi.Gateway.Codec.{decode, encode, encode_char, hex_value, hex_digit, is_unreserved}

decode_plain :
    (ch : ℕ) (s : Bytes)
    → ch ≢ b'%'
    → decode (ch ∷ s) ≡ (if ch == b'+' then b' ' else ch) ∷ decode s
unfolding decode
decode_plain ch [] h = rw (==_ne ch b'%' h)
decode_plain ch (a ∷ []) h = rw (==_ne ch b'%' h)
decode_plain ch (a ∷ b ∷ s) h = rw (==_ne ch b'%' h, decode) refl

hex_value-hex_digit : (n : ℕ) → n < 16 → hex_value (hex_digit n) ≡ n
unfolding hex_value hex_digit
hex_value-hex_digit n h = ground arith

decode_escape :
    (ch : ℕ) (s : Bytes)
    → ch < 256
    → decode (b'%' ∷ hex_digit (ch / 16) ∷ hex_digit (ch % 16) ∷ s) ≡ ch ∷ decode s
unfolding decode
decode_escape ch s h =
    ap (λ c. c ∷ decode s)
      (omega (
        arith,
        hex_value-hex_digit (ch / 16) (omega arith),
        hex_value-hex_digit (ch % 16) (omega arith),
      ))

decode-encode_char : (ch : ℕ) (s : Bytes) → ch < 256 → decode (encode_char ch ++ s) ≡ ch ∷ decode s
unfolding encode_char is_unreserved
decode-encode_char ch s h =
    ground (arith, decode_plain ch s, decode_plain b'+' s, decode_escape ch s)

-- Decoding undoes encoding, for every string of bytes.
pub decode-encode : (s : Bytes) → All IsByte s → decode (encode s) ≡ s
unfolding encode
decode-encode [] h = unfold decode in refl
decode-encode (ch ∷ s) (byte, h) =
    decode-encode_char ch (encode s) byte ∙ ap (◌∷◌ ch) (decode-encode s h)

-- A code holds neither `&` nor `=`.
abbrev pub IsPlain : ℕ → Type 0
IsPlain c = (c ≢ b'&') × (c ≢ b'=')

hex_digit-IsPlain : (n : ℕ) → n < 16 → IsPlain (hex_digit n)
unfolding hex_digit
hex_digit-IsPlain n h = ground arith

encode_char-IsPlain : (ch : ℕ) → ch < 256 → All IsPlain (encode_char ch)
unfolding encode_char is_unreserved
encode_char-IsPlain ch h =
    ground
      (arith, hex_digit-IsPlain (ch / 16) (omega arith), hex_digit-IsPlain (ch % 16) (omega arith))

pub encode-IsPlain : (s : Bytes) → All IsByte s → All IsPlain (encode s)
unfolding encode
encode-IsPlain [] h = tt
encode-IsPlain (ch ∷ s) (byte, h) =
    All-append IsPlain (encode_char ch) (encode s) (encode_char-IsPlain ch byte)
      (encode-IsPlain s h)
