-- ===== src/Gateway/Codec.antt =====
-- `decodeQuery` and `encodeQuery` of src/Gateway.cpp. `decode` is given the characters from `start` to
-- `end`.
pub mod RoundTrip
use huasi.Prelude.{
  ℕ, ◌+◌, ◌-◌, ◌*◌, ◌/◌, ◌%◌, Bool, true, false, ◌&&◌, ◌||◌, [], ◌∷◌, ◌++◌, Bytes, ltb, leb, ◌==◌,
  if◌then◌else◌,
}

-- What a hexadecimal digit adds to the byte; any other character adds nothing.
hex_value : ℕ → ℕ
hex_value hex =
    if leb b'0' hex && leb hex b'9'
    then hex - b'0'
    else if leb b'a' hex && leb hex b'f'
    then hex - b'a' + 10
    else if leb b'A' hex && leb hex b'F'
    then hex - b'A' + 10
    else 0

-- An escape with fewer than two characters behind it ends the text.
unfoldable pub decode : Bytes → Bytes
unfolding hex_value
decode [] = []
decode (ch ∷ []) = if ch == b'%' then [] else (if ch == b'+' then b' ' else ch) ∷ []
decode (ch ∷ a ∷ []) =
    let rest = decode (a ∷ []) in
    if ch == b'%' then [] else (if ch == b'+' then b' ' else ch) ∷ rest
decode (ch ∷ a ∷ b ∷ s) = elim (ch == b'%') [
  | true ↦ (hex_value a * 16 + hex_value b) % 256 ∷ decode s
  | false ↦ (if ch == b'+' then b' ' else ch) ∷ decode (a ∷ b ∷ s)
]

-- The characters that stand for themselves.
pub is_unreserved : ℕ → Bool
is_unreserved ch =
    ch == b'-'
    || ch == b'.'
    || ch == b'_'
    || ch == b'~'
    || leb b'A' ch && leb ch b'Z'
    || leb b'a' ch && leb ch b'z'
    || leb b'0' ch && leb ch b'9'

hex_digit : ℕ → ℕ
hex_digit n = if ltb n 10 then b'0' + n else b'A' + (n - 10)

-- What one character adds to the result.
encode_char : ℕ → Bytes
encode_char ch =
    if is_unreserved ch
    then ch ∷ []
    else if ch == b' '
    then b'+' ∷ []
    else b'%' ∷ hex_digit (ch / 16) ∷ hex_digit (ch % 16) ∷ []

pub encode : Bytes → Bytes
encode [] = []
encode (ch ∷ s) = encode_char ch ++ encode s
