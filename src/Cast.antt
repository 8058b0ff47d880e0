-- ===== src/Cast.antt =====
-- src/cast.hpp: integers from and to decimal text. `modulus` is 2 to the number of bits of the
-- unsigned type that is cast to; the program casts to uint8_t and to uint16_t only.
pub mod RoundTrip
pub mod Refusals
pub mod Digits
use huasi.Prelude.{
  ℕ, zero, suc, ◌+◌, ◌-◌, ◌*◌, ◌/◌, ◌%◌, ◌||◌, Option, none, some, [], ◌∷◌, Bytes, ltb, leb, ◌==◌,
  if◌then◌else◌, ◌>>=◌,
}

abbrev pub byte_modulus : ℕ
byte_modulus = 256

abbrev pub word_modulus : ℕ
word_modulus = 65536

-- The loop over the digits. `next_value` is computed as an int and cut to the unsigned type; the
-- test for an overflow adds `offset`, also in the unsigned type.
unfoldable pub scan : ℕ → ℕ → ℕ → Bytes → Option ℕ
scan modulus offset value [] = some value
scan modulus offset value (ch ∷ s) =
    let next_value = (value * 10 + ch - b'0') % modulus in
    if ltb ch b'0' || ltb b'9' ch
    then none
    else if leb ((offset + next_value) % modulus) value
    then none
    else scan modulus offset next_value s

-- `-value`, in the type that is cast to.
abbrev negate : ℕ → ℕ → ℕ
negate modulus value = (modulus - value) % modulus

-- `cast<D>(s)`: `offset` is max() of the type behind a minus and else min(), which is 0.
unfoldable pub to_integer : ℕ → Bytes → Option ℕ
unfolding scan
to_integer modulus [] = some 0
to_integer modulus (sign ∷ s) =
    if sign == b'-'
    then (do value ← scan modulus (modulus - 1) 0 s; some (negate modulus value))
    else if sign == b'+'
    then scan modulus 0 0 s
    else scan modulus 0 0 (sign ∷ s)

-- The loop that fills the buffer from its end, with fuel.
unfoldable pub print : ℕ → ℕ → Bytes → Bytes
print zero value out = out
print (suc fuel) value out =
    let rest = print fuel (value / 10) ((b'0' + value % 10) ∷ out) in
    if ltb 0 (value / 10) then rest else (b'0' + value % 10) ∷ out

-- `cast<std::string>(value)` for an unsigned value: the loop makes one round more than `value / 10`
-- at most.
unfoldable pub to_text : ℕ → Bytes
unfolding print
to_text value = print (suc value) value []
