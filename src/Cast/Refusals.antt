-- ===== src/Cast/Refusals.antt =====
-- Where reading a number goes wrong.
use native.Mathlib.Nat.{mod-lt}
use huasi.Prelude.{
  ℕ, ◌+◌, ◌*◌, ◌-◌, ◌/◌, ◌%◌, ◌≤◌, ◌<◌, ◌≡◌, ◌∙◌, none, some, [], ◌∷◌, arith, Bytes, lt→ltb,
}
use huasi.Cast.{scan, print, to_integer, to_text, byte_modulus}
use huasi.Cast.RoundTrip.{to_integer-scan, scan-print}

-- No text that begins with the digit zero is read: not "0" either.
pub to_integer-leading_zero :
    (modulus : ℕ) (s : Bytes) → 0 < modulus → to_integer modulus (b'0' ∷ s) ≡ none
unfolding to_integer scan
to_integer-leading_zero modulus s h = ground arith

-- The test for an overflow misses the numbers from 285 to 511: they are read as a byte, less 256.
pub to_integer-wraps :
    (value : ℕ)
    → 285 ≤ value
    → value < 512
    → to_integer byte_modulus (to_text value) ≡ some (value - 256)
to_integer-wraps value low high =
    to_integer-scan 256 value
    ∙ (unfold print in
        rw (lt→ltb 0 (value / 10) (omega arith)) (
          scan-print 256 value (value / 10) _ (omega arith) (omega arith) (omega arith)
          ∙ (unfold scan in ground arith)))

scan-lt :
    (modulus offset value r : ℕ) (s : Bytes)
    → value < modulus
    → scan modulus offset value s ≡ some r
    → r < modulus
unfolding scan
scan-lt modulus offset value r [] h e = ground arith
scan-lt modulus offset value r (c ∷ s) h e =
    ground (arith, scan-lt modulus offset ((value * 10 + c - b'0') % modulus) r s)

-- What is read fits the type.
pub to_integer-lt :
    (modulus r : ℕ) (s : Bytes) → 0 < modulus → to_integer modulus s ≡ some r → r < modulus
unfolding to_integer
to_integer-lt modulus r [] h e = ground arith
to_integer-lt modulus r (c ∷ s) h e = ground (
  arith,
  scan-lt modulus 0 0 r s,
  scan-lt modulus 0 0 r (c ∷ s),
  λ (n : ℕ). mod-lt (modulus - n) h,
)
