-- ===== src/Cast/RoundTrip.antt =====
-- What is printed is read back, and fits the buffer.
use native.Mathlib.Nat.{mod-eq_of_lt}
use huasi.Prelude.{
  if◌then◌else◌, ℕ, zero, suc, ◌+◌, ◌*◌, ◌/◌, ◌%◌, ◌^◌, ◌≤◌, ◌<◌, ◌≡◌, ◌∙◌, inl, inr, some, [], ◌∷◌,
  arith, Bytes, ltb, ltb→lt, length, Bool-cases,
}
use huasi.Cast.{scan, print, to_integer, to_text}

-- A digit is appended to the number read so far, if the sum fits and is not zero.
pub scan_digit :
    (modulus value digit next : ℕ) (s : Bytes)
    → next ≡ value * 10 + digit
    → digit < 10
    → next < modulus
    → 0 < next
    → scan modulus 0 value ((b'0' + digit) ∷ s) ≡ scan modulus 0 next s
unfolding scan
scan_digit modulus value digit next s e d fits positive = ground (arith, mod-eq_of_lt fits)

-- Reading the print of a number gives the number, whatever follows.
pub scan-print :
    (modulus fuel value : ℕ) (out : Bytes)
    → value < fuel
    → value < modulus
    → 0 < value
    → scan modulus 0 0 (print fuel value out) ≡ scan modulus 0 value out
unfolding print
scan-print modulus zero value out h fits positive = absurd (omega arith)
scan-print modulus (suc fuel) value out h fits positive = elim (Bool-cases (ltb 0 (value / 10))) [
  | inl more ↦ rw more (
      scan-print modulus fuel (value / 10) _ (omega arith) (omega arith) (ltb→lt _ _ more)
      ∙ last (value / 10) (omega arith))
  | inr less ↦ rw less (last 0 (ground arith))
]
  where
    last :
        (front : ℕ)
        → value ≡ front * 10 + value % 10
        → scan modulus 0 front ((b'0' + value % 10) ∷ out) ≡ scan modulus 0 value out
    last front e = scan_digit modulus front (value % 10) value out e (omega arith) fits positive

-- A print begins with a digit.
pub print_head :
    (fuel value : ℕ) (out : Bytes)
    → (c : ℕ) × (rest : Bytes) × (print (suc fuel) value out ≡ c ∷ rest) × (b'0' ≤ c) × (c ≤ b'9')
unfolding print
print_head zero value out = elim (Bool-cases (ltb 0 (value / 10))) [
  | inl more ↦ (b'0' + value % 10, out, rw more, omega arith, omega arith)
  | inr less ↦ (b'0' + value % 10, out, rw less, omega arith, omega arith)
]
print_head (suc fuel) value out = elim (Bool-cases (ltb 0 (value / 10))) [
  | inl more ↦ rw more (print_head fuel (value / 10) ((b'0' + value % 10) ∷ out))
  | inr less ↦ (b'0' + value % 10, out, rw less, omega arith, omega arith)
]

-- Behind a digit there is no sign.
pub to_integer_digit :
    (modulus c : ℕ) (s : Bytes) → b'0' ≤ c → to_integer modulus (c ∷ s) ≡ scan modulus 0 0 (c ∷ s)
unfolding to_integer
to_integer_digit modulus c s h = ground arith

pub to_integer-scan :
    (modulus value : ℕ)
    → to_integer modulus (to_text value) ≡ scan modulus 0 0 (print (suc value) value [])
unfolding to_text
to_integer-scan modulus value =
    let (c, rest, e, low, high) = print_head value value [] in
    rw e (to_integer_digit modulus c rest low)

-- Every number but zero that fits the type is read back from its print.
pub to_integer-to_text :
    (modulus value : ℕ)
    → 0 < value
    → value < modulus
    → to_integer modulus (to_text value) ≡ some value
unfolding scan
to_integer-to_text modulus value positive fits =
    to_integer-scan modulus value
    ∙ scan-print modulus (suc value) value [] (omega arith) fits positive

length-print :
    (digits fuel value : ℕ) (out : Bytes)
    → value < 10 ^ suc digits
    → length (print fuel value out) ≤ suc digits + length out
unfolding print
length-print digits zero value out h = omega arith
length-print zero (suc fuel) value out h = ground arith
length-print (suc digits) (suc fuel) value out h =
    ground (arith, length-print digits fuel (value / 10) ((b'0' + value % 10) ∷ out))

-- The print of a number below 65536 and its final zero fit the buffer of `sizeof(s) * 3 + 2`
-- characters, for the smaller of the types of one byte and of two bytes that holds the number.
pub length-to_text :
    (value : ℕ)
    → value < 65536
    → length (to_text value) + 1 ≤ (if ltb value 256 then 1 else 2) * 3 + 2
unfolding to_text
length-to_text value h =
    ground (arith, byte_fits, length-print 4 (suc value) value [] (omega arith))
  where
    byte_fits : value < 256 → length (print (suc value) value []) ≤ 3
    byte_fits small = omega (arith, length-print 2 (suc value) value [] (omega arith))
