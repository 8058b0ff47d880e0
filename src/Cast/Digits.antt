-- ===== src/Cast/Digits.antt =====
-- The characters of a printed number.
use huasi.Prelude.{ℕ, zero, suc, ◌+◌, ◌/◌, ◌%◌, ◌<◌, [], ◌∷◌, arith, Bytes, IsByte, All}
use huasi.Cast.{print, to_text}

print-IsByte : (fuel value : ℕ) (out : Bytes) → All IsByte out → All IsByte (print fuel value out)
unfolding print
print-IsByte zero value out h = h
print-IsByte (suc fuel) value out h =
    let digit : b'0' + value % 10 < 256 = omega arith in
    ground (arith, digit, h, print-IsByte fuel (value / 10) ((b'0' + value % 10) ∷ out) (digit, h))

pub to_text-IsByte : (value : ℕ) → All IsByte (to_text value)
unfolding to_text
to_text-IsByte value = print-IsByte (suc value) value [] tt
