-- ===== src/Http/Client/Numbers.antt =====
-- The length that an answer names, read by a client.
use huasi.Prelude.{
  ℕ, zero, suc, ◌+◌, ◌*◌, ◌/◌, ◌%◌, ◌<◌, ◌≡◌, refl, ◌∙◌, ap, inl, inr, true, [], ◌∷◌, arith, Bytes,
  ltb, ltb→lt, Bool-cases,
}
use huasi.Cast.{print, to_text}
use huasi.Http.Client.{decimal}
use huasi.Http.Client.Lines.{is_line}

last_digit :
    (front value : ℕ) (out : Bytes)
    → value ≡ front * 10 + value % 10
    → decimal front ((b'0' + value % 10) ∷ out) ≡ decimal value out
unfolding decimal
last_digit front value out e = ap (λ n. decimal n out) (omega arith)

decimal-print :
    (fuel value : ℕ) (out : Bytes)
    → value < fuel
    → decimal 0 (print fuel value out) ≡ decimal value out
unfolding print
decimal-print zero value out h = absurd (omega arith)
decimal-print (suc fuel) value out h = elim (Bool-cases (ltb 0 (value / 10))) [
  | inl more ↦
      let positive = ltb→lt 0 (value / 10) more in
      rw more (
        decimal-print fuel (value / 10) _ (omega arith)
        ∙ last_digit (value / 10) value out (omega arith))
  | inr less ↦ rw less (last_digit 0 value out (ground arith))
]

-- Every number is read back from its print.
pub decimal-to_text : (value : ℕ) → decimal 0 (to_text value) ≡ value
unfolding to_text decimal
decimal-to_text value = decimal-print (suc value) value [] (omega arith)

print-is_line :
    (fuel value : ℕ) (out : Bytes) → is_line out ≡ true → is_line (print fuel value out) ≡ true
unfolding print is_line
print-is_line zero value out h = h
print-is_line (suc fuel) value out h =
    ground (arith, print-is_line fuel (value / 10) ((b'0' + value % 10) ∷ out))

pub to_text-is_line : (value : ℕ) → is_line (to_text value) ≡ true
unfolding to_text is_line
to_text-is_line value = print-is_line (suc value) value [] refl
