-- ===== src/EnOcean/Crc/Polynomial.antt =====
-- What the table holds.
use huasi.Prelude.{
  ℕ, ◌+◌, ◌*◌, ◌/◌, ◌%◌, ◌<◌, ◌≡◌, refl, sym, ◌∙◌, ap, true, bit_xor, get_or, ◌==◌, ltb,
  if◌then◌else◌, every_under, every_under_at, ==_iff, ltb→lt,
}
use huasi.EnOcean.Crc.{crc8_table}

-- One step of the division by x^8 + x^2 + x + 1: a shift, and the rest of the polynomial if a bit
-- leaves the byte.
abbrev pub step : ℕ → ℕ
step c = if ltb c 128 then c * 2 else bit_xor ((c * 2) % 256) 0x07

abbrev pub divided : ℕ → ℕ
divided c = step (step (step (step (step (step (step (step c)))))))

abbrev step_back : ℕ → ℕ
step_back c = if c % 2 == 0 then c / 2 else bit_xor c 0x07 / 2 + 128

abbrev undivided : ℕ → ℕ
undivided c =
    step_back (step_back (step_back (step_back (step_back (step_back (step_back (step_back c)))))))

divided_table : every_under 256 (λ x. get_or crc8_table x 0 == divided x) ≡ true
unfolding every_under
divided_table = refl

undivided_table : every_under 256 (λ x. undivided (get_or crc8_table x 0) == x) ≡ true
unfolding every_under
undivided_table = refl

bound_table : every_under 256 (λ x. ltb (get_or crc8_table x 0) 256) ≡ true
unfolding every_under
bound_table = refl

-- Each entry of the table is the remainder that eight steps of the division by x^8 + x^2 + x + 1
-- leave of its index.
pub crc8_table-divided : (x : ℕ) → x < 256 → get_or crc8_table x 0 ≡ divided x
crc8_table-divided x small =
    (==_iff _ (divided x)).0
      (every_under_at 256 (λ x. get_or crc8_table x 0 == divided x) x divided_table small)

pub crc8_table-lt : (x : ℕ) → x < 256 → get_or crc8_table x 0 < 256
crc8_table-lt x small =
    ltb→lt _ 256 (every_under_at 256 (λ x. ltb (get_or crc8_table x 0) 256) x bound_table small)

table_back : (x : ℕ) → x < 256 → undivided (get_or crc8_table x 0) ≡ x
table_back x small =
    (==_iff _ x).0
      (every_under_at 256 (λ x. undivided (get_or crc8_table x 0) == x) x undivided_table small)

pub crc8_table_injective :
    (x y : ℕ) → x < 256 → y < 256 → get_or crc8_table x 0 ≡ get_or crc8_table y 0 → x ≡ y
crc8_table_injective x y hx hy e = sym (table_back x hx) ∙ ap undivided e ∙ table_back y hy
