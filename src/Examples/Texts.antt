-- ===== src/Examples/Texts.antt =====
-- Numbers and parameters as text.
use huasi.Prelude.{◌≡◌, some, arith}
use huasi.Cast.{to_integer, to_text, byte_modulus}
use huasi.Cast.RoundTrip.{to_integer-to_text}
use huasi.Cast.Refusals.{to_integer-wraps}

to_integer-to_text_example : to_integer 256 (to_text 107) ≡ some 107
to_integer-to_text_example = to_integer-to_text 256 107 (omega arith) (omega arith)

to_integer-wraps_example : to_integer byte_modulus (to_text 300) ≡ some 44
to_integer-wraps_example = to_integer-wraps 300 (omega arith) (omega arith)
