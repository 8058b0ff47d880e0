-- ===== src/Parameters/Laws.antt =====
-- What is set and what is read back.
use huasi.Prelude.{
  ℕ, zero, suc, [], ◌<◌, ◌≡◌, refl, Bool, true, false, not, ◌&&◌, none, some, arith, Bytes, codes,
  bytes_eq, ltb, leb, ◌==◌, if◌then◌else◌, length, every_under, every_under_at,
}
use huasi.Prelude.SortedMap.{bytes_key, lookup-insert_self}
use huasi.Cast.{to_integer, to_text, print}
use huasi.Cast.RoundTrip.{to_integer-to_text}
use huasi.Cast.Refusals.{to_integer-leading_zero}
use huasi.Parameters.{
  Parameters, get_state, set_state, get_byte, set_byte, get_percentage, get_word, set_word,
}

-- A state that is set is read back as its opposite.
pub get_state-set_state :
    (name : Bytes) (value : Bool) (p : Parameters)
    → get_state (set_state name value p) name ≡ some (not value)
unfolding get_state set_state bytes_eq
get_state-set_state name true p = rw (lookup-insert_self name (codes "off") p)
get_state-set_state name false p = rw (lookup-insert_self name (codes "on") p)

-- A number that is set is read back at the width of its type, but zero is refused.
to_integer_printed :
    (modulus value : ℕ)
    → value < modulus
    → to_integer modulus (to_text value) ≡ (if value == 0 then none else some value)
to_integer_printed modulus zero h = unfold to_text print in to_integer-leading_zero modulus [] h
to_integer_printed modulus (suc n) h = ground (arith, to_integer-to_text modulus (suc n))

-- A byte from 1 to 255 that is set is read back as it is; zero is refused when it is read.
pub get_byte-set_byte :
    (name : Bytes) (value : ℕ) (p : Parameters)
    → value < 256
    → get_byte (set_byte name value p) name ≡ (if value == 0 then none else some value)
unfolding get_byte set_byte
get_byte-set_byte name value p h =
    rw (lookup-insert_self name (to_text value) p) (to_integer_printed 256 value h)

pub get_word-set_word :
    (name : Bytes) (value : ℕ) (p : Parameters)
    → value < 65536
    → get_word (set_word name value p) name ≡ (if value == 0 then none else some value)
unfolding get_word set_word
get_word-set_word name value p h =
    rw (lookup-insert_self name (to_text value) p) (to_integer_printed 65536 value h)

two_digits :
    every_under 256
      (λ v. if leb v 99 then leb (length (to_text v)) 2 else ltb 2 (length (to_text v)))
    ≡ true
unfolding every_under to_text
two_digits = refl

-- A byte that is set is read back as a percentage if it is from 1 to 99, and is refused else.
pub get_percentage-set_byte :
    (name : Bytes) (value : ℕ) (p : Parameters)
    → value < 256
    → get_percentage (set_byte name value p) name
      ≡ (if ltb 0 value && leb value 99 then some value else none)
unfolding get_percentage set_byte
get_percentage-set_byte name value p h = rw (lookup-insert_self name (to_text value) p) (
    ground (
      arith,
      every_under_at 256
          (λ v. if leb v 99 then leb (length (to_text v)) 2 else ltb 2 (length (to_text v))) value
          two_digits h,
      to_integer_printed 256 value h,
    ))
