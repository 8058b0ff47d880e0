-- ===== src/Parameters.antt =====
-- src/Parameters.hpp and src/Parameters.cpp: the parameters of a request or of a node, a map of
-- names to texts. An `optional` is an `Option`; its `*` on an empty value, which is 0, stands where
-- it is read.
pub mod Laws
use huasi.Prelude.{
  ℕ, Bool, true, false, Option, none, some, Bytes, codes, bytes_eq, ltb, if◌then◌else◌, ◌>>=◌,
  length,
}
use huasi.Prelude.SortedMap.{SortedMap, bytes_key, lookup, insert}
use huasi.Cast.{to_integer, to_text, byte_modulus, word_modulus}

abbrev pub Parameters : Type 0
Parameters = SortedMap Bytes Bytes

unfoldable pub contains : Parameters → Bytes → Bool
contains parameters name = elim (lookup name parameters) [ none ↦ false | some v ↦ true ]

unfoldable pub get_state : Parameters → Bytes → Option Bool
get_state parameters name = do v ← lookup name parameters; some (bytes_eq v (codes "on"))

unfoldable pub set_state : Bytes → Bool → Parameters → Parameters
set_state name value parameters = insert name (if value then codes "off" else codes "on") parameters

unfoldable pub get_byte : Parameters → Bytes → Option ℕ
get_byte parameters name = lookup name parameters >>= (to_integer byte_modulus)

-- Texts of more than two characters are refused.
abbrev percentage : Bytes → Option ℕ
percentage v = if ltb 2 (length v) then none else to_integer byte_modulus v

unfoldable pub get_percentage : Parameters → Bytes → Option ℕ
get_percentage parameters name = lookup name parameters >>= percentage

unfoldable pub set_byte : Bytes → ℕ → Parameters → Parameters
set_byte name value parameters = insert name (to_text value) parameters

unfoldable pub get_word : Parameters → Bytes → Option ℕ
get_word parameters name = lookup name parameters >>= (to_integer word_modulus)

unfoldable pub set_word : Bytes → ℕ → Parameters → Parameters
set_word name value parameters = insert name (to_text value) parameters
