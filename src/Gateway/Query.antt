-- ===== src/Gateway/Query.antt =====
-- The loops of `Gateway::onRequest` over the arguments of a query and over the parameters of an answer.
pub mod RoundTrip
pub mod Inverse
use huasi.Prelude.{
  ℕ, Option, none, some, Bool, true, false, List, [], ◌∷◌, ◌++◌, Bytes, ◌==◌, if◌then◌else◌,
  is_empty,
}
use huasi.Prelude.SortedMap.{bytes_key, insert}
use huasi.Parameters.{Parameters}
use huasi.Gateway.Codec.{decode, encode}

abbrev before_first : ℕ → List Bytes → List Bytes
before_first c [] = (c ∷ []) ∷ []
before_first c (a ∷ as') = (c ∷ a) ∷ as'

-- The arguments between the ampersands. Behind the last one nothing follows: no argument if the query
-- ends there.
pub arguments : Bytes → List Bytes
arguments [] = []
arguments (c ∷ query) = if c == b'&' then [] ∷ arguments query else before_first c (arguments query)

abbrev in_key : ℕ → Option (Bytes × Bytes) → Option (Bytes × Bytes)
in_key c none = none
in_key c (some (key, value)) = some (c ∷ key, value)

-- An argument is split at its first equals sign.
unfoldable pub key_value : Bytes → Option (Bytes × Bytes)
key_value [] = none
key_value (c ∷ argument) = if c == b'=' then some ([], argument) else in_key c (key_value argument)

-- The key is taken as it is, and the value is decoded. An argument with no equals sign is left out.
abbrev add_argument : Parameters → Option (Bytes × Bytes) → Parameters
add_argument parameters none = parameters
add_argument parameters (some (key, value)) = insert key (decode value) parameters

pub parse_arguments : List Bytes → Parameters → Parameters
parse_arguments [] parameters = parameters
parse_arguments (argument ∷ rest) parameters =
    parse_arguments rest (add_argument parameters (key_value argument))

unfoldable pub parse_query : Bytes → Parameters
unfolding parse_arguments arguments
parse_query query = parse_arguments (arguments query) []

-- The body of an answer, parameter by parameter.
pub body_from : Bytes → Parameters → Bytes
body_from text [] = text
body_from text ((key, value) ∷ rest) =
    body_from ((if is_empty text then text else text ++ b'&' ∷ []) ++ (key ++ b'=' ∷ encode value))
      rest

unfoldable pub body : Parameters → Bytes
unfolding body_from
body parameters = body_from [] parameters
