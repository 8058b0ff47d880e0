-- ===== src/Gateway/Query/Inverse.antt =====
-- The parameters that a query gives, in their order.
use huasi.Prelude.{
  ℕ, ◌≡◌, ◌≢◌, refl, ◌++◌, if◌then◌else◌, is_empty, Option, none, some, List, [], ◌∷◌, Bytes, All,
}
use huasi.Prelude.SortedMap.{bytes_key}
use huasi.Prelude.SortedMap.Order.{
  bytes_order, IsSorted, insert-IsSorted, lookup-Above, IsSorted-ext,
}
use huasi.Parameters.{Parameters}
use huasi.Gateway.Codec.{decode, encode}
use huasi.Gateway.Query.{
  arguments, key_value, add_argument, parse_arguments, parse_query, body_from, body,
}
use huasi.Gateway.Query.RoundTrip.{IsClean, DistinctKeys, lookup-parse_query-body}

add_argument-IsSorted :
    (p : Parameters) (a : Option (Bytes × Bytes)) → IsSorted p → IsSorted (add_argument p a)
add_argument-IsSorted p none s = s
add_argument-IsSorted p (some (key, value)) s = insert-IsSorted key (decode value) p s

parse_arguments-IsSorted :
    (args : List Bytes) (p : Parameters) → IsSorted p → IsSorted (parse_arguments args p)
unfolding parse_arguments
parse_arguments-IsSorted [] p s = s
parse_arguments-IsSorted (a ∷ args) p s =
    parse_arguments-IsSorted args (add_argument p (key_value a))
      (add_argument-IsSorted p (key_value a) s)

-- Whatever the query, its parameters are in the order of their names.
pub parse_query-IsSorted : (query : Bytes) → IsSorted (parse_query query)
unfolding parse_query
parse_query-IsSorted query = parse_arguments-IsSorted (arguments query) [] tt

pub IsSorted-DistinctKeys : (m : Parameters) → IsSorted m → DistinctKeys m
IsSorted-DistinctKeys [] s = tt
IsSorted-DistinctKeys ((key, value) ∷ m) (above, s) =
    (lookup-Above key m above, IsSorted-DistinctKeys m s)

-- The body of an answer, sent back as a query, gives the same parameters again, if they are in the
-- order of their names, the names hold no separator, and the values are bytes.
pub parse_query-body : (m : Parameters) → All IsClean m → IsSorted m → parse_query (body m) ≡ m
parse_query-body m clean s =
    IsSorted-ext (parse_query (body m)) m (parse_query-IsSorted (body m)) s
      (λ name. lookup-parse_query-body name m clean (IsSorted-DistinctKeys m s))

append-ne_nil : (xs : Bytes) (y : ℕ) (ys : Bytes) → xs ++ y ∷ ys ≢ []
append-ne_nil [] y ys e = cc
append-ne_nil (x ∷ xs) y ys e = cc

add_value-ne_nil : (front key value : Bytes) → front ++ (key ++ b'=' ∷ value) ≢ []
add_value-ne_nil [] key value = append-ne_nil key b'=' value
add_value-ne_nil (x ∷ front) key value = λ e. cc

body_from-ne_nil : (text : Bytes) (m : Parameters) → text ≢ [] → body_from text m ≢ []
unfolding body_from
body_from-ne_nil text [] some_text = some_text
body_from-ne_nil text ((key, value) ∷ m) some_text =
    let front = if is_empty text then text else text ++ b'&' ∷ [] in
    body_from-ne_nil (front ++ (key ++ b'=' ∷ encode value)) m
      (add_value-ne_nil front key (encode value))

-- A body that lists some parameter is not empty.
pub body-ne_nil : (m : Parameters) → m ≢ [] → body m ≢ []
unfolding body body_from
body-ne_nil [] some_left = absurd (some_left refl)
body-ne_nil ((key, value) ∷ m) some_left =
    body_from-ne_nil _ m (add_value-ne_nil [] key (encode value))
