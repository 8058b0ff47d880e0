-- ===== src/Gateway/Query/RoundTrip.antt =====
-- The body of an answer, read as a query.
use huasi.Prelude.{
  ℕ, ◌≡◌, ◌≢◌, refl, sym, ◌∙◌, ap, Option, none, some, false, [], ◌∷◌, ◌++◌, append_assoc,
  append-nil, arith, Bytes, is_empty, map, All, All-append, IsByte, ==_ne, bytes_eq_iff,
}
use huasi.Prelude.SortedMap.{bytes_key, lookup, insert, lookup-insert}
use huasi.Parameters.{Parameters}
use huasi.Gateway.Codec.{encode}
use huasi.Gateway.Codec.RoundTrip.{decode-encode, IsPlain, encode-IsPlain}
use huasi.Gateway.Query.{
  arguments, add_argument, key_value, parse_arguments, parse_query, body_from, body,
}

entry : Bytes × Bytes → Bytes
entry (key, value) = key ++ b'=' ∷ encode value

-- The entries behind the first one.
tails : Parameters → Bytes
tails [] = []
tails (e ∷ rest) = b'&' ∷ (entry e ++ tails rest)

-- The names hold no separator, and the values are bytes.
abbrev pub IsClean : Bytes × Bytes → Type 0
IsClean (key, value) = All IsPlain key × All IsByte value

-- No name stands twice, as in every std::map.
abbrev pub DistinctKeys : Parameters → Type 0
DistinctKeys [] = Unit {0}
DistinctKeys ((key, value) ∷ rest) = (lookup key rest ≡ none) × DistinctKeys rest

arguments_first :
    (xs rest : Bytes) → All (λ c. c ≢ b'&') xs → arguments (xs ++ b'&' ∷ rest) ≡ xs ∷ arguments rest
unfolding arguments
arguments_first [] rest h = refl
arguments_first (c ∷ xs) rest (h, hs) = rw (==_ne c b'&' h, arguments_first xs rest hs)

arguments_last :
    (c : ℕ) (xs : Bytes) → All (λ c. c ≢ b'&') (c ∷ xs) → arguments (c ∷ xs) ≡ (c ∷ xs) ∷ []
unfolding arguments
arguments_last c [] (h, hs) = rw (==_ne c b'&' h)
arguments_last c (d ∷ xs) (h, hs) = rw (==_ne c b'&' h, arguments_last d xs hs)

key_value-entry :
    (key value : Bytes) → All IsPlain key → key_value (key ++ b'=' ∷ value) ≡ some (key, value)
unfolding key_value
key_value-entry [] value h = refl
key_value-entry (c ∷ key) value ((_, differ), h) =
    rw (==_ne c b'=' differ, key_value-entry key value h)

no_ampersand : (xs : Bytes) → All IsPlain xs → All (λ c. c ≢ b'&') xs
no_ampersand [] h = tt
no_ampersand (c ∷ xs) ((differ, _), h) = (differ, no_ampersand xs h)

entry_clean : (e : Bytes × Bytes) → IsClean e → All (λ c. c ≢ b'&') (entry e)
unfolding entry
entry_clean (key, value) (hk, hv) =
    All-append _ key (b'=' ∷ encode value) (no_ampersand key hk)
      (omega arith, no_ampersand (encode value) (encode-IsPlain value hv))

arguments_whole : (xs : Bytes) → xs ≢ [] → All (λ c. c ≢ b'&') xs → arguments xs ≡ xs ∷ []
arguments_whole [] filled h = absurd (filled refl)
arguments_whole (c ∷ xs) filled h = arguments_last c xs h

entry-ne-nil : (e : Bytes × Bytes) → entry e ≢ []
unfolding entry
entry-ne-nil ([], value) h = cc
entry-ne-nil (c ∷ key, value) h = cc

arguments-tails :
    (e : Bytes × Bytes) (rest : Parameters)
    → All IsClean (e ∷ rest)
    → arguments (entry e ++ tails rest) ≡ entry e ∷ map entry rest
unfolding tails
arguments-tails e [] (h, hs) =
    rw (append-nil (entry e)) (arguments_whole (entry e) (entry-ne-nil e) (entry_clean e h))
arguments-tails e (e' ∷ rest) (h, hs) =
    arguments_first (entry e) (entry e' ++ tails rest) (entry_clean e h)
    ∙ ap (◌∷◌ (entry e)) (arguments-tails e' rest hs)

is_empty-append : (xs ys : Bytes) → is_empty xs ≡ false → is_empty (xs ++ ys) ≡ false
is_empty-append [] ys h = cc
is_empty-append (x ∷ xs) ys h = refl

is_empty-entry : (e : Bytes × Bytes) → is_empty (entry e) ≡ false
unfolding entry
is_empty-entry ([], value) = refl
is_empty-entry (c ∷ key, value) = refl

body_from-tails :
    (text : Bytes) (rest : Parameters)
    → is_empty text ≡ false
    → body_from text rest ≡ text ++ tails rest
unfolding body_from tails entry
body_from-tails text [] filled = sym (append-nil text)
body_from-tails text ((key, value) ∷ rest) filled = rw filled (
    body_from-tails ((text ++ b'&' ∷ []) ++ (key ++ b'=' ∷ encode value)) rest
      (is_empty-append _ _ (is_empty-append text _ filled))
    ∙ simp append_assoc)

body-tails : (e : Bytes × Bytes) (rest : Parameters) → body (e ∷ rest) ≡ entry e ++ tails rest
unfolding body entry
body-tails (key, value) rest =
    body_from-tails (entry (key, value)) rest (is_empty-entry (key, value))

arguments-body : (m : Parameters) → All IsClean m → arguments (body m) ≡ map entry m
arguments-body [] h = unfold arguments body in refl
arguments-body (e ∷ rest) h = rw (body-tails e rest) (arguments-tails e rest h)

add_entry :
    (key value : Bytes) (acc : Parameters)
    → IsClean (key, value)
    → add_argument acc (key_value (entry (key, value))) ≡ insert key value acc
unfolding entry
add_entry key value acc (hk, hv) =
    rw (key_value-entry key (encode value) hk, decode-encode value hv)

-- Reading entries over a map.
lookup-parse_arguments :
    (j : Bytes) (m acc : Parameters)
    → All IsClean m
    → DistinctKeys m
    → lookup j (parse_arguments (map entry m) acc)
      ≡ elim (lookup j m) [ some v ↦ some v | none ↦ lookup j acc ]
unfolding parse_arguments lookup
lookup-parse_arguments j [] acc h distinct = refl
lookup-parse_arguments j ((key, value) ∷ rest) acc ((hk, hv), hs) (fresh, distinct) =
    ap (λ a. lookup j (parse_arguments (map entry rest) a)) (add_entry key value acc (hk, hv))
    ∙ ground (
      arith,
      lookup-parse_arguments j rest (insert key value acc) hs distinct,
      lookup-insert key j value acc,
      bytes_eq_iff key j,
    )

or_none : (o : Option Bytes) → (elim o [ some v ↦ some v | none ↦ none ]) ≡ o
or_none none = refl
or_none (some v) = refl

-- The body of an answer, sent back as a query, gives every parameter its value again, if the names
-- hold no separator and are distinct.
pub lookup-parse_query-body :
    (j : Bytes) (m : Parameters)
    → All IsClean m
    → DistinctKeys m
    → lookup j (parse_query (body m)) ≡ lookup j m
unfolding parse_query
lookup-parse_query-body j m h distinct =
    rw (arguments-body m h)
      (lookup-parse_arguments j m [] h distinct ∙ (unfold lookup in or_none (lookup j m)))
