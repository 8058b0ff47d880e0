-- ===== src/Http/Url/Origin.antt =====
-- The origin form of a URL.
use huasi.Prelude.{
  ℕ, ◌≤◌, ◌<◌, ◌≡◌, ◌∷◌, ◌++◌, arith, Bytes, length, length-append, take, take-append_front,
  drop-append_front,
}
use huasi.Http.Url.{Url, uf_path, uf_query, get_origin}

take_front : (n : ℕ) (xs ys : Bytes) → n ≡ length xs → take n (xs ++ ys) ≡ xs
take_front n xs ys e = rw e (take-append_front xs ys)

-- Where a path and a query of 1 to 32768 characters stand side by side with a question mark between
-- them, the origin form is the two with their question mark.
pub get_origin_query :
    (before path query after : Bytes) (u : Url)
    → u.url ≡ before ++ ((path ++ b'?' ∷ query) ++ after)
    → (u.parsed.field_data uf_path).off ≡ length before
    → (u.parsed.field_data uf_path).len ≡ length path
    → (u.parsed.field_data uf_query).len ≡ length query
    → 0 < length query
    → length query ≤ 32768
    → get_origin u ≡ path ++ b'?' ∷ query
unfolding get_origin
get_origin_query before path query after u e off plen qlen low high =
    rw (e, off, drop-append_front before ((path ++ b'?' ∷ query) ++ after))
      (take_front _ (path ++ b'?' ∷ query) after (omega (arith, length-append path (b'?' ∷ query))))
