-- ===== src/Http/Headers/Chunks/Whole.antt =====
-- A whole request in pieces: what `onRequest` gets.
use huasi.Prelude.{◌≡◌, refl, ◌∙◌, ap, true, false, none, List, [], ◌∷◌, ◌++◌, arith, Bytes}
use huasi.Prelude.SortedMap.{bytes_key, lookup, insert}
use huasi.Http.Response.{Headers}
use huasi.Http.Headers.{MovedFrom, HttpState, new_state, move_header, on_headers_complete}
use huasi.Http.Headers.Chunks.{
  Pieces, joined, name_of, value_of, add_all, FreshIn, LeavesEmpty, feed_url, feed_url-joined,
  feed_header, feed_headers, feed_header_lem,
}

module _ (m : MovedFrom) (empty : LeavesEmpty m) where
  move_header_fresh :
      (s : HttpState)
      → s.value_valid ≡ true
      → lookup s.field s.headers ≡ none
      → move_header m s ≡ record s {
        field = [];
        value = [];
        value_valid = false;
        headers = insert s.field s.value s.headers;
      }
  unfolding move_header
  move_header_fresh s on fresh =
      ground (arith, empty.string_empty s.field, empty.string_empty s.value)

  feed_headers_pending :
      (hs : List Pieces) (s : HttpState)
      → s.value_valid ≡ true
      → lookup s.field s.headers ≡ none
      → FreshIn (insert s.field s.value s.headers) hs
      → move_header m (feed_headers m hs s) ≡ record s {
        field = [];
        value = [];
        value_valid = false;
        headers = add_all hs (insert s.field s.value s.headers);
      }
  unfolding feed_headers
  feed_headers_pending [] s on fresh rest = move_header_fresh s on fresh
  feed_headers_pending (h ∷ hs) s on fresh (new, rest) =
      let s' : HttpState = record s {
        field = name_of h;
        value = value_of h;
        value_valid = true;
        headers = insert s.field s.value s.headers;
      } in
      ap (λ u. move_header m (feed_headers m hs u))
        (feed_header_lem m h s
          ∙ ap
              (λ (t : HttpState). record t {
                field = t.field ++ name_of h;
                value = t.value ++ value_of h;
                value_valid = true;
              })
              (move_header_fresh s on fresh))
      ∙ feed_headers_pending hs s' refl new rest

  -- What `onRequest` gets, and what is left, once the last header is in the map.
  handed : HttpState → HttpState × Bytes × Headers
  handed t = (
    record t { url_or_status = m.left_string t.url_or_status; headers = m.left_headers t.headers },
    t.url_or_status,
    t.headers,
  )

  handed_over :
      (t : HttpState)
      → t.field ≡ []
      → t.value ≡ []
      → t.value_valid ≡ false
      → handed t ≡ (new_state, t.url_or_status, t.headers)
  unfolding handed new_state
  handed_over t no_field no_value off =
      ground (arith, empty.string_empty t.url_or_status, empty.headers_empty t.headers)

  -- However the parser cuts the url and the headers into pieces, the request gets the whole url
  -- and each header whole, and the channel is as new afterwards, if no name comes twice and moved
  -- strings and maps are left empty.
  pub on_headers_complete_whole :
      (url : List Bytes) (hs : List Pieces)
      → FreshIn [] hs
      → on_headers_complete m (feed_headers m hs (feed_url m url new_state))
        ≡ (new_state, joined url, add_all hs [])
  unfolding feed_headers on_headers_complete new_state handed
  on_headers_complete_whole url [] fresh =
      ap (on_headers_complete m) (feed_url-joined m url new_state)
      ∙ handed_over (record new_state { url_or_status = joined url }) refl refl refl
  on_headers_complete_whole url (h ∷ hs) (new, rest) =
      let s0 : HttpState = record new_state { url_or_status = joined url } in
      let s1 : HttpState = record s0 {
        field = name_of h;
        value = value_of h;
        value_valid = true;
      } in
      ap (λ u. on_headers_complete m (feed_headers m hs (feed_header m h u)))
        (feed_url-joined m url new_state)
      ∙ ap (λ u. on_headers_complete m (feed_headers m hs u)) (feed_header_lem m h s0)
      ∙ ap handed (feed_headers_pending hs s1 refl new rest)
      ∙ handed_over _ refl refl refl
