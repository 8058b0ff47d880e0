-- ===== src/Gateway/Connection/Calls.antt =====
-- What the calls of a parser for requests do.
use huasi.Prelude.{
  ℕ, ◌≡◌, refl, sym, ap, ◌∙◌, Bool, List, [], ◌∷◌, ◌++◌, map, append_assoc, append-nil, Bytes, All,
}
use huasi.Http.Url.{ParsedUrl}
use huasi.Http.Response.{Headers}
use huasi.Http.Headers.{
  MovedFrom, HttpState, new_state, on_url, on_header_field, on_header_value, on_headers_complete,
}
use huasi.Http.Headers.Chunks.{
  Pieces, joined, add_all, FreshIn, LeavesEmpty, feed_url, feed_name, feed_value, feed_header,
  feed_headers,
}
use huasi.Http.Headers.Chunks.Whole.{on_headers_complete_whole}
use huasi.Gateway.Handler.{NetworkOps, Method, on_request}
use huasi.Gateway.Connection.{
  Callback, url, header_field, header_value, body_part, headers_complete, message_complete,
  called_back, called_back_all,
}

-- A request as it lies on the connection, its parts in pieces.
pub record ClientRequest : Type 0 where
  pub url_pieces : List Bytes
  pub headers : List Pieces
  pub method : Method
  pub keep_alive : Bool
  pub body_parts : List Bytes

abbrev pub header_calls : Pieces → List Callback
header_calls h =
    map header_field (h.name_first ∷ h.name_more) ++ map header_value (h.value_first ∷ h.value_more)

abbrev pub headers_calls : List Pieces → List Callback
headers_calls [] = []
headers_calls (h ∷ hs) = header_calls h ++ headers_calls hs

-- The calls that a parser makes for a request.
abbrev pub calls : ClientRequest → List Callback
calls r =
    map url r.url_pieces
    ++ (headers_calls r.headers
        ++ (headers_complete r.method r.keep_alive
            ∷ (map body_part r.body_parts ++ message_complete ∷ [])))

abbrev pub calls_all : List ClientRequest → List Callback
calls_all [] = []
calls_all (r ∷ rs) = calls r ++ calls_all rs

module _ {S : Type 0} (ops : NetworkOps S) (parse_url : Bytes → ParsedUrl) (atoi : Bytes → ℕ) where
  -- The gateway's answers to requests, one after the other.
  abbrev pub serve : List ClientRequest → S → S × List Bytes
  serve [] s = (s, [])
  serve (r ∷ rs) s =
      let (s', sent) =
        on_request ops parse_url atoi r.keep_alive r.method (joined r.url_pieces) s in
      let (s'', sent') = serve rs s' in (s'', sent ++ sent')

module _ {S : Type 0} (ops : NetworkOps S) (parse_url : Bytes → ParsedUrl) (atoi : Bytes → ℕ)
    (m : MovedFrom) where
  abbrev pub run : List Callback → HttpState × S → (HttpState × S) × List Bytes
  run = called_back_all ops parse_url atoi m

  pub run-append :
      (xs ys : List Callback) (c : HttpState × S)
      → run (xs ++ ys) c ≡ ((run ys (run xs c).0).0, (run xs c).1 ++ (run ys (run xs c).0).1)
  unfolding called_back_all
  run-append [] ys c = refl
  run-append (x ∷ xs) ys c =
      let (c', sent) = called_back ops parse_url atoi m x c in
      ap (λ (r : (HttpState × S) × List Bytes). (r.0, sent ++ r.1)) (run-append xs ys c')
      ∙ ap (λ l. ((run ys (run xs c').0).0, l))
          (sym (append_assoc sent (run xs c').1 (run ys (run xs c').0).1))

  -- Two runs, one after the other, by their results.
  followed :
      (xs ys : List Callback) (c c' c'' : HttpState × S) (sent sent' : List Bytes)
      → run xs c ≡ (c', sent)
      → run ys c' ≡ (c'', sent')
      → run (xs ++ ys) c ≡ (c'', sent ++ sent')
  followed xs ys c c' c'' sent sent' first second =
      run-append xs ys c
      ∙ ap (λ (r : (HttpState × S) × List Bytes). ((run ys r.0).0, r.1 ++ (run ys r.0).1)) first
      ∙ ap (λ (r : (HttpState × S) × List Bytes). (r.0, sent ++ r.1)) second

  url_calls :
      (cs : List Bytes) (h : HttpState) (s : S)
      → run (map url cs) (h, s) ≡ ((feed_url m cs h, s), [])
  unfolding called_back_all called_back feed_url
  url_calls [] h s = refl
  url_calls (c ∷ cs) h s = url_calls cs (on_url m c h) s

  name_calls :
      (cs : List Bytes) (h : HttpState) (s : S)
      → run (map header_field cs) (h, s) ≡ ((feed_name m cs h, s), [])
  unfolding called_back_all called_back feed_name
  name_calls [] h s = refl
  name_calls (c ∷ cs) h s = name_calls cs (on_header_field m c h) s

  value_calls :
      (cs : List Bytes) (h : HttpState) (s : S)
      → run (map header_value cs) (h, s) ≡ ((feed_value m cs h, s), [])
  unfolding called_back_all called_back feed_value
  value_calls [] h s = refl
  value_calls (c ∷ cs) h s = value_calls cs (on_header_value m c h) s

  header_calls_lem :
      (x : Pieces) (h : HttpState) (s : S)
      → run (header_calls x) (h, s) ≡ ((feed_header m x h, s), [])
  unfolding feed_header
  header_calls_lem x h s =
      let names = x.name_first ∷ x.name_more in
      let values = x.value_first ∷ x.value_more in
      followed (map header_field names) (map header_value values) (h, s) (feed_name m names h, s)
        (feed_value m values (feed_name m names h), s) [] [] (name_calls names h s)
        (value_calls values (feed_name m names h) s)

  headers_calls_lem :
      (hs : List Pieces) (h : HttpState) (s : S)
      → run (headers_calls hs) (h, s) ≡ ((feed_headers m hs h, s), [])
  unfolding called_back_all feed_headers
  headers_calls_lem [] h s = refl
  headers_calls_lem (x ∷ hs) h s =
      followed (header_calls x) (headers_calls hs) (h, s) (feed_header m x h, s)
        (feed_headers m hs (feed_header m x h), s) [] [] (header_calls_lem x h s)
        (headers_calls_lem hs (feed_header m x h) s)

  body_calls :
      (parts : List Bytes) (c : HttpState × S)
      → run (map body_part parts ++ message_complete ∷ []) c ≡ (c, [])
  unfolding called_back_all called_back
  body_calls [] c = refl
  body_calls (part ∷ parts) c = body_calls parts c

  -- The end of the headers, and all behind it.
  complete_calls :
      (method : Method) (keep_alive : Bool) (parts : List Bytes) (t t' : HttpState) (path : Bytes)
      (headers : Headers) (s : S)
      → on_headers_complete m t ≡ (t', path, headers)
      → let (s', sent) = on_request ops parse_url atoi keep_alive method path s in
        run
          (headers_complete method keep_alive ∷ (map body_part parts ++ message_complete ∷ []))
          (t, s)
        ≡ ((t', s'), sent)
  unfolding called_back_all called_back
  complete_calls method keep_alive parts t t' path headers s e =
      let rest = map body_part parts ++ message_complete ∷ [] in
      let (s', sent) = on_request ops parse_url atoi keep_alive method path s in
      ap
        (λ (x : HttpState × Bytes × Headers).
          let (u, out) = on_request ops parse_url atoi keep_alive method x.1 s in
          let (c, out') = run rest (x.0, u) in (c, out ++ out'))
        e
      ∙ ap (λ (r : (HttpState × S) × List Bytes). (r.0, sent ++ r.1)) (body_calls parts (t', s'))
      ∙ ap (λ l. ((t', s'), l)) (append-nil sent)

  module _ (empty : LeavesEmpty m) where
    calls_lem :
        (r : ClientRequest) (s : S)
        → FreshIn [] r.headers
        → let (s', sent) =
            on_request ops parse_url atoi r.keep_alive r.method (joined r.url_pieces) s in
          run (calls r) (new_state, s) ≡ ((new_state, s'), sent)
    calls_lem r s fresh =
        let named = feed_url m r.url_pieces new_state in
        let headed = feed_headers m r.headers named in
        let (s', sent) =
          on_request ops parse_url atoi r.keep_alive r.method (joined r.url_pieces) s in
        let last =
          headers_complete r.method r.keep_alive
          ∷ (map body_part r.body_parts ++ message_complete ∷ []) in
        followed (map url r.url_pieces) (headers_calls r.headers ++ last) (new_state, s) (named, s)
          (new_state, s') [] sent (url_calls r.url_pieces new_state s)
          (followed (headers_calls r.headers) last (named, s) (headed, s) (new_state, s') [] sent
            (headers_calls_lem r.headers named s)
            (complete_calls r.method r.keep_alive r.body_parts headed new_state
              (joined r.url_pieces) (add_all r.headers []) s
              (on_headers_complete_whole m empty r.url_pieces r.headers fresh)))

    pub calls_all_lem :
        (rs : List ClientRequest) (s : S)
        → All (λ r. FreshIn [] r.headers) rs
        → run (calls_all rs) (new_state, s)
          ≡ ((new_state, (serve ops parse_url atoi rs s).0), (serve ops parse_url atoi rs s).1)
    unfolding called_back_all
    calls_all_lem [] s fresh = refl
    calls_all_lem (r ∷ rs) s (first, others) =
        let (s', sent) =
          on_request ops parse_url atoi r.keep_alive r.method (joined r.url_pieces) s in
        let (s'', sent') = serve ops parse_url atoi rs s' in
        followed (calls r) (calls_all rs) (new_state, s) (new_state, s') (new_state, s'') sent sent'
          (calls_lem r s first) (calls_all_lem rs s' others)
