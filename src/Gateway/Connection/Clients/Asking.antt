-- ===== src/Gateway/Connection/Clients/Asking.antt =====
-- A connection apart from the network: the requests that its bytes make, and their answers.
use huasi.Prelude.{
  ℕ, ◌≡◌, refl, sym, ◌∙◌, ap, Bool, List, [], ◌∷◌, ◌++◌, append_assoc, append-nil, Bytes,
}
use huasi.Http.Url.{ParsedUrl}
use huasi.Http.Headers.{
  MovedFrom, HttpState, on_url, on_header_field, on_header_value, on_headers_complete,
}
use huasi.Gateway.Handler.{NetworkOps, Method, on_request}
use huasi.Gateway.Connection.{
  Callback, url, header_field, header_value, status, body_part, headers_complete, message_complete,
  no_data, called_back, called_back_all,
}

-- What a connection asks of the gateway.
pub record Asked : Type 0 where
  pub keep_alive : Bool
  pub method : Method
  pub path : Bytes

module _ (m : MovedFrom) where
  abbrev pub asked_by : Callback → HttpState → HttpState × List Asked
  asked_by (url text) h = (on_url m text h, [])
  asked_by (header_field text) h = (on_header_field m text h, [])
  asked_by (header_value text) h = (on_header_value m text h, [])
  asked_by (status text) h = (h, [])
  asked_by (body_part part) h = (h, [])
  asked_by (headers_complete method keep_alive) h =
      let (h', path, headers) = on_headers_complete m h in
      (h', record { keep_alive = keep_alive; method = method; path = path } ∷ [])
  asked_by message_complete h = (h, [])
  asked_by no_data h = (h, [])

  abbrev pub asked_by_all : List Callback → HttpState → HttpState × List Asked
  asked_by_all [] h = (h, [])
  asked_by_all (x ∷ xs) h =
      let (h', asked) = asked_by x h in
      let (h'', asked') = asked_by_all xs h' in (h'', asked ++ asked')

module _ {S : Type 0} (ops : NetworkOps S) (parse_url : Bytes → ParsedUrl) (atoi : Bytes → ℕ) where
  -- The answers of the gateway, one request after the other.
  abbrev pub answers : List Asked → S → S × List Bytes
  answers [] s = (s, [])
  answers (a ∷ rest) s =
      let (s', sent) = on_request ops parse_url atoi a.keep_alive a.method a.path s in
      let (s'', sent') = answers rest s' in (s'', sent ++ sent')

  pub answers-append :
      (xs ys : List Asked) (s : S)
      → answers (xs ++ ys) s
        ≡ ((answers ys (answers xs s).0).0, (answers xs s).1 ++ (answers ys (answers xs s).0).1)
  answers-append [] ys s = refl
  answers-append (a ∷ xs) ys s =
      let (s', sent) = on_request ops parse_url atoi a.keep_alive a.method a.path s in
      ap (λ (r : S × List Bytes). (r.0, sent ++ r.1)) (answers-append xs ys s')
      ∙ ap (λ l. ((answers ys (answers xs s').0).0, l))
          (sym (append_assoc sent (answers xs s').1 (answers ys (answers xs s').0).1))

  module _ (m : MovedFrom) where
    called_back_lem :
        (x : Callback) (h : HttpState) (s : S)
        → called_back ops parse_url atoi m x (h, s)
          ≡ let (h', asked) = asked_by m x h in let (s', sent) = answers asked s in ((h', s'), sent)
    unfolding called_back
    called_back_lem (url text) h s = refl
    called_back_lem (header_field text) h s = refl
    called_back_lem (header_value text) h s = refl
    called_back_lem (status text) h s = refl
    called_back_lem (body_part part) h s = refl
    called_back_lem (headers_complete method keep_alive) h s =
        let (h', path, headers) = on_headers_complete m h in
        let (s', sent) = on_request ops parse_url atoi keep_alive method path s in
        ap (λ l. ((h', s'), l)) (sym (append-nil sent))
    called_back_lem message_complete h s = refl
    called_back_lem no_data h s = refl

    -- The calls of a parser are the requests that they make, answered in their order.
    pub called_back_all_lem :
        (xs : List Callback) (h : HttpState) (s : S)
        → called_back_all ops parse_url atoi m xs (h, s)
          ≡ let (h', asked) = asked_by_all m xs h in
            let (s', sent) = answers asked s in ((h', s'), sent)
    unfolding called_back_all
    called_back_all_lem [] h s = refl
    called_back_all_lem (x ∷ xs) h s =
        let (h', asked) = asked_by m x h in
        let (s', sent) = answers asked s in
        let (h'', asked') = asked_by_all m xs h' in
        ap
          (λ (r : (HttpState × S) × List Bytes).
            let (c, sent') = called_back_all ops parse_url atoi m xs r.0 in (c, r.1 ++ sent'))
          (called_back_lem x h s)
        ∙ ap (λ (r : (HttpState × S) × List Bytes). (r.0, sent ++ r.1))
            (called_back_all_lem xs h' s')
        ∙ ap (λ (r : S × List Bytes). ((h'', r.0), r.1)) (sym (answers-append asked asked' s))
