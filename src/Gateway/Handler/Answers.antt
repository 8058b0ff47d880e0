-- ===== src/Gateway/Handler/Answers.antt =====
-- What the client gets.
use huasi.Prelude.{
  ℕ, ◌≡◌, ap, Bool, true, false, ◌&&◌, [], ◌∷◌, arith, Bytes, length, All, Bool-cases, inl, inr,
}
use huasi.Prelude.SortedMap.{bytes_key, lookup}
use huasi.Parameters.{Parameters}
use huasi.Http.Url.{ParsedUrl, new_url, get_query}
use huasi.Gateway.Query.{parse_query, body}
use huasi.Gateway.Query.RoundTrip.{IsClean, DistinctKeys, lookup-parse_query-body}
use huasi.Gateway.Handler.{
  NetworkOps, Method, method_get, method_post, method_other, content_answer, not_found, addressed,
  node_of, answer_post, answer_get, answer, on_request,
}

module _ {S : Type 0} (ops : NetworkOps S) (parse_url : Bytes → ParsedUrl) (atoi : Bytes → ℕ) where
  -- The network accepts the request.
  abbrev pub accepts : Method → Bytes → S → Bool
  accepts method_get url s = (ops.get (node_of parse_url atoi url) [] s).0
  accepts method_post url s =
      (ops.send_set (node_of parse_url atoi url) (parse_query (get_query (new_url parse_url url)))
        s).0
  accepts method_other url s = false

  refused_post :
      (keep_alive : Bool) (node_id : ℕ) (query : Bytes) (s : S)
      → (ops.send_set node_id (parse_query query) s).0 ≡ false
      → answer_post ops parse_url atoi keep_alive node_id query s ≡ (s, not_found keep_alive ∷ [])
  unfolding answer_post
  refused_post keep_alive node_id query s no_node = rw no_node (
      ap (λ t. (t, not_found keep_alive ∷ []))
        (ops.refused_same node_id (parse_query query) s no_node))

  -- A request that is not for a node, has another method than GET and POST, or is refused by the
  -- network, is answered by one message, 404, and the state stays as it is.
  pub on_request_not_served :
      (keep_alive : Bool) (method : Method) (url : Bytes) (s : S)
      → (addressed parse_url url && accepts method url s) ≡ false
      → on_request ops parse_url atoi keep_alive method url s ≡ (s, not_found keep_alive ∷ [])
  unfolding on_request
  on_request_not_served keep_alive method_get url s refused = ground arith
  on_request_not_served keep_alive method_post url s refused =
      elim (Bool-cases (addressed parse_url url)) [
        | inl there ↦ rw there (refused_post keep_alive _ _ s (rw there at refused))
        | inr elsewhere ↦ rw elsewhere
      ]
  on_request_not_served keep_alive method_other url s refused = ground arith

  -- A GET for a node that the network knows is answered by a head and a body; the head names the
  -- length of the body, and the body read as a query gives each parameter of the node its value,
  -- if the names are clean and distinct.
  pub on_request_get :
      (keep_alive : Bool) (url : Bytes) (s : S) (parameters : Parameters)
      → addressed parse_url url ≡ true
      → ops.get (node_of parse_url atoi url) [] s ≡ (true, parameters)
      → All IsClean parameters
      → DistinctKeys parameters
      → (text : Bytes) × (on_request ops parse_url atoi keep_alive method_get url s
          ≡ (s, content_answer keep_alive (length text) ∷ text ∷ []))
        × ((name : Bytes) → lookup name (parse_query text) ≡ lookup name parameters)
  unfolding on_request
  on_request_get keep_alive url s parameters there found clean distinct = (
    body parameters,
    rw (there, found),
    λ name. lookup-parse_query-body name parameters clean distinct,
  )

  -- What `sendSet` keeps of the network's state, a request keeps.
  module _ (P : S → Type 0)
      (sends : (node_id : ℕ) (p : Parameters) (s : S) → P s → P (ops.send_set node_id p s).1) where
    answer_keeps :
        (keep_alive : Bool) (method : Method) (node_id : ℕ) (query : Bytes) (s : S)
        → P s
        → P (answer ops parse_url atoi keep_alive method node_id query s).0
    unfolding answer answer_get answer_post
    answer_keeps keep_alive method_get node_id query s v =
        elim (Bool-cases (ops.get node_id [] s).0) [
          | inl found ↦ rw found v
          | inr missing ↦ rw missing v
        ]
    answer_keeps keep_alive method_post node_id query s v =
        elim (Bool-cases (ops.send_set node_id (parse_query query) s).0) [
          | inl sent ↦ rw sent (sends node_id (parse_query query) s v)
          | inr refused ↦ rw refused (sends node_id (parse_query query) s v)
        ]
    answer_keeps keep_alive method_other node_id query s v = v

    pub on_request_keeps :
        (keep_alive : Bool) (method : Method) (url : Bytes) (s : S)
        → P s
        → P (on_request ops parse_url atoi keep_alive method url s).0
    unfolding on_request
    on_request_keeps keep_alive method url s v = elim (Bool-cases (addressed parse_url url)) [
      | inl there ↦ rw there (
          answer_keeps keep_alive method (node_of parse_url atoi url)
            (get_query (new_url parse_url url)) s v)
      | inr elsewhere ↦ rw elsewhere v
    ]
