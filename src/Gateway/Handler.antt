-- ===== src/Gateway/Handler.antt =====
-- `Gateway::onRequest` of src/Gateway.cpp, over a network as src/Network.hpp describes it.
pub mod Answers
pub mod Messages
pub mod Reading
pub mod Mixing
pub mod ZWaveOps
use huasi.Prelude.{
  ℕ, ◌≡◌, Bool, true, false, List, [], ◌∷◌, Bytes, codes, bytes_eq, if◌then◌else◌, take, drop,
  length,
}
use huasi.Parameters.{Parameters}
use huasi.Http.Url.{Url, ParsedUrl, new_url, get_path, get_query}
use huasi.Http.Response.{Headers, new_response, add_headers, add_close, add_content, response_text}
use huasi.Gateway.Query.{parse_query, body}

-- class Network: `sendSet` and `get`. A network that refuses parameters stays as it is.
pub record NetworkOps (S : Type 0) : Type 0 where
  pub send_set : ℕ → Parameters → S → Bool × S
  pub get : ℕ → Parameters → S → Bool × Parameters
  pub refused_same :
      (node_id : ℕ) (p : Parameters) (s : S)
      → (send_set node_id p s).0 ≡ false
      → (send_set node_id p s).1 ≡ s

pub data Method : Type 0 where
  method_get method_post method_other : Method

abbrev pub default_headers : Headers
default_headers = (codes "Server", codes "huasi") ∷ []

abbrev closing : Bool → Bytes → Bytes
closing keep_alive text = if keep_alive then text else add_close text

-- The head of an answer with no body.
abbrev pub plain_answer : Bool → ℕ → Bytes → Bytes
plain_answer keep_alive status message =
    response_text (closing keep_alive (add_headers default_headers (new_response status message)))

-- The head of an answer with a body of this length.
abbrev pub content_answer : Bool → ℕ → Bytes
content_answer keep_alive size = response_text (
    add_content (codes "application/x-www-form-urlencoded") size
      (closing keep_alive (add_headers default_headers (new_response 200 (codes "OK")))))

abbrev pub not_found : Bool → Bytes
not_found keep_alive = plain_answer keep_alive 404 (codes "Not Found")

-- `path.compare(0, prefix.size(), prefix)`.
abbrev pub is_node_path : Bytes → Bool
is_node_path path = bytes_eq (take 6 path) (codes "/node/")

-- The path is for a node, and the id of that node: `atoi` is the C library's, with its int read as a
-- uint32_t.
abbrev pub addressed : (Bytes → ParsedUrl) → Bytes → Bool
addressed parse_url url = is_node_path (get_path (new_url parse_url url))

abbrev pub node_of : (Bytes → ParsedUrl) → (Bytes → ℕ) → Bytes → ℕ
node_of parse_url atoi url = atoi (drop 6 (get_path (new_url parse_url url)))

-- The results are the state afterwards and what is handed to `sendData`, call by call.
module _ {S : Type 0} (ops : NetworkOps S) (parse_url : Bytes → ParsedUrl) (atoi : Bytes → ℕ) where
  answer_post : Bool → ℕ → Bytes → S → S × List Bytes
  answer_post keep_alive node_id query s =
      let (sent, s') = ops.send_set node_id (parse_query query) s in
      if sent
      then (s', plain_answer keep_alive 200 (codes "OK") ∷ [])
      else (s', not_found keep_alive ∷ [])

  answer_get : Bool → ℕ → S → S × List Bytes
  answer_get keep_alive node_id s =
      let (found, parameters) = ops.get node_id [] s in
      let text = body parameters in
      if found
      then (s, content_answer keep_alive (length text) ∷ text ∷ [])
      else (s, not_found keep_alive ∷ [])

  answer : Bool → Method → ℕ → Bytes → S → S × List Bytes
  answer keep_alive method_get node_id query s = answer_get keep_alive node_id s
  answer keep_alive method_post node_id query s = answer_post keep_alive node_id query s
  answer keep_alive method_other node_id query s = (s, not_found keep_alive ∷ [])

  unfoldable pub on_request : Bool → Method → Bytes → S → S × List Bytes
  unfolding answer answer_get answer_post
  on_request keep_alive method url s =
      if addressed parse_url url
      then answer keep_alive method (node_of parse_url atoi url) (get_query (new_url parse_url url))
          s
      else (s, not_found keep_alive ∷ [])
