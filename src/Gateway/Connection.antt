-- ===== src/Gateway/Connection.antt =====
-- A connection of a client: `HttpChannel::onData` and its callbacks of src/http/HttpChannel.cpp, with
-- `Gateway::onRequest`, `onBody` and `onEnd` of src/Gateway.cpp behind them. The parser of
-- src/http/http_parser.c is third-party code and a parameter.
pub mod Calls
pub mod Pipelining
pub mod Clients
use huasi.Prelude.{
  ℕ, Option, none, some, Bool, List, [], ◌∷◌, ◌++◌, Bytes, ◌==◌, if◌then◌else◌, length,
}
use huasi.Http.Url.{ParsedUrl}
use huasi.Http.Headers.{
  MovedFrom, HttpState, on_url, on_header_field, on_header_value, on_headers_complete,
}
use huasi.Gateway.Handler.{NetworkOps, Method, on_request}

-- The calls of the parser. `headers_complete` has the method and whether the connection is kept
-- alive, which `onRequest` asks of the parser. `no_data` are the callbacks that get nothing and do
-- nothing: the begin of a message, and the begin and the end of a chunk.
pub data Callback : Type 0 where
  url header_field header_value status body_part : Bytes → Callback
  headers_complete : Method → Bool → Callback
  message_complete no_data : Callback

-- What `http_parser_execute` does: its state afterwards, the calls that it makes, and how many bytes
-- it parsed. All callbacks of the channel return 0, so no call has an influence on it.
pub record Parser : Type 1 where
  pub State : Type 0
  pub execute : State → Bytes → State × List Callback × ℕ
  pub errno : State → ℕ

module _ {S : Type 0} (ops : NetworkOps S) (parse_url : Bytes → ParsedUrl) (atoi : Bytes → ℕ)
    (m : MovedFrom) where
  -- A callback: the state of the channel and of the network, and what is handed to `sendData`.
  unfoldable pub called_back : Callback → HttpState × S → (HttpState × S) × List Bytes
  called_back (url text) (h, s) = ((on_url m text h, s), [])
  called_back (header_field text) (h, s) = ((on_header_field m text h, s), [])
  called_back (header_value text) (h, s) = ((on_header_value m text h, s), [])
  called_back (status text) (h, s) = ((h, s), [])
  called_back (body_part part) (h, s) = ((h, s), [])
  called_back (headers_complete method keep_alive) (h, s) =
      let (h', path, headers) = on_headers_complete m h in
      let (s', sent) = on_request ops parse_url atoi keep_alive method path s in ((h', s'), sent)
  called_back message_complete (h, s) = ((h, s), [])
  called_back no_data (h, s) = ((h, s), [])

  unfoldable pub called_back_all : List Callback → HttpState × S → (HttpState × S) × List Bytes
  called_back_all [] c = (c, [])
  called_back_all (x ∷ xs) c =
      let (c', sent) = called_back x c in
      let (c'', sent') = called_back_all xs c' in (c'', sent ++ sent')

  module _ (parser : Parser) where
    -- `onData`: the states, what is sent, and the error that is reported if not all was parsed.
    unfoldable pub on_data :
        Bytes
        → parser.State × HttpState × S
        → (parser.State × HttpState × S) × List Bytes × Option ℕ
    on_data bytes (p, h, s) =
        let (p', calls, parsed) = parser.execute p bytes in
        let ((h', s'), sent) = called_back_all calls (h, s) in
        ((p', h', s'), sent, if parsed == length bytes then none else some (parser.errno p'))

    -- Several reads, one after the other: what they send together.
    unfoldable pub on_data_all :
        List Bytes → parser.State × HttpState × S → (parser.State × HttpState × S) × List Bytes
    on_data_all [] c = (c, [])
    on_data_all (bytes ∷ reads) c =
        let (c', sent, error) = on_data bytes c in
        let (c'', sent') = on_data_all reads c' in (c'', sent ++ sent')
