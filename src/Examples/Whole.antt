-- ===== src/Examples/Whole.antt =====
-- The gateway and the network together.
use huasi.Http.Headers.{new_state}
use huasi.Gateway.Handler.{method_post}
use huasi.Gateway.Connection.{
  Callback, Parser, url, header_field, header_value, body_part, headers_complete, message_complete,
  on_data_all,
}
use huasi.Gateway.Connection.Calls.{ClientRequest, serve}
use huasi.Gateway.Connection.Pipelining.{state_after, requests_answered_in_order}
use huasi.Examples.Web.{emptied, emptied-LeavesEmpty, host, dimmer}
use huasi.Prelude.{
  is_empty, ◌<◌, ℕ, zero, suc, ◌+◌, ◌≤◌, bytes_eq, ◌≡◌, refl, true, false, List, [], ◌∷◌, some,
  none, Bytes, codes, length, arith,
}
use huasi.Gateway.Handler.{method_get, node_of, addressed, on_request}
use huasi.Gateway.Handler.ZWaveOps.{zwave_ops}
use huasi.Gateway.Handler.ZWaveOps.System.{new_network}
use huasi.Http.Url.{get_path}
use huasi.Gateway.Query.{parse_query, key_value}
use huasi.Gateway.Codec.{decode}
use huasi.Cast.{to_integer, scan}
use huasi.Parameters.{get_percentage}
use huasi.Http.Url.{ParsedUrl, new_url, get_query}
use huasi.Gateway.Handler.{plain_answer}
use huasi.ZWave.Protocol.{write}
use huasi.ZWave.Frame.{ack, response_frame}
use huasi.Gateway.Handler.ZWaveOps.Posting.{post_dims_node}
use huasi.Prelude.{◌-◌, ◌==◌, if◌then◌else◌, ◌>>=◌}
use huasi.Prelude.SortedMap.{insert, lookup}
use huasi.Examples.Web.{parse_path, one_digit}
use huasi.ZWave.Request.{function}
use huasi.ZWave.Command.{send_get}
use huasi.ZWave.Classes.{basic_send_get}
use huasi.ZWave.Frame.{with_func_id, frame, tx_frame, calc_checksum, request_frame}
use huasi.ZWave.Protocol.{Protocol, send_front, send_first, send_request, send_all}
use huasi.ZWave.Protocol.Run.{started}
use huasi.ZWave.Protocol.Receive.{
  stored, remove_front, returned, unsolicited, dispatch, handle_frame, complete_frame, rx_round,
  rx_loop, on_read,
}
use huasi.ZWave.Network.{update_node, on_request as network_request, Network, handlers}
use huasi.ZWave.Network.Startup.{network_started}

abbrev pub zeros : ℕ → Bytes
zeros zero = []
zeros (suc n) = 0 ∷ zeros n

-- The info of node 3.
abbrev pub node_info : Bytes
node_info = frame request_frame 0x49 (0x20 ∷ 3 ∷ 10 ∷ 4 ∷ 16 ∷ 1 ∷ 0x25 ∷ 0x26 ∷ 0x27 ∷ [])

abbrev pub at_the_start : Protocol Network
at_the_start = network_started (zeros 256) new_network

abbrev pub informed : Protocol Network
informed = elim (on_read (handlers 0) node_info at_the_start) [ none ↦ at_the_start | some q ↦ q ]

pub informed_lem : on_read (handlers 0) node_info at_the_start ≡ some informed
unfolding on_read rx_loop rx_round complete_frame handle_frame dispatch unsolicited returned
    remove_front stored send_first send_front send_request started send_all frame tx_frame
    calc_checksum function with_func_id network_request update_node insert send_get basic_send_get
informed_lem = refl

pub room_lem : at_the_start.rx_position + length node_info ≤ 256
unfolding send_request send_front send_first started frame
room_lem = omega arith

pub has_class_lem :
    is_empty (informed.network.nodes (node_of parse_path one_digit (codes "/node/3"))).commands
    ≡ false
unfolding on_read rx_loop rx_round complete_frame handle_frame dispatch unsolicited returned
    remove_front stored send_first send_front send_request started send_all frame tx_frame
    calc_checksum function with_func_id network_request update_node insert send_get basic_send_get
    get_path
has_class_lem = refl

pub low_lem : node_of parse_path one_digit (codes "/node/3") < 256
unfolding get_path
low_lem = omega arith

pub addressed_lem : addressed parse_path (codes "/node/3") ≡ true
unfolding get_path bytes_eq
addressed_lem = refl

-- A parser that makes the calls that it was given, those of one read at a time.
abbrev pub scripted : Parser
scripted = record { State = List (List Callback); execute = execute; errno = λ p. 0 }
  where
    execute : List (List Callback) → Bytes → List (List Callback) × List Callback × ℕ
    execute [] bytes = ([], [], length bytes)
    execute (made ∷ rest) bytes = (rest, made, length bytes)

-- A GET and a POST for node 3.
abbrev first_get : ClientRequest
first_get = record {
  url_pieces = codes "/no" ∷ codes "de/3" ∷ [];
  headers = host ∷ [];
  method = method_get;
  keep_alive = true;
  body_parts = [];
}

abbrev then_post : ClientRequest
then_post = record {
  url_pieces = codes "/node/4" ∷ [];
  headers = [];
  method = method_post;
  keep_alive = false;
  body_parts = codes "x" ∷ [];
}

-- The second read begins in the header of the first request.
abbrev pub script : List (List Callback)
script =
    (url (codes "/no") ∷ url (codes "de/3") ∷ header_field (codes "Ho") ∷ [])
    ∷ (header_field (codes "st")
        ∷ header_value (codes "x")
        ∷ headers_complete method_get true
        ∷ message_complete
        ∷ url (codes "/node/4")
        ∷ headers_complete method_post false
        ∷ body_part (codes "x")
        ∷ message_complete
        ∷ [])
    ∷ []

requests_answered_in_order_example :
    on_data_all
      (zwave_ops 0)
      parse_path
      one_digit
      emptied
      scripted
      (codes "a" ∷ codes "b" ∷ [])
      (script, new_state, dimmer)
    ≡ (
      (
        state_after scripted (codes "a" ∷ codes "b" ∷ []) script,
        new_state,
        (serve (zwave_ops 0) parse_path one_digit (first_get ∷ then_post ∷ []) dimmer).0,
      ),
      (serve (zwave_ops 0) parse_path one_digit (first_get ∷ then_post ∷ []) dimmer).1,
    )
unfolding lookup
requests_answered_in_order_example =
    requests_answered_in_order (zwave_ops 0) parse_path one_digit emptied scripted
      emptied-LeavesEmpty (codes "a" ∷ codes "b" ∷ []) script (first_get ∷ then_post ∷ []) dimmer
      refl ((refl, tt), (tt, tt))

-- A parser for urls with a path of seven characters and a query.
abbrev parse_both : Bytes → ParsedUrl
parse_both text = record {
  field_set = 24;
  port = 0;
  field_data = λ i.
      if i == 3 then record { off = 0; len = 7 } else record { off = 8; len = length text - 8 };
}

abbrev dim_url : Bytes
dim_url = codes "/node/3?dim=50"

dim_lem :
    get_percentage (parse_query (get_query (new_url parse_both dim_url))) (codes "dim") ≡ some 50
unfolding get_query parse_query get_percentage to_integer scan lookup insert bytes_eq key_value
    decode
dim_lem = refl

post_dims_node_example :
    let (s', sent) =
      on_request (zwave_ops 0) parse_both one_digit true method_post dim_url dimmer in
    let message : Bytes =
      frame request_frame 0x13
        (node_of parse_both one_digit dim_url ∷ 3 ∷ 0x20 ∷ 0x01 ∷ 50 ∷ 0x05 ∷ 1 ∷ []) in
    (sent ≡ plain_answer true 200 (codes "OK") ∷ [])
    × (s'.log ≡ write message ∷ [])
    × (q : Protocol Network) × ((on_read (handlers 0) (ack ∷ []) s'
          >>= on_read (handlers 0) (frame response_frame 0x13 (1 ∷ []))
          >>= on_read (handlers 0) (frame request_frame 0x13 (1 ∷ 0 ∷ [])))
        ≡ some q)
    × (q.requests ≡ [])
    × (q.log ≡ write (ack ∷ []) ∷ write (ack ∷ []) ∷ write message ∷ [])
    × (q.timer ≡ false)
unfolding get_path bytes_eq
post_dims_node_example =
    post_dims_node 0 parse_both one_digit true dim_url 50 50 1 0 dimmer refl (omega arith) refl
      dim_lem refl refl
