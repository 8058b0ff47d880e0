-- ===== src/EnOcean/Network.antt =====
-- class EnOceanNetwork of src/enocean/EnOceanNetwork.hpp and .cpp. What it learns from the controller
-- it prints; the numbers that it prints are the model of its handlers.
pub mod Startup
pub mod Life
use huasi.Prelude.{
  ℕ, ◌+◌, ◌*◌, Bool, true, false, ◌&&◌, List, [], ◌∷◌, ◌++◌, Bytes, leb, ◌==◌, if◌then◌else◌,
  get_or,
}
use huasi.Parameters.{Parameters}
use huasi.EnOcean.Protocol.{
  Request, Protocol, Output, write, on_error, on_response, on_request, send_request,
}

-- `CommonCommandRequest::Code`, and the packet types that are used.
abbrev pub rd_idbase : ℕ
rd_idbase = 8

abbrev common_command : ℕ
common_command = 5

abbrev radio_erp1 : ℕ
radio_erp1 = 1

-- `getData` and `getOptionalData`.
abbrev pub common_command_request : ℕ → Request
common_command_request code = record {
  packet_type = common_command;
  content = code ∷ [];
  optional_content = [];
}

pub data Print : Type 0 where
  base_id : ℕ → Print
  remaining_writes : ℕ → Print
  node_id : ℕ → Print
  node_state : ℕ → Print
  destination_id : ℕ → Print
  minus_dbm : ℕ → Print
  security : ℕ → Print

-- Four bytes from an index on, the most significant one first.
abbrev four_bytes : Bytes → ℕ → ℕ
four_bytes bytes i =
    get_or bytes i 0 * 16777216
    + get_or bytes (i + 1) 0 * 65536
    + get_or bytes (i + 2) 0 * 256
    + get_or bytes (i + 3) 0

abbrev print_if : Bool → List Print → List Print
print_if condition prints = if condition then prints else []

-- `CommonCommandRequest::onResponse`: the first byte of the data is the code of a request.
abbrev response_prints : Request → Bytes → ℕ → Bytes → ℕ → List Print
response_prints r bytes length' optional optional_length' =
    print_if (get_or r.content 0 0 == rd_idbase) (
      print_if (leb 5 length') (base_id (four_bytes bytes 1) ∷ [])
      ++ print_if (leb 1 optional_length') (remaining_writes (get_or optional 0 0) ∷ []))

-- `onRequest`.
abbrev request_prints : ℕ → Bytes → ℕ → Bytes → ℕ → List Print
request_prints packet_type' bytes length' optional optional_length' =
    print_if (packet_type' == radio_erp1) (
      print_if (leb 7 length' && (get_or bytes 0 0 == 0xf6))
        (node_id (four_bytes bytes 2) ∷ node_state (get_or bytes 1 0) ∷ [])
      ++ print_if (leb 7 optional_length') (
          destination_id (four_bytes optional 1)
          ∷ minus_dbm (get_or optional 5 0)
          ∷ security (get_or optional 6 0)
          ∷ []))

unfoldable pub prints : Output → List Print
prints (write bytes) = []
prints (on_error error) = []
prints (on_response r bytes length' optional optional_length') =
    response_prints r bytes length' optional optional_length'
prints (on_request packet_type' bytes length' optional optional_length') =
    request_prints packet_type' bytes length' optional optional_length'

abbrev pub idle : Protocol
idle = record {
  asked = [];
  requests = [];
  tx_retry_count = 0;
  timer = false;
  received = [];
  log = [];
  faulted = false;
}

-- The constructor.
abbrev pub started : Protocol
started = send_request (common_command_request rd_idbase) idle

-- `sendSet` and `get` know no node yet.
abbrev pub network_send_set : ℕ → Parameters → Protocol → Bool × Protocol
network_send_set node_id' parameters p = (false, p)

abbrev pub network_get : ℕ → Parameters → Protocol → Bool × Parameters
network_get node_id' parameters p = (false, parameters)
