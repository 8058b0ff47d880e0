-- ===== src/ZWave/Request.antt =====
-- The requests to the controller: ZWaveProtocol::Request and SendRequest of
-- src/zwave/ZWaveProtocol.hpp, with their subclasses of src/zwave/ZWaveNetwork.hpp and .cpp.
use huasi.Prelude.{ℕ, ◌%◌, Option, none, some, [], ◌∷◌, ◌++◌, Bytes, length}

-- The function codes.
abbrev pub serial_api_get_init_data : ℕ
serial_api_get_init_data = 0x02

abbrev pub application_command_handler : ℕ
application_command_handler = 0x04

abbrev pub zw_send_data : ℕ
zw_send_data = 0x13

abbrev pub zw_application_update : ℕ
zw_application_update = 0x49

abbrev pub zw_request_node_info : ℕ
zw_request_node_info = 0x60

-- One constructor for each class. `send_data` is the only SendRequest; its last field is `funcId`,
-- which a new object leaves uninitialised.
pub data Request : Type 0 where
  discover_nodes : Request
  get_node_info : ℕ → Request
  send_data : ℕ → Bytes → ℕ → Request

unfoldable pub function : Request → ℕ
function discover_nodes = serial_api_get_init_data
function (get_node_info node_id) = zw_request_node_info
function (send_data node_id bytes func_id) = zw_send_data

-- `cast<SendRequest>(request)`, and the `funcId` behind it.
unfoldable pub func_id? : Request → Option ℕ
func_id? discover_nodes = none
func_id? (get_node_info node_id) = none
func_id? (send_data node_id bytes func_id) = some func_id

-- The options ACK and AUTO_ROUTE.
abbrev tx_options : ℕ
tx_options = 0x05

-- What `getRequest` writes; its result is the length of that.
unfoldable pub get_request : Request → Bytes
get_request discover_nodes = []
get_request (get_node_info node_id) = node_id ∷ []
get_request (send_data node_id bytes func_id) =
    node_id ∷ (length bytes % 256) ∷ (bytes ++ tx_options ∷ [])
