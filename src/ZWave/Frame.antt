-- ===== src/ZWave/Frame.antt =====
-- The frames on the serial line: src/zwave/ZWaveProtocol.cpp (`calcChecksum`, and the bytes that
-- `sendRequest` puts into `txBuffer`).
pub mod Checksum
use huasi.Prelude.{ℕ, ◌+◌, ◌%◌, Option, none, some, [], ◌∷◌, ◌++◌, Bytes, length, bit_xor}
use huasi.ZWave.Request.{Request, discover_nodes, get_node_info, send_data, function, get_request}

-- The types of messages and of frames.
abbrev pub sof : ℕ
sof = 0x01

abbrev pub ack : ℕ
ack = 0x06

abbrev pub nack : ℕ
nack = 0x15

abbrev pub can : ℕ
can = 0x18

abbrev pub request_frame : ℕ
request_frame = 0x00

abbrev pub response_frame : ℕ
response_frame = 0x01

-- The loop of `calcChecksum`.
checksum_from : ℕ → Bytes → ℕ
checksum_from checksum [] = checksum
checksum_from checksum (b ∷ data_bytes) = checksum_from (bit_xor checksum b) data_bytes

unfoldable pub calc_checksum : Bytes → ℕ
unfolding checksum_from
calc_checksum data_bytes = checksum_from 0xff data_bytes

-- SOF, length, type, function, data and checksum. The length counts itself, the type, the function
-- and the data.
unfoldable pub frame : ℕ → ℕ → Bytes → Bytes
frame frame_type code data_bytes =
    let body = ((length data_bytes + 3) % 256) ∷ frame_type ∷ code ∷ data_bytes in
    sof ∷ (body ++ calc_checksum body ∷ [])

-- The request with `funcId` set, if it is a SendRequest.
unfoldable pub with_func_id : ℕ → Request → Request
with_func_id next discover_nodes = discover_nodes
with_func_id next (get_node_info node_id) = get_node_info node_id
with_func_id next (send_data node_id bytes func_id) = send_data node_id bytes next

-- The bytes of a request, with its `funcId` at their end if it is a SendRequest.
unfoldable pub request_data : Request → Bytes
request_data discover_nodes = get_request discover_nodes
request_data (get_node_info node_id) = get_request (get_node_info node_id)
request_data (send_data node_id bytes func_id) =
    get_request (send_data node_id bytes func_id) ++ func_id ∷ []

unfoldable pub tx_frame : Request → Bytes
tx_frame request = frame request_frame (function request) (request_data request)
