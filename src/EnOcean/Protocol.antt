-- ===== src/EnOcean/Protocol.antt =====
-- class EnOceanProtocol of src/enocean/EnOceanProtocol.hpp and .cpp. The bytes of `rxBuffer` up to
-- `rxPosition` are one list: the code reads no others. The calls of the virtual methods are outputs,
-- with the bytes from the data pointer on; none of the source's implementations sends a request.
pub mod Queue
pub mod Receive
pub mod Framing
pub mod Delivery
pub mod Damage
pub mod Run
pub mod Serving
use huasi.Prelude.{
  ℕ, zero, suc, ◌+◌, ◌*◌, ◌/◌, ◌%◌, Option, none, some, Bool, true, false, ◌&&◌, List, [], ◌∷◌,
  ◌++◌, Bytes, ltb, leb, ◌==◌, if◌then◌else◌, length, get_or, take, drop,
}
use huasi.EnOcean.Crc.{calc_checksum}

-- class Request: the packet type and what `getData` and `getOptionalData` give.
pub record Request : Type 0 where
  pub packet_type : ℕ
  pub content : Bytes
  pub optional_content : Bytes

abbrev pub response : ℕ
response = 2

pub data Output : Type 0 where
  write : Bytes → Output
  on_error : ℕ → Output
  on_response : Request → Bytes → ℕ → Bytes → ℕ → Output
  on_request : ℕ → Bytes → ℕ → Bytes → ℕ → Output

-- `asked` keeps the requests that `sendRequest` got, the oldest first; the code does not. `log` has
-- the newest output first. `faulted` says that `front()` was called on the empty queue.
pub record Protocol : Type 0 where
  pub asked : List Request
  pub requests : List Request
  pub tx_retry_count : ℕ
  pub timer : Bool
  pub received : Bytes
  pub log : List Output
  pub faulted : Bool

abbrev pub output : Output → Protocol → Protocol
output o p = record p { log = o ∷ p.log }

-- The header of a frame without its checksum: two bytes for the length of the data, one for that of
-- the optional data, and the packet type.
abbrev pub header : Request → Bytes
header r =
    ((length r.content / 256) % 256)
    ∷ (length r.content % 256)
    ∷ (length r.optional_content % 256)
    ∷ r.packet_type
    ∷ []

abbrev pub tx_frame : Request → Bytes
tx_frame r =
    let body = r.content ++ r.optional_content in
    0x55 ∷ header r ++ calc_checksum (header r) ∷ body ++ calc_checksum body ∷ []

-- `sendRequest()`: the frame of the first request is written, and the timer is started.
unfoldable pub send_first : List Request → Protocol → Protocol
send_first [] p = record p { faulted = true }
send_first (r ∷ rest) p = record p { timer = true; log = write (tx_frame r) ∷ p.log }

-- `sendRequest(request)`: a request that finds the queue empty is sent at once.
unfoldable pub send_request : Request → Protocol → Protocol
send_request r p =
    let queued = record p { asked = p.asked ++ r ∷ []; requests = p.requests ++ r ∷ [] } in
    if length queued.requests == 1 then send_first queued.requests queued else queued

unfoldable pub give_up : ℕ → List Request → Protocol → Protocol
give_up error [] p = record p { tx_retry_count = 0; faulted = true }
give_up error (r ∷ rest) p = record p {
  tx_retry_count = 0;
  requests = rest;
  log = on_error error ∷ p.log;
}

unfoldable pub resend_request : ℕ → Protocol → Protocol
resend_request error p =
    let tried = record p { tx_retry_count = p.tx_retry_count + 1 } in
    if ltb (p.tx_retry_count + 1) 3
    then send_first p.requests tried
    else give_up error p.requests tried

-- The handler of the timer, for no error. Whether a request still waits, it does not ask.
unfoldable pub on_timeout : Protocol → Protocol
on_timeout p = resend_request 2 p

-- An event: the time of the timer passes, if it runs, and its handler runs before anything else does.
unfoldable pub time_passes : Protocol → Protocol
unfolding on_timeout
time_passes p = if p.timer then on_timeout (record p { timer = false }) else p

-- The fields of the frame that the buffer begins with.
abbrev pub data_length : Bytes → ℕ
data_length rx = get_or rx 1 0 * 256 + get_or rx 2 0

abbrev pub optional_length : Bytes → ℕ
optional_length rx = get_or rx 3 0

abbrev pub body_length : Bytes → ℕ
body_length rx = data_length rx + optional_length rx

abbrev pub is_header : Bytes → Bool
is_header rx = (get_or rx 0 0 == 0x55) && (calc_checksum (take 4 (drop 1 rx)) == get_or rx 5 0)

abbrev pub is_intact : Bytes → Bool
is_intact rx = calc_checksum (take (body_length rx) (drop 6 rx)) == get_or rx (6 + body_length rx) 0

-- The first request is answered and leaves the queue, and the next one is sent.
unfoldable pub send_if_any : List Request → Protocol → Protocol
send_if_any [] p = p
send_if_any (r ∷ rest) p = send_first (r ∷ rest) p

unfoldable pub unsolicited : Bytes → Protocol → Protocol
unsolicited rx p =
    output
      (on_request (get_or rx 4 0) (drop 6 rx) (data_length rx) (drop (6 + data_length rx) rx)
        (optional_length rx))
      p

unfoldable pub dispatch : Bytes → List Request → Protocol → Protocol
dispatch rx [] p = unsolicited rx p
dispatch rx (r ∷ rest) p =
    if get_or rx 4 0 == response
    then send_if_any rest (
        output
          (on_response r (drop 6 rx) (data_length rx) (drop (6 + data_length rx) rx)
            (optional_length rx))
          (record p { requests = rest }))
    else unsolicited rx p

-- A frame that arrived whole. It ends the wait, whatever its type.
unfoldable pub complete_frame : Protocol → Protocol
complete_frame p =
    let rx = p.received in
    if is_intact rx
    then record (dispatch rx p.requests (record p { timer = false; tx_retry_count = 0 })) {
      received = drop (6 + body_length rx + 1) rx;
    }
    else record p { received = [] }

-- A header is complete behind which a frame is expected that has not arrived whole.
abbrev pub is_partial : Bytes → Bool
is_partial rx = is_header rx && ltb (length rx) (6 + body_length rx + 1)

-- `while (rxPosition > 6)`, with fuel. None stands for fuel that ran out.
unfoldable pub rx_loop : ℕ → Protocol → Option Protocol
rx_loop zero p = none
rx_loop (suc fuel) p =
    if leb (length p.received) 6
    then some p
    else if is_partial p.received
    then some p
    else if is_header p.received
    then rx_loop fuel (complete_frame p)
    else rx_loop fuel (record p { received = [] })

-- The handler of a read that succeeded.
unfoldable pub on_read : Bytes → Protocol → Option Protocol
on_read bytes p =
    rx_loop (suc (length p.received + length bytes)) (record p { received = p.received ++ bytes })
