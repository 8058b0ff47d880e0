-- ===== src/ZWave/Protocol.antt =====
-- class ZWaveProtocol of src/zwave/ZWaveProtocol.hpp and .cpp. The queue of requests, the timer and
-- the buffers are one record. The virtual methods of the subclass are a record of functions; they
-- send requests, and those are queued in their order when the method returns. The serial port and
-- the timer enter as events: bytes that were read, and a timer that ran out.
pub mod Receive
pub mod Queue
pub mod Retry
pub mod Unheard
pub mod Run
pub mod Line
use huasi.Prelude.{
  ℕ, suc, ◌+◌, Option, none, some, Bool, true, false, List, [], ◌∷◌, ◌++◌, Bytes, ltb, ◌==◌,
  if◌then◌else◌, length,
}
use huasi.ZWave.Request.{Request, func_id?}
use huasi.ZWave.Frame.{with_func_id, tx_frame, ack, nack}

-- What the controller and the user see: bytes that are written, and calls of `onError`.
pub data Output : Type 0 where
  write : Bytes → Output
  on_error : ℕ → Output

-- `asked` keeps the requests that `sendRequest` got, the oldest first; the code does not. `log` has
-- the newest output first. `faulted` says that `front()` was called on the empty queue.
-- `timer` says that the timer runs. `network` is the state of the subclass.
pub record Protocol (N : Type 0) : Type 0 where
  pub asked : List Request
  pub requests : List Request
  pub tx_retry_count : ℕ
  pub next_func_id : ℕ
  pub timer : Bool
  pub rx_position : ℕ
  pub rx_buffer : Bytes
  pub log : List Output
  pub faulted : Bool
  pub network : N

-- The virtual methods: `onResponse` of the request, `onRequest` of a SendRequest, `onRequest` of the
-- network. Each takes the bytes from its data pointer on to the end of the buffer, and the length.
pub record Handlers (N : Type 0) : Type 0 where
  pub on_response : Request → Bytes → ℕ → N → N × List Request
  pub on_transmit : Request → Bytes → ℕ → N → N × List Request
  pub on_request : Bytes → ℕ → N → N × List Request

-- `nextFuncId` runs through 1 to 0xff.
abbrev pub next_id : ℕ → ℕ
next_id n = if ltb n 0xff then n + 1 else 1

pub id_after : Request → ℕ → ℕ
id_after r n = elim (func_id? r) [ none ↦ n | some old ↦ next_id n ]

module _ {N : Type 0} where
  abbrev pub output : Output → Protocol N → Protocol N
  output o p = record p { log = o ∷ p.log }

  -- `sendRequest()`: the frame of the first request is written and the timer is started. A
  -- SendRequest takes a new id first.
  unfoldable pub send_first : List Request → Protocol N → Protocol N
  unfolding id_after func_id?
  send_first [] p = record p { faulted = true }
  send_first (r ∷ rest) p =
      let r' = with_func_id p.next_func_id r in
      record p {
        requests = r' ∷ rest;
        next_func_id = id_after r p.next_func_id;
        timer = true;
        log = write (tx_frame r') ∷ p.log;
      }

  unfoldable pub send_front : Protocol N → Protocol N
  unfolding send_first
  send_front p = send_first p.requests p

  -- `sendRequest(request)`: a request that finds the queue empty is sent at once.
  unfoldable pub send_request : Request → Protocol N → Protocol N
  unfolding send_front
  send_request r p =
      let queued = record p { asked = p.asked ++ r ∷ []; requests = p.requests ++ r ∷ [] } in
      if length queued.requests == 1 then send_front queued else queued

  unfoldable pub send_all : List Request → Protocol N → Protocol N
  send_all [] p = p
  send_all (r ∷ rs) p = send_all rs (send_request r p)

  pub give_up : ℕ → List Request → Protocol N → Protocol N
  give_up error [] p = record p { tx_retry_count = 0; faulted = true }
  give_up error (r ∷ rest) p = record p {
    tx_retry_count = 0;
    requests = rest;
    log = on_error error ∷ p.log;
  }

  -- `resendRequest(error)`.
  pub resend_request : ℕ → Protocol N → Protocol N
  unfolding send_front give_up
  resend_request error p =
      let tried = record p { tx_retry_count = p.tx_retry_count + 1 } in
      if ltb (p.tx_retry_count + 1) 3 then send_front tried else give_up error p.requests tried

  -- The handler of the timer, for no error. Whether a request still waits, it does not ask.
  unfoldable pub on_timeout : Protocol N → Protocol N
  unfolding resend_request
  on_timeout p = resend_request 2 p

  -- An event: the time of the timer passes, if it runs, and its handler runs before anything else does.
  pub time_passes : Protocol N → Protocol N
  unfolding on_timeout
  time_passes p = if p.timer then on_timeout (record p { timer = false }) else p
