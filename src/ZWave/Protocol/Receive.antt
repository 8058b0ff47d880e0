-- ===== src/ZWave/Protocol/Receive.antt =====
-- `ZWaveProtocol::receive` of src/zwave/ZWaveProtocol.cpp: the handler of a read. `rx_buffer` is the
-- whole array of 256 bytes, with what is stale behind `rx_position`.
pub mod Delivery
pub mod Framing
pub mod Sound
pub mod Total
pub mod Damage
pub mod Answering
pub mod Subclass
pub mod Refines
pub mod Settled
pub mod Transmission
use huasi.Prelude.{
  ℕ, zero, suc, ◌+◌, ◌-◌, Option, none, some, Bool, true, false, ◌&&◌, ◌||◌, not, List, [], ◌∷◌,
  ◌++◌, Bytes, leb, ltb, ◌==◌, if◌then◌else◌, length, get_or, take, drop,
}
use huasi.ZWave.Request.{Request, function, func_id?}
use huasi.ZWave.Frame.{sof, ack, nack, can, request_frame, response_frame, calc_checksum}
use huasi.ZWave.Protocol.{
  Protocol, Handlers, Output, write, output, send_front, send_all, resend_request,
}

-- The body of the loop either ends the loop or goes on, with the flag `frame`.
pub data Round (S : Type 0) : Type 0 where
  stop : S → Round S
  again : Bool → S → Round S

-- `sr != nullptr && sr->funcId == id`.
carries : Request → ℕ → Bool
carries r id = elim (func_id? r) [ none ↦ false | some own ↦ own == id ]

is_plain : Request → Bool
is_plain r = elim (func_id? r) [ none ↦ true | some own ↦ false ]

module _ {N : Type 0} where
  -- `rxBuffer[i]`.
  abbrev pub rx_byte : Protocol N → ℕ → ℕ
  rx_byte p i = get_or p.rx_buffer i 0

  -- `n` bytes are removed from the front: the rest up to `rx_position` moves down.
  unfoldable pub remove_front : ℕ → Protocol N → Protocol N
  remove_front n p = record p {
    rx_buffer =
        take (p.rx_position - n) (drop n p.rx_buffer) ++ drop (p.rx_position - n) p.rx_buffer;
    rx_position = p.rx_position - n;
  }

  abbrev pub cancel_timer : Protocol N → Protocol N
  cancel_timer p = record p { timer = false }

  -- The request procedure ends: the first request goes, and the next one is sent.
  pub finish_request : List Request → Protocol N → Protocol N
  unfolding send_front
  finish_request [] p = record p { timer = false; tx_retry_count = 0; requests = [] }
  finish_request (r ∷ rest) p =
      send_front (record p { timer = false; tx_retry_count = 0; requests = r ∷ rest })

  -- A virtual method returns.
  unfoldable pub returned : N × List Request → Protocol N → Protocol N
  returned (n, rs) p = send_all rs (record p { network = n })

  pub on_ack : Protocol N → Protocol N
  on_ack p = record (cancel_timer (remove_front 1 p)) { tx_retry_count = 0 }

  pub resend_if_any : List Request → Protocol N → Protocol N
  resend_if_any [] p = p
  resend_if_any (r ∷ rest) p = resend_request 1 p

  pub on_nack : Protocol N → Protocol N
  on_nack p = resend_if_any p.requests (cancel_timer (remove_front 1 p))

  -- The bytes that `async_read_some` has put behind the position; they are as many as there is
  -- room for, at most.
  unfoldable pub stored : Bytes → Protocol N → Protocol N
  stored bytes p = record p {
    rx_buffer =
        take p.rx_position p.rx_buffer
        ++ (bytes ++ drop (p.rx_position + length bytes) p.rx_buffer);
    rx_position = p.rx_position + length bytes;
  }

module _ {N : Type 0} (h : Handlers N) where
  -- A frame whose function is that of the first request.
  pub answered : Request → List Request → Protocol N → Protocol N
  answered r rest p =
      let length' = rx_byte p 1 in
      let is_response = rx_byte p 2 == response_frame in
      let is_request = rx_byte p 2 == request_frame && carries r (rx_byte p 4) in
      let ended = is_response && is_plain r || is_request in
      let p' = if ended then finish_request rest p else p in
      if is_response
      then returned (h.on_response r (drop 4 p.rx_buffer) (length' - 3) p.network) p'
      else if is_request
      then returned (h.on_transmit r (drop 4 p.rx_buffer) (length' - 3) p.network) p'
      else p'

  -- A frame that belongs to no request procedure.
  unfoldable pub unsolicited : Protocol N → Protocol N
  unsolicited p =
      if rx_byte p 2 == request_frame
      then returned (h.on_request (drop 3 p.rx_buffer) (rx_byte p 1 - 2) p.network) p
      else p

  unfoldable pub dispatch : List Request → Protocol N → Protocol N
  dispatch [] p = unsolicited p
  dispatch (r ∷ rest) p = if function r == rx_byte p 3 then answered r rest p else unsolicited p

  -- A frame with a correct checksum: it is acknowledged and handed on.
  unfoldable pub handle_frame : Protocol N → Protocol N
  handle_frame p = dispatch p.requests (output (write (ack ∷ [])) p)

  -- A complete frame. Only the first frame of a read is handed on.
  unfoldable pub complete_frame : Bool → Protocol N → Round (Protocol N)
  complete_frame framed p =
      let length' = rx_byte p 1 in
      if rx_byte p (1 + length') == calc_checksum (take length' (drop 1 p.rx_buffer))
      then again true (remove_front (2 + length') (if framed then p else handle_frame p))
      else again framed (record (output (write (nack ∷ [])) p) { rx_position = 0 })

  -- The body of the loop, for a buffer that is not empty.
  unfoldable pub rx_round : Bool → Protocol N → Round (Protocol N)
  rx_round framed p =
      if rx_byte p 0 == sof
      then (if leb 3 p.rx_position && leb (2 + rx_byte p 1) p.rx_position
          then complete_frame framed p
          else stop p)
      else if rx_byte p 0 == ack
      then again framed (on_ack p)
      else if rx_byte p 0 == nack
      then again framed (on_nack p)
      else if rx_byte p 0 == can
      then again framed (remove_front 1 p)
      else again framed (record p { rx_position = 0 })

  -- `while (rxPosition > 0)`, with fuel. None stands for fuel that ran out.
  unfoldable pub rx_loop : ℕ → Bool → Protocol N → Option (Protocol N)
  rx_loop zero framed p = none
  rx_loop (suc fuel) framed p = if p.rx_position == 0 then some p else elim (rx_round framed p) [
    | stop p' ↦ some p'
    | again framed' p' ↦ rx_loop fuel framed' p'
  ]

  -- The handler of a read that succeeded. A round removes a byte at least.
  unfoldable pub on_read : Bytes → Protocol N → Option (Protocol N)
  on_read bytes p = rx_loop (suc (p.rx_position + length bytes)) false (stored bytes p)
