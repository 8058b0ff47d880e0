-- ===== src/EnOcean/Port/Late.antt =====
-- A handler of the timer that runs late: the timer ran out, and before its handler runs the response
-- arrives, which cancels nothing any more.
use huasi.Prelude.{◌≤◌, ◌≡◌, ap, Bytes, List, true, false, [], ◌∷◌, arith, length, get_or}
use huasi.EnOcean.Protocol.{
  Request, Protocol, tx_frame, response, send_first, give_up, resend_request, send_if_any, dispatch,
}
use huasi.EnOcean.Protocol.Framing.{Fits, read_frame}
use huasi.EnOcean.Protocol.Run.{buffer_size}
use huasi.EnOcean.Port.{driver}
use huasi.Port.{Port, run_out, on_timer, receive, timer_ends, timer_handled, Reach, here, next}

resend_nothing :
    (p : Protocol)
    → p.requests ≡ []
    → ((resend_request 2 p).faulted ≡ true) × ((resend_request 2 p).requests ≡ [])
unfolding resend_request send_first give_up
resend_nothing p e = ground arith

dispatch_only :
    (rx : Bytes) (r : Request) (queue : List Request) (p : Protocol)
    → queue ≡ r ∷ []
    → get_or rx 4 0 ≡ response
    → (dispatch rx queue p).requests ≡ []
unfolding dispatch send_if_any
dispatch_only rx r [] p e kind = ground arith
dispatch_only rx r (x ∷ queue) p e kind = ground arith

-- When the timer of the only request runs out and a response arrives in the empty buffer before the
-- handler of the timer runs, that handler calls `front()` on the empty queue.
pub enocean_late_timeout_faults :
    (r answer : Request) (p : Port Protocol)
    → p.protocol.requests ≡ r ∷ []
    → p.protocol.received ≡ []
    → p.protocol.timer ≡ true
    → p.reading ≡ true
    → Fits answer
    → answer.packet_type ≡ response
    → length (tx_frame answer) ≤ buffer_size
    → (q : Port Protocol) × Reach driver p q
      × (q.protocol.requests ≡ [])
      × (q.protocol.faulted ≡ true)
unfolding run_out on_timer huasi.EnOcean.Protocol.on_timeout
enocean_late_timeout_faults r answer p e empty runs reads fits kind room =
    let rx = tx_frame answer in
    let stopped = record p.protocol { timer = false } in
    let arrives = read_frame answer stopped fits empty in
    let handed =
      dispatch rx p.protocol.requests (record stopped { received = rx; tx_retry_count = 0 }) in
    let (faults, left) =
      resend_nothing (record handed { received = [] })
        (dispatch_only rx r p.protocol.requests _ e kind) in
    (
      on_timer driver (record (run_out driver p) { protocol = record handed { received = [] } }),
      next
          (next (next here (timer_ends runs))
            (receive rx reads (omega (arith, ap length empty)) arrives))
          (timer_handled (omega arith)),
      left,
      faults,
    )
