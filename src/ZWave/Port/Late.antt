-- ===== src/ZWave/Port/Late.antt =====
-- A handler of the timer that runs late: the timer ran out, and before its handler runs the answer
-- arrives, which cancels nothing any more.
use huasi.Prelude.{
  ℕ, ◌≤◌, ◌≡◌, ◌∙◌, ap, none, some, true, false, [], ◌∷◌, arith, Bytes, length, drop,
}
use huasi.ZWave.Request.{Request, function, func_id?}
use huasi.ZWave.Frame.{ack, response_frame, frame}
use huasi.ZWave.Protocol.{Protocol, Handlers, write, output, send_all}
use huasi.ZWave.Protocol.Retry.{resend_nothing}
use huasi.ZWave.Protocol.Receive.{stored, finish_request, on_read}
use huasi.ZWave.Protocol.Receive.Framing.{length-frame}
use huasi.ZWave.Protocol.Receive.Answering.{response_requests, finish_request_idle}
use huasi.ZWave.Port.{driver}
use huasi.Port.{Port, run_out, on_timer, receive, timer_ends, timer_handled, Reach, here, next}

module _ {N : Type 0} (h : Handlers N) where
  -- The answer to the only request leaves the queue empty, if its handler sends nothing.
  answered_empty :
      (r : Request) (content : Bytes) (p : Protocol N)
      → p.requests ≡ r ∷ []
      → func_id? r ≡ none
      → p.rx_position ≡ 0
      → length content ≤ 251
      → ((bytes : Bytes) (size : ℕ) (n : N) → (h.on_response r bytes size n).1 ≡ [])
      → (q : Protocol N) × (on_read h (frame response_frame (function r) content) p ≡ some q)
        × (q.requests ≡ [])
  unfolding send_all
  answered_empty r content p e plain empty short silent =
      let (q, reads, queued, holds) = response_requests h r content p e plain empty short in
      let p' = stored (frame response_frame (function r) content) p in
      let result = h.on_response r (drop 4 p'.rx_buffer) (length content) p.network in
      let finished = record (finish_request [] (output (write (ack ∷ [])) p')) {
        network = result.0;
      } in
      (
        q,
        reads,
        queued
            ∙ ap (λ rs. (send_all rs finished).requests)
                (silent (drop 4 p'.rx_buffer) (length content) p.network)
            ∙ finish_request_idle (output (write (ack ∷ [])) p'),
      )

  -- When the timer of the only request runs out and the answer arrives before the handler of the timer
  -- runs, that handler calls `front()` on the empty queue. The request is no SendRequest, the handler
  -- of its answer sends no requests, and nothing else has arrived.
  pub late_timeout_faults :
      (r : Request) (content : Bytes) (p : Port (Protocol N))
      → p.protocol.requests ≡ r ∷ []
      → func_id? r ≡ none
      → p.protocol.rx_position ≡ 0
      → p.protocol.timer ≡ true
      → p.reading ≡ true
      → length content ≤ 251
      → ((bytes : Bytes) (size : ℕ) (n : N) → (h.on_response r bytes size n).1 ≡ [])
      → (q : Port (Protocol N)) × Reach (driver h) p q
        × (q.protocol.requests ≡ [])
        × (q.protocol.faulted ≡ true)
  unfolding run_out on_timer huasi.ZWave.Protocol.on_timeout
  late_timeout_faults r content p e plain empty runs reads short silent =
      let room = length-frame response_frame (function r) content in
      let (q, arrives, queued) =
        answered_empty r content (record p.protocol { timer = false }) e plain empty short silent in
      let (faults, left) = resend_nothing q queued in
      (
        on_timer (driver h) (record (run_out (driver h) p) { protocol = q }),
        next
            (next (next here (timer_ends runs))
              (receive (frame response_frame (function r) content) reads (omega arith) arrives))
            (timer_handled (omega arith)),
        left,
        faults,
      )
