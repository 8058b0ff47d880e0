-- ===== src/ZWave/Protocol/Receive/Transmission.antt =====
-- A message to a node, from the frame that was sent to the status that ends its procedure.
use huasi.Prelude.{
  ℕ, suc, ◌+◌, ◌-◌, ◌≡◌, refl, ◌∙◌, ap, some, false, not, List, [], ◌∷◌, arith, Bytes, drop, get_or,
  is_empty, ◌>>=◌,
}
use huasi.ZWave.Request.{Request, send_data, function, func_id?, zw_send_data}
use huasi.ZWave.Frame.{ack, frame, request_frame, response_frame}
use huasi.ZWave.Protocol.{Protocol, Handlers, Output, write, output}
use huasi.ZWave.Protocol.Receive.{
  again, rx_byte, remove_front, stored, on_ack, finish_request, returned, handle_frame, dispatch,
  answered, is_plain, carries, rx_round, rx_loop, on_read,
}
use huasi.ZWave.Protocol.Receive.Framing.{
  rx_buffer-stored, rx_position-stored, rx_loop_round, rx_loop_empty, on_read-frame, length-frame,
}
use huasi.ZWave.Protocol.Receive.Settled.{
  fifth_byte, Stands, sent_next, log_next, acked-Stands, removed-Stands, returned_none,
  finish_request_lem, remove_front_kept, stored_kept,
}

-- The virtual methods of a message send no requests.
pub record IsQuiet {N : Type 0} (h : Handlers N) : Type 0 where
  pub response_none :
      (node_id : ℕ) (bytes : Bytes) (id : ℕ) (content : Bytes) (size : ℕ) (n : N)
      → (h.on_response (send_data node_id bytes id) content size n).1 ≡ []
  pub transmit_none :
      (node_id : ℕ) (bytes : Bytes) (id : ℕ) (content : Bytes) (size : ℕ) (n : N)
      → (h.on_transmit (send_data node_id bytes id) content size n).1 ≡ []

module _ {N : Type 0} (h : Handlers N) (quiet : IsQuiet h) where
  -- `ACK` alone stops the timer, and the request waits on.
  read_ack :
      (requests : List Request) (id : ℕ) (log : List Output) (p : Protocol N)
      → Stands requests id log p
      → (q : Protocol N) × (on_read h (ack ∷ []) p ≡ some q) × Stands requests id log q
  unfolding on_read
  read_ack requests id log p v =
      let p' = stored (ack ∷ []) p in
      let at = rx_position-stored (ack ∷ []) p v.empty in
      let there : rx_byte p' 0 ≡ ack =
        ap (λ buffer. get_or buffer 0 0) (rx_buffer-stored (ack ∷ []) p v.empty) in
      let round : rx_round h false p' ≡ again false (on_ack p') = unfold rx_round in ground arith in
      (
        on_ack p',
        ap (λ n. rx_loop h (suc (n + 1)) false p') v.empty
            ∙ rx_loop_round h 1 false false p' (on_ack p') (omega arith) round
            ∙ rx_loop_empty h 0 false (on_ack p') (acked-Stands requests id log p v).empty,
        acked-Stands requests id log p v,
      )

  handle_response :
      (node_id id : ℕ) (bytes : Bytes) (rest : List Request) (p : Protocol N)
      → p.requests ≡ send_data node_id bytes id ∷ rest
      → rx_byte p 3 ≡ zw_send_data
      → rx_byte p 2 ≡ response_frame
      → let result =
          h.on_response
            (send_data node_id bytes id)
            (drop 4 p.rx_buffer)
            (rx_byte p 1 - 3)
            p.network in
        handle_frame h p ≡ returned result (output (write (ack ∷ [])) p)
  unfolding handle_frame dispatch answered is_plain carries function func_id?
  handle_response node_id id bytes rest p e called kind = ground arith

  handle_status :
      (node_id id : ℕ) (bytes : Bytes) (rest : List Request) (p : Protocol N)
      → p.requests ≡ send_data node_id bytes id ∷ rest
      → rx_byte p 3 ≡ zw_send_data
      → rx_byte p 2 ≡ request_frame
      → rx_byte p 4 ≡ id
      → let result =
          h.on_transmit
            (send_data node_id bytes id)
            (drop 4 p.rx_buffer)
            (rx_byte p 1 - 3)
            p.network in
        handle_frame h p ≡ returned result (finish_request rest (output (write (ack ∷ [])) p))
  unfolding handle_frame dispatch answered is_plain carries function func_id?
  handle_status node_id id bytes rest p e called kind own = ground arith

  -- The response to a message only says that it was taken over.
  read_response :
      (node_id func_id status id : ℕ) (bytes : Bytes) (rest : List Request) (log : List Output)
      (p : Protocol N)
      → Stands (send_data node_id bytes func_id ∷ rest) id log p
      → (q : Protocol N) × (on_read h (frame response_frame zw_send_data (status ∷ [])) p ≡ some q)
        × Stands (send_data node_id bytes func_id ∷ rest) id (write (ack ∷ []) ∷ log) q
  read_response node_id func_id status id bytes rest log p v =
      let sent = frame response_frame zw_send_data (status ∷ []) in
      let p' = stored sent p in
      let (queue, next, written) = stored_kept sent p in
      let (holds, reads) =
        on_read-frame h response_frame zw_send_data (status ∷ []) p v.empty (omega arith) in
      let result =
        h.on_response (send_data node_id bytes func_id) (drop 4 p'.rx_buffer) (rx_byte p' 1 - 3)
          p'.network in
      let acked = output (write (ack ∷ [])) p' in
      let after : Protocol N = record acked { network = result.0 } in
      let handled =
        handle_response node_id func_id bytes rest p' (queue ∙ v.queue) holds.called holds.kind
        ∙ returned_none result acked (quiet.response_none node_id bytes func_id _ _ _) in
      let size =
        rx_position-stored sent p v.empty
        ∙ length-frame response_frame zw_send_data (status ∷ []) in
      let w = removed-Stands 6 after size in
      (
        remove_front 6 after,
        reads ∙ ap (λ q. some (remove_front 6 q)) handled,
        record {
          queue = w.queue ∙ queue ∙ v.queue;
          next = w.next ∙ next ∙ v.next;
          written = w.written ∙ ap (λ l. write (ack ∷ []) ∷ l) (written ∙ v.written);
          empty = w.empty;
        },
      )

  -- The status of the transmission ends the procedure.
  read_status :
      (node_id func_id status id : ℕ) (bytes : Bytes) (rest : List Request) (log : List Output)
      (p : Protocol N)
      → Stands (send_data node_id bytes func_id ∷ rest) id log p
      → (q : Protocol N) × (on_read h (frame request_frame zw_send_data (func_id ∷ status ∷ [])) p
          ≡ some q)
        × (q.requests ≡ sent_next id rest)
        × (q.log ≡ log_next id rest (write (ack ∷ []) ∷ log))
        × (q.timer ≡ not (is_empty rest))
        × (q.tx_retry_count ≡ 0)
        × (q.rx_position ≡ 0)
  read_status node_id func_id status id bytes rest log p v =
      let report = frame request_frame zw_send_data (func_id ∷ status ∷ []) in
      let p' = stored report p in
      let (queue, next, written) = stored_kept report p in
      let (holds, reads) =
        on_read-frame h request_frame zw_send_data (func_id ∷ status ∷ []) p v.empty
          (omega arith) in
      let result =
        h.on_transmit (send_data node_id bytes func_id) (drop 4 p'.rx_buffer) (rx_byte p' 1 - 3)
          p'.network in
      let acked = output (write (ack ∷ [])) p' in
      let finished = finish_request rest acked in
      let after : Protocol N = record finished { network = result.0 } in
      let handled =
        handle_status node_id func_id bytes rest p' (queue ∙ v.queue) holds.called holds.kind
          (fifth_byte 1 func_id p'.rx_buffer (status ∷ []) holds.payload)
        ∙ returned_none result finished (quiet.transmit_none node_id bytes func_id _ _ _) in
      let size =
        rx_position-stored report p v.empty
        ∙ length-frame request_frame zw_send_data (func_id ∷ status ∷ []) in
      let (requests, log', timer, count, position) = finish_request_lem rest acked in
      let (requests', log'', timer', count', position') = remove_front_kept 7 after in
      (
        remove_front 7 after,
        reads ∙ ap (λ q. some (remove_front 7 q)) handled,
        requests' ∙ requests ∙ ap (λ n. sent_next n rest) (next ∙ v.next),
        log''
            ∙ log'
            ∙ ap (λ n. log_next n rest (write (ack ∷ []) ∷ p'.log)) (next ∙ v.next)
            ∙ ap (λ l. log_next id rest (write (ack ∷ []) ∷ l)) (written ∙ v.written),
        timer' ∙ timer,
        count' ∙ count,
        omega (arith, position', position, size),
      )

  -- A message that was sent, stands first in the queue and has its id, with an empty buffer: when the controller
  -- confirms its frame, answers that it took the message over, and reports the status of the
  -- transmission with that id, the message is done. It has left the queue, both frames are
  -- acknowledged, and the next request is sent, with the next id if it is a SendRequest; its timer runs exactly if there is one, no
  -- attempt is counted and the buffer is empty.
  pub send_data_completes :
      (node_id func_id taken status : ℕ) (bytes : Bytes) (rest : List Request) (p : Protocol N)
      → p.requests ≡ send_data node_id bytes func_id ∷ rest
      → p.rx_position ≡ 0
      → (q : Protocol N) × ((on_read h (ack ∷ []) p
            >>= on_read h (frame response_frame zw_send_data (taken ∷ []))
            >>= on_read h (frame request_frame zw_send_data (func_id ∷ status ∷ [])))
          ≡ some q)
        × (q.requests ≡ sent_next p.next_func_id rest)
        × (q.log ≡ log_next p.next_func_id rest (write (ack ∷ []) ∷ write (ack ∷ []) ∷ p.log))
        × (q.timer ≡ not (is_empty rest))
        × (q.tx_retry_count ≡ 0)
        × (q.rx_position ≡ 0)
  send_data_completes node_id func_id taken status bytes rest p first empty =
      let start : Stands (send_data node_id bytes func_id ∷ rest) p.next_func_id p.log p = record {
        queue = first;
        next = refl;
        written = refl;
        empty = empty;
      } in
      let (a, ea, va) =
        read_ack (send_data node_id bytes func_id ∷ rest) p.next_func_id p.log p start in
      let (b, eb, vb) = read_response node_id func_id taken p.next_func_id bytes rest p.log a va in
      let (c, ec, requests, log, timer, count, position) =
        read_status node_id func_id status p.next_func_id bytes rest (write (ack ∷ []) ∷ p.log) b
          vb in
      (c, rw ea (rw eb ec), requests, log, timer, count, position)
