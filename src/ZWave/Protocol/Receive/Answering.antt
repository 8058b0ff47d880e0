-- ===== src/ZWave/Protocol/Receive/Answering.antt =====
-- The response that ends a request procedure.
use huasi.Prelude.{
  ◌-◌, ◌≤◌, ◌≡◌, refl, ◌∙◌, ap, some, none, List, [], ◌∷◌, ◌++◌, arith, Bytes, length, drop,
}
use huasi.ZWave.Request.{Request, function, func_id?}
use huasi.ZWave.Frame.{ack, response_frame, with_func_id, frame}
use huasi.ZWave.Protocol.{
  Protocol, Handlers, write, output, send_request, send_all, send_front, send_first,
}
use huasi.ZWave.Protocol.Retry.{send_all_waiting}
use huasi.ZWave.Protocol.Receive.{
  rx_byte, stored, remove_front, returned, finish_request, handle_frame, dispatch, answered,
  is_plain, carries, on_read,
}
use huasi.ZWave.Protocol.Receive.Framing.{Holds, on_read-frame}

module _ {N : Type 0} where
  send_all_later :
      (r : Request) (rs : List Request) (p : Protocol N)
      → p.requests ≡ r ∷ []
      → (send_all rs p).requests ≡ r ∷ rs
  send_all_later r rs p e =
      ap (λ (q : Protocol N). q.requests) (send_all_waiting rs p (λ none_left. cc))
      ∙ ap (λ l. l ++ rs) e

  -- An idle protocol sends the first of several requests, and the others wait behind it.
  pub send_all_idle :
      (r : Request) (rs : List Request) (p : Protocol N)
      → p.requests ≡ []
      → (send_all (r ∷ rs) p).requests ≡ with_func_id p.next_func_id r ∷ rs
  unfolding send_all send_request send_front send_first
  send_all_idle r rs p e =
      send_all_later (with_func_id p.next_func_id r) rs (send_request r p) (ground arith)

module _ {N : Type 0} (h : Handlers N) where
  handle_response :
      (r : Request) (p : Protocol N)
      → p.requests ≡ r ∷ []
      → func_id? r ≡ none
      → rx_byte p 3 ≡ function r
      → rx_byte p 2 ≡ response_frame
      → handle_frame h p
        ≡ returned
            (h.on_response r (drop 4 p.rx_buffer) (rx_byte p 1 - 3) p.network)
            (finish_request [] (output (write (ack ∷ [])) p))
  unfolding handle_frame dispatch answered is_plain carries
  handle_response r p e plain called kind = ground arith

  -- A response to the only request, that is no SendRequest, ends its procedure. The requests that its
  -- handler returns are queued in their order; the handler gets the content, with what is behind it.
  pub response_requests :
      (r : Request) (content : Bytes) (p : Protocol N)
      → p.requests ≡ r ∷ []
      → func_id? r ≡ none
      → p.rx_position ≡ 0
      → length content ≤ 251
      → let p' = stored (frame response_frame (function r) content) p in
        let result = h.on_response r (drop 4 p'.rx_buffer) (length content) p.network in
        (q : Protocol N) × (on_read h (frame response_frame (function r) content) p ≡ some q)
        × (q.requests
            ≡ (send_all result.1 (record (finish_request [] (output (write (ack ∷ [])) p')) {
              network = result.0;
            })).requests)
        × Holds response_frame (function r) content p'
  unfolding stored remove_front returned
  response_requests r content p e plain empty short =
      let p' = stored (frame response_frame (function r) content) p in
      let (holds, reads) = on_read-frame h response_frame (function r) content p empty short in
      let size : rx_byte p' 1 - 3 ≡ length content = omega (arith, holds.size) in
      let handled = handle_response r p' e plain holds.called holds.kind in
      (
        _,
        reads,
        ap (λ (q : Protocol N). q.requests) handled
            ∙ ap
                (λ n.
                  (returned (h.on_response r (drop 4 p'.rx_buffer) n p.network)
                    (finish_request [] (output (write (ack ∷ [])) p'))).requests)
                size,
        holds,
      )

pub finish_request_idle : {N : Type 0} (p : Protocol N) → (finish_request [] p).requests ≡ []
unfolding finish_request
finish_request_idle p = refl
