-- ===== src/EnOcean/Protocol/Delivery.antt =====
-- What the handler of a read does with a frame that arrived whole.
use huasi.Prelude.{
  ◌+◌, ◌≡◌, ◌≢◌, ◌⊎◌, inl, inr, refl, sym, ◌∙◌, ap, some, false, not, List, [], ◌∷◌, ◌++◌, arith,
  Bytes, length, take, drop, get_or, ==_ne, is_empty,
}
use huasi.EnOcean.Protocol.{
  Request, Protocol, Output, write, on_request, on_response, response, tx_frame, data_length,
  optional_length, send_first, send_if_any, unsolicited, dispatch, on_read,
}
use huasi.EnOcean.Protocol.Framing.{
  Fits, data_length-tx_frame, optional_length-tx_frame, read_frame, content_found, optional_found,
}

dispatch_told :
    (rx : Bytes) (queue : List Request) (p : Protocol)
    → (queue ≡ []) ⊎ (get_or rx 4 0 ≢ response)
    → dispatch rx queue p ≡ unsolicited rx p
unfolding dispatch
dispatch_told rx [] p other = refl
dispatch_told rx (r ∷ rest) p (inl none_waits) = cc
dispatch_told rx (r ∷ rest) p (inr other) = rw (==_ne (get_or rx 4 0) response other) refl

-- A frame with data of at most 256 bytes and optional data of at most 16 bytes that arrives at an
-- empty buffer just as sendRequest writes it, while no request waits or as no response: it stops the
-- timer and resets the retry count, the network is told its packet type, its data and its optional
-- data, and the buffer is empty again. Nothing else changes.
pub enocean_on_read_frame :
    (r : Request) (p : Protocol)
    → Fits r
    → p.received ≡ []
    → (p.requests ≡ []) ⊎ (r.packet_type ≢ response)
    → (bytes optional : Bytes) × (on_read (tx_frame r) p
        ≡ some (record p {
          timer = false;
          tx_retry_count = 0;
          received = [];
          log =
              on_request r.packet_type bytes (length r.content) optional (length r.optional_content)
              ∷ p.log;
        }))
      × (take (length r.content) bytes ≡ r.content)
      × (take (length r.optional_content) optional ≡ r.optional_content)
unfolding unsolicited
enocean_on_read_frame r p v e other =
    let rx = tx_frame r in
    let stopped = record p { received = rx; timer = false; tx_retry_count = 0 } in
    (
      drop 6 rx,
      drop (6 + data_length rx) rx,
      read_frame r p v e
          ∙ ap (λ (q : Protocol). some (record q { received = [] }))
              (dispatch_told rx p.requests stopped other)
          ∙ rw (unsolicited, data_length-tx_frame r v, optional_length-tx_frame r v) refl,
      rw (← data_length-tx_frame r v) (content_found r v),
      ap (λ n. take n (drop (6 + data_length rx) rx)) (sym (optional_length-tx_frame r v))
          ∙ optional_found r v,
    )

-- The frames that go out when the first of these requests is sent.
abbrev pub first_frame : List Request → List Output
first_frame [] = []
first_frame (r ∷ rest) = write (tx_frame r) ∷ []

dispatch_answered :
    (rx : Bytes) (first : Request) (rest : List Request) (p : Protocol)
    → get_or rx 4 0 ≡ response
    → p.timer ≡ false
    → dispatch rx (first ∷ rest) p ≡ record p {
      requests = rest;
      timer = not (is_empty rest);
      log =
          first_frame rest
          ++ on_response first
              (drop 6 rx)
              (data_length rx)
              (drop (6 + data_length rx) rx)
              (optional_length rx)
            ∷ p.log;
    }
unfolding dispatch send_if_any send_first
dispatch_answered rx first [] p kind off = ground arith
dispatch_answered rx first (r ∷ rest) p kind off = ground arith

-- Such a frame that is a response, while a request waits: the network gets its data and its optional
-- data as the response to the first request, which leaves the queue, and the next one is sent.
pub enocean_on_read_response :
    (r first : Request) (rest : List Request) (p : Protocol)
    → Fits r
    → p.received ≡ []
    → p.requests ≡ first ∷ rest
    → r.packet_type ≡ response
    → (bytes optional : Bytes) × (on_read (tx_frame r) p
        ≡ some (record p {
          requests = rest;
          timer = not (is_empty rest);
          tx_retry_count = 0;
          received = [];
          log =
              first_frame rest
              ++ on_response first bytes (length r.content) optional (length r.optional_content)
                ∷ p.log;
        }))
      × (take (length r.content) bytes ≡ r.content)
      × (take (length r.optional_content) optional ≡ r.optional_content)
enocean_on_read_response r first rest p v e queue kind =
    let rx = tx_frame r in
    let stopped = record p { received = rx; timer = false; tx_retry_count = 0 } in
    (
      drop 6 rx,
      drop (6 + data_length rx) rx,
      read_frame r p v e
          ∙ ap (λ (q : Protocol). some (record q { received = [] }))
              (ap (λ l. dispatch rx l stopped) queue
                ∙ dispatch_answered rx first rest stopped kind refl)
          ∙ rw (data_length-tx_frame r v, optional_length-tx_frame r v) refl,
      rw (← data_length-tx_frame r v) (content_found r v),
      ap (λ n. take n (drop (6 + data_length rx) rx)) (sym (optional_length-tx_frame r v))
          ∙ optional_found r v,
    )
