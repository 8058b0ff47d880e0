-- ===== src/ZWave/Protocol/Retry.antt =====
-- What becomes of a request that the controller does not acknowledge, and of those behind it.
use huasi.Prelude.{
  ◌≡◌, ◌≢◌, refl, ◌∙◌, ap, true, false, List, [], ◌∷◌, ◌++◌, append-nil, append_assoc, arith,
  length-append,
}
use mathlib.Core.List.{concat-ne-nil}
use huasi.ZWave.Request.{Request}
use huasi.ZWave.Frame.{with_func_id, tx_frame}
use huasi.ZWave.Protocol.{
  Protocol, write, on_error, id_after, send_request, send_all, resend_request, time_passes,
}

module _ {N : Type 0} where
  -- A request that was sent once and meets three timeouts is sent twice more, with a new id each
  -- time if it is a SendRequest. Then it leaves the queue and error 2 is reported; the next request
  -- is not sent and the timer stands.
  pub on_timeout_thrice :
      (r : Request) (rest : List Request) (p : Protocol N)
      → p.requests ≡ r ∷ rest
      → p.timer ≡ true
      → p.tx_retry_count ≡ 0
      → let q = time_passes (time_passes (time_passes p)) in
        let second = with_func_id p.next_func_id r in
        let third = with_func_id (id_after r p.next_func_id) second in
        (q.requests ≡ rest)
        × (q.timer ≡ false)
        × (q.tx_retry_count ≡ 0)
        × (q.log ≡ on_error 2 ∷ write (tx_frame third) ∷ write (tx_frame second) ∷ p.log)
  unfolding time_passes
  on_timeout_thrice r rest p e on fresh = ground arith

  send_waiting :
      (r : Request) (p : Protocol N)
      → p.requests ≢ []
      → send_request r p ≡ record p { asked = p.asked ++ r ∷ []; requests = p.requests ++ r ∷ [] }
  unfolding send_request
  send_waiting r p h = go p.requests refl
    where
      go :
          (queue : List Request)
          → p.requests ≡ queue
          → send_request r p
            ≡ record p { asked = p.asked ++ r ∷ []; requests = p.requests ++ r ∷ [] }
      go [] e = absurd (h e)
      go (x ∷ xs) e = ground (arith, length-append xs (r ∷ []))

  -- While a request waits, further requests are queued behind it in their order and nothing else
  -- happens: so a queue whose timer stands is not served, however many requests come, and no timer
  -- runs out.
  pub send_all_waiting :
      (rs : List Request) (p : Protocol N)
      → p.requests ≢ []
      → send_all rs p ≡ record p { asked = p.asked ++ rs; requests = p.requests ++ rs }
  unfolding send_all
  send_all_waiting [] p h = rw (append-nil p.requests, append-nil p.asked)
  send_all_waiting (r ∷ rs) p h = rw (send_waiting r p h) (
      send_all_waiting rs (record p { asked = p.asked ++ r ∷ []; requests = p.requests ++ r ∷ [] })
        (concat-ne-nil r p.requests)
      ∙ rw (append_assoc p.requests (r ∷ []) rs, append_assoc p.asked (r ∷ []) rs))

  time_passes_stopped : (p : Protocol N) → p.timer ≡ false → time_passes p ≡ p
  unfolding time_passes
  time_passes_stopped p off = ground arith

  -- Once a request is given up with another one behind it, the queue is stalled: whatever requests
  -- follow, nothing is written, no error is reported, the timer stands, and no timeout occurs.
  pub give_up_stalls :
      (r s : Request) (rest rs : List Request) (p : Protocol N)
      → p.requests ≡ r ∷ s ∷ rest
      → p.timer ≡ true
      → p.tx_retry_count ≡ 0
      → let q = time_passes (time_passes (time_passes p)) in
        let z = send_all rs q in
        (z.requests ≡ (s ∷ rest) ++ rs) × (z.timer ≡ false) × (z.log ≡ q.log) × (time_passes z ≡ z)
  give_up_stalls r s rest rs p e on fresh =
      let q = time_passes (time_passes (time_passes p)) in
      let (left, off, _, _) = on_timeout_thrice r (s ∷ rest) p e on fresh in
      let waiting : q.requests ≢ [] = λ none_left. cc in
      rw (send_all_waiting rs q waiting)
        (ap (λ l. l ++ rs) left, off, refl, time_passes_stopped _ off)

  -- A timeout with no request takes the first one of the empty queue.
  pub resend_nothing :
      (p : Protocol N)
      → p.requests ≡ []
      → ((resend_request 2 p).faulted ≡ true) × ((resend_request 2 p).requests ≡ [])
  unfolding resend_request
  resend_nothing p e = ground arith
