-- ===== src/ZWave/Protocol/Queue.antt =====
-- The queue of requests: what sending, giving up and running out of time keep true.
use huasi.Prelude.{ℕ, ◌≤◌, ◌<◌, ◌≡◌, ◌≢◌, refl, ◌⊎◌, false, List, [], ◌∷◌, arith, length}
use huasi.ZWave.Request.{Request}
use huasi.ZWave.Protocol.{Protocol, send_first, send_request, send_all, resend_request, time_passes}

-- `front()` was never called on the empty queue, and the timer runs only while a request waits. The
-- retry count and the next id are in their ranges, and the buffer has its size.
pub record IsSound {N : Type 0} (p : Protocol N) : Type 0 where
  pub no_fault : p.faulted ≡ false
  pub armed : (p.timer ≡ false) ⊎ (p.requests ≢ [])
  pub retry_bound : p.tx_retry_count < 3
  pub id_low : 1 ≤ p.next_func_id
  pub id_high : p.next_func_id ≤ 255
  pub buffer_size : length p.rx_buffer ≡ 256
  pub position_bound : p.rx_position ≤ 256

module _ {N : Type 0} where
  send_first-IsSound :
      (r : Request) (rest : List Request) (p : Protocol N)
      → IsSound p
      → IsSound (send_first (r ∷ rest) p)
  unfolding send_first
  send_first-IsSound r rest p v = ground arith

  send_request_at :
      (r : Request) (queue : List Request) (p : Protocol N)
      → p.requests ≡ queue
      → IsSound p
      → IsSound (send_request r p)
  unfolding send_request send_first
  send_request_at r [] p e v = ground arith
  send_request_at r (x ∷ xs) p e v = ground arith

  -- Queueing a request keeps the state sound.
  pub send_request-IsSound : (r : Request) (p : Protocol N) → IsSound p → IsSound (send_request r p)
  send_request-IsSound r p v = send_request_at r p.requests p refl v

  pub send_all-IsSound : (rs : List Request) (p : Protocol N) → IsSound p → IsSound (send_all rs p)
  unfolding send_all
  send_all-IsSound [] p v = v
  send_all-IsSound (r ∷ rs) p v =
      send_all-IsSound rs (send_request r p) (send_request-IsSound r p v)

  resend_at :
      (error : ℕ) (queue : List Request) (p : Protocol N)
      → p.requests ≡ queue
      → queue ≢ []
      → p.timer ≡ false
      → IsSound p
      → IsSound (resend_request error p)
  unfolding resend_request
  resend_at error [] p e h off v = absurd (h refl)
  resend_at error (x ∷ xs) p e h off v = ground arith

  -- So does sending the first request again, when the timer stands and a request waits.
  pub resend_request-IsSound :
      (error : ℕ) (p : Protocol N)
      → p.requests ≢ []
      → p.timer ≡ false
      → IsSound p
      → IsSound (resend_request error p)
  resend_request-IsSound error p h off v = resend_at error p.requests p refl h off v

  timeout_at :
      (queue : List Request) (p : Protocol N)
      → p.requests ≡ queue
      → IsSound p
      → IsSound (time_passes p)
  unfolding time_passes
  timeout_at [] p e v = ground arith
  timeout_at (x ∷ xs) p e v = ground arith

  pub time_passes-IsSound : (p : Protocol N) → IsSound p → IsSound (time_passes p)
  time_passes-IsSound p v = timeout_at p.requests p refl v
