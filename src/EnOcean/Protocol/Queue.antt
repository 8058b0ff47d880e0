-- ===== src/EnOcean/Protocol/Queue.antt =====
-- The queue of requests, its timer, and what stalls it.
use huasi.Prelude.{◌<◌, ◌≡◌, ◌≢◌, refl, ◌⊎◌, true, false, List, [], ◌∷◌, arith}
use huasi.EnOcean.Protocol.{
  Request, Protocol, write, on_error, tx_frame, send_first, send_request, give_up, resend_request,
  time_passes,
}

-- `front()` was never called on the empty queue, the timer runs only while a request waits, and
-- fewer than three attempts are counted.
pub record IsSound (p : Protocol) : Type 0 where
  pub no_fault : p.faulted ≡ false
  pub armed : (p.timer ≡ false) ⊎ (p.requests ≢ [])
  pub retry_bound : p.tx_retry_count < 3

send_at :
    (r : Request) (queue : List Request) (p : Protocol)
    → p.requests ≡ queue
    → IsSound p
    → IsSound (send_request r p)
unfolding send_request send_first
send_at r [] p e v = ground arith
send_at r (x ∷ xs) p e v = ground arith

pub send_request-IsSound : (r : Request) (p : Protocol) → IsSound p → IsSound (send_request r p)
send_request-IsSound r p v = send_at r p.requests p refl v

timeout_at :
    (queue : List Request) (p : Protocol) → p.requests ≡ queue → IsSound p → IsSound (time_passes p)
unfolding time_passes resend_request send_first give_up
timeout_at [] p e v = ground arith
timeout_at (x ∷ xs) p e v = ground arith

pub time_passes-IsSound : (p : Protocol) → IsSound p → IsSound (time_passes p)
time_passes-IsSound p v = timeout_at p.requests p refl v

-- A request that was sent once and meets three timeouts is sent twice more. Then it leaves the
-- queue and error 2 is reported; the next request is not sent, the timer stands, and no timeout
-- follows.
pub enocean_gives_up :
    (r : Request) (rest : List Request) (p : Protocol)
    → p.requests ≡ r ∷ rest
    → p.timer ≡ true
    → p.tx_retry_count ≡ 0
    → let q = time_passes (time_passes (time_passes p)) in
      (q.requests ≡ rest)
      × (q.timer ≡ false)
      × (q.log ≡ on_error 2 ∷ write (tx_frame r) ∷ write (tx_frame r) ∷ p.log)
      × (time_passes q ≡ q)
unfolding time_passes resend_request send_first give_up
enocean_gives_up r rest p e on fresh = ground arith
