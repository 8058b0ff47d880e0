-- ===== src/ZWave/Protocol/Receive/Sound.antt =====
-- The parts of the handler of a read keep the state sound, and do not touch the buffer.
use huasi.Prelude.{
  ℕ, ◌-◌, ◌≡◌, refl, ◌∙◌, false, List, [], ◌∷◌, ◌++◌, arith, length-append, length-take,
  length-drop, take, drop,
}
use huasi.ZWave.Request.{Request}
use huasi.ZWave.Protocol.{
  Protocol, Handlers, Output, output, send_first, send_front, send_request, send_all, give_up,
  resend_request,
}
use huasi.ZWave.Protocol.Queue.{IsSound, send_all-IsSound, resend_request-IsSound}
use huasi.ZWave.Protocol.Receive.{
  rx_byte, remove_front, cancel_timer, finish_request, returned, answered, on_ack, resend_if_any,
  on_nack,
}

-- What the code between two reads does not touch.
abbrev pub SameInput : {N : Type 0} → Protocol N → Protocol N → Type 0
SameInput p q = (q.rx_position ≡ p.rx_position) × (q.rx_buffer ≡ p.rx_buffer)

module _ {N : Type 0} where
  pub send_first-SameInput :
      (queue : List Request) (p : Protocol N) → SameInput p (send_first queue p)
  unfolding send_first
  send_first-SameInput [] p = (refl, refl)
  send_first-SameInput (r ∷ rest) p = (refl, refl)

  pub send_request-SameInput : (r : Request) (p : Protocol N) → SameInput p (send_request r p)
  unfolding send_request send_front
  send_request-SameInput r p = ground (
    arith,
    send_first-SameInput (p.requests ++ r ∷ []) (record p { requests = p.requests ++ r ∷ [] }),
  )

  pub send_all-SameInput : (rs : List Request) (p : Protocol N) → SameInput p (send_all rs p)
  unfolding send_all
  send_all-SameInput [] p = (refl, refl)
  send_all-SameInput (r ∷ rs) p =
      let (a, b) = send_all-SameInput rs (send_request r p) in
      let (c, d) = send_request-SameInput r p in (a ∙ c, b ∙ d)

  pub returned-SameInput :
      (result : N × List Request) (p : Protocol N) → SameInput p (returned result p)
  unfolding returned
  returned-SameInput (n, rs) p = send_all-SameInput rs (record p { network = n })

  pub returned-IsSound :
      (result : N × List Request) (p : Protocol N) → IsSound p → IsSound (returned result p)
  unfolding returned
  returned-IsSound (n, rs) p v = send_all-IsSound rs (record p { network = n }) (ground arith)

  pub finish_request-SameInput :
      (rest : List Request) (p : Protocol N) → SameInput p (finish_request rest p)
  unfolding finish_request send_first
  finish_request-SameInput [] p = (refl, refl)
  finish_request-SameInput (r ∷ rest) p = (refl, refl)

  pub finish_request-IsSound :
      (rest : List Request) (p : Protocol N) → IsSound p → IsSound (finish_request rest p)
  unfolding finish_request send_first
  finish_request-IsSound [] p v = ground arith
  finish_request-IsSound (r ∷ rest) p v = ground arith

  pub remove_front-IsSound : (n : ℕ) (p : Protocol N) → IsSound p → IsSound (remove_front n p)
  unfolding remove_front
  remove_front-IsSound n p v = record {
    no_fault = v.no_fault;
    armed = v.armed;
    retry_bound = v.retry_bound;
    id_low = v.id_low;
    id_high = v.id_high;
    buffer_size = omega (
      arith,
      length-append (take (p.rx_position - n) (drop n p.rx_buffer))
          (drop (p.rx_position - n) p.rx_buffer),
      length-take (p.rx_position - n) (drop n p.rx_buffer),
      length-drop n p.rx_buffer,
      length-drop (p.rx_position - n) p.rx_buffer,
      v.buffer_size,
      v.position_bound,
    );
    position_bound = omega (arith, v.position_bound);
  }

  pub give_up-SameInput :
      (error : ℕ) (queue : List Request) (p : Protocol N) → SameInput p (give_up error queue p)
  unfolding give_up
  give_up-SameInput error [] p = (refl, refl)
  give_up-SameInput error (r ∷ rest) p = (refl, refl)

  pub resend_request-SameInput :
      (error : ℕ) (queue : List Request) (p : Protocol N)
      → p.requests ≡ queue
      → SameInput p (resend_request error p)
  unfolding resend_request
  resend_request-SameInput error [] p e = ground arith
  resend_request-SameInput error (r ∷ rest) p e = ground arith

  pub resend_if_any-SameInput :
      (queue : List Request) (p : Protocol N) → SameInput p (resend_if_any queue p)
  unfolding resend_if_any
  resend_if_any-SameInput [] p = (refl, refl)
  resend_if_any-SameInput (r ∷ rest) p = resend_request-SameInput 1 p.requests p refl

  pub resend_if_any-IsSound :
      (queue : List Request) (p : Protocol N)
      → p.requests ≡ queue
      → p.timer ≡ false
      → IsSound p
      → IsSound (resend_if_any queue p)
  unfolding resend_if_any
  resend_if_any-IsSound [] p e off v = v
  resend_if_any-IsSound (r ∷ rest) p e off v = resend_request-IsSound 1 p (λ none_left. cc) off v

  pub on_ack-IsSound : (p : Protocol N) → IsSound p → IsSound (on_ack p)
  unfolding on_ack
  on_ack-IsSound p v = let w = remove_front-IsSound 1 p v in ground arith

  pub stopped-IsSound : (p : Protocol N) → IsSound p → IsSound (cancel_timer p)
  stopped-IsSound p v = ground arith

  pub on_nack-IsSound : (p : Protocol N) → IsSound p → IsSound (on_nack p)
  unfolding on_nack remove_front
  on_nack-IsSound p v =
      resend_if_any-IsSound p.requests (cancel_timer (remove_front 1 p)) refl refl
        (stopped-IsSound (remove_front 1 p) (remove_front-IsSound 1 p v))

  pub emptied-IsSound : (p : Protocol N) → IsSound p → IsSound (record p { rx_position = 0 })
  emptied-IsSound p v = ground arith

  pub output-IsSound : (o : Output) (p : Protocol N) → IsSound p → IsSound (output o p)
  output-IsSound o p v = ground arith

module _ {N : Type 0} (h : Handlers N) where
  pub answered-IsSound :
      (r : Request) (rest : List Request) (p : Protocol N)
      → IsSound p
      → IsSound (answered h r rest p)
  unfolding answered
  answered-IsSound r rest p v = ground (
    arith,
    finish_request-IsSound rest p v,
    returned-IsSound (h.on_response r (drop 4 p.rx_buffer) (rx_byte p 1 - 3) p.network) p v,
    returned-IsSound (h.on_response r (drop 4 p.rx_buffer) (rx_byte p 1 - 3) p.network)
        (finish_request rest p),
    returned-IsSound (h.on_transmit r (drop 4 p.rx_buffer) (rx_byte p 1 - 3) p.network)
        (finish_request rest p),
  )

  pub answered-SameInput :
      (r : Request) (rest : List Request) (p : Protocol N) → SameInput p (answered h r rest p)
  unfolding answered
  answered-SameInput r rest p = ground (
    arith,
    finish_request-SameInput rest p,
    returned-SameInput (h.on_response r (drop 4 p.rx_buffer) (rx_byte p 1 - 3) p.network) p,
    returned-SameInput (h.on_response r (drop 4 p.rx_buffer) (rx_byte p 1 - 3) p.network)
        (finish_request rest p),
    returned-SameInput (h.on_transmit r (drop 4 p.rx_buffer) (rx_byte p 1 - 3) p.network)
        (finish_request rest p),
  )
