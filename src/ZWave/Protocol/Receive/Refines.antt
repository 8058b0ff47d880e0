-- ===== src/ZWave/Protocol/Receive/Refines.antt =====
-- Every step of the protocol is a sequence of moves of the line.
use huasi.Prelude.{
  ℕ, zero, suc, ◌+◌, ◌-◌, ◌≡◌, refl, ap, Option, none, some, Bool, false, List, [], ◌∷◌, arith,
  Bytes, length, drop, map, ◌==◌, Bool-cases, inl, inr,
}
use mathlib.Core.Path.{subst}
use huasi.ZWave.Request.{Request}
use huasi.ZWave.Frame.{ack, nack}
use huasi.ZWave.Protocol.{Output, Protocol, Handlers, write, output, send_front}
use huasi.ZWave.Protocol.Run.{Step, submit, receive, expire}
use huasi.ZWave.Protocol.Receive.{
  Round, stop, again, rx_byte, remove_front, cancel_timer, finish_request, returned, on_ack,
  resend_if_any, on_nack, stored, answered, unsolicited, dispatch, handle_frame, complete_frame,
  rx_round, rx_loop, on_read,
}
use huasi.ZWave.Protocol.Line.{nameless, speech, view}
use huasi.Line.{Line, finishes, speaks}
use huasi.Line.Explained.{Explained, unchanged, chain, one-Move}
use huasi.ZWave.Protocol.Line.Sending.{
  send_first_moves, send_request_moves, send_all_moves, resend_request_moves, time_passes_moves,
}

module _ {N : Type 0} where
  -- A frame with a correct checksum is acknowledged first.
  abbrev acked : Protocol N → Protocol N
  acked p = output (write (ack ∷ [])) p

  acked_moves : (p : Protocol N) → Explained speech (view p) (view (acked p))
  acked_moves p = one-Move speech (view (acked p)) (speaks (write (ack ∷ [])) (inl refl)) refl

  finish_request_moves :
      (r : Request) (rest : List Request) (p : Protocol N)
      → p.requests ≡ r ∷ rest
      → Explained speech (view p) (view (finish_request rest (acked p)))
  unfolding finish_request send_front
  finish_request_moves r [] p e =
      one-Move speech (view (finish_request [] (acked p)))
        (finishes (nameless r) [] (write (ack ∷ [])) (ap (map nameless) e) refl) refl
  finish_request_moves r (x ∷ rest) p e =
      let after : Protocol N = record (acked p) {
        timer = false;
        tx_retry_count = 0;
        requests = x ∷ rest;
      } in
      chain
        (one-Move speech (view after)
          (finishes (nameless r) (map nameless (x ∷ rest)) (write (ack ∷ [])) (ap (map nameless) e)
            refl)
          refl)
        (send_first_moves (x ∷ rest) after refl)

  returned_moves :
      (result : N × List Request) (p : Protocol N)
      → Explained speech (view p) (view (returned result p))
  unfolding returned
  returned_moves (n, rs) p = send_all_moves rs (record p { network = n })

  resend_if_any_moves :
      (queue : List Request) (p : Protocol N)
      → Explained speech (view p) (view (resend_if_any queue p))
  unfolding resend_if_any
  resend_if_any_moves [] p = unchanged speech (view p)
  resend_if_any_moves (r ∷ rest) p = resend_request_moves 1 p

  on_nack_moves : (p : Protocol N) → Explained speech (view p) (view (on_nack p))
  unfolding on_nack remove_front
  on_nack_moves p = resend_if_any_moves p.requests (cancel_timer (remove_front 1 p))

module _ {N : Type 0} (h : Handlers N) where
  answered_moves :
      (r : Request) (rest : List Request) (p : Protocol N)
      → p.requests ≡ r ∷ rest
      → Explained speech (view p) (view (answered h r rest (acked p)))
  unfolding answered
  answered_moves r rest p e =
      let bytes = drop 4 p.rx_buffer in
      let size = rx_byte p 1 - 3 in
      let done = finish_request_moves r rest p e in
      let by_response = h.on_response r bytes size p.network in
      let by_transmit = h.on_transmit r bytes size p.network in
      ground (
        arith,
        acked_moves p,
        done,
        chain (acked_moves p) (returned_moves by_response (acked p)),
        chain done (returned_moves by_response (finish_request rest (acked p))),
        chain (acked_moves p) (returned_moves by_transmit (acked p)),
        chain done (returned_moves by_transmit (finish_request rest (acked p))),
      )

  unsolicited_moves : (p : Protocol N) → Explained speech (view p) (view (unsolicited h p))
  unfolding unsolicited
  unsolicited_moves p = ground (
    arith,
    unchanged speech (view p),
    returned_moves (h.on_request (drop 3 p.rx_buffer) (rx_byte p 1 - 2) p.network) p,
  )

  dispatch_moves :
      (queue : List Request) (p : Protocol N)
      → p.requests ≡ queue
      → Explained speech (view p) (view (dispatch h queue (acked p)))
  unfolding dispatch
  dispatch_moves [] p e = chain (acked_moves p) (unsolicited_moves (acked p))
  dispatch_moves (r ∷ rest) p e =
      let other = chain (acked_moves p) (unsolicited_moves (acked p)) in
      ground (arith, answered_moves r rest p e, other)

  -- The line after a round, whether the loop ends or not.
  abbrev RoundMoves : Line Request Output → Round (Protocol N) → Type 0
  RoundMoves a (stop q) = Explained speech a (view q)
  RoundMoves a (again framed q) = Explained speech a (view q)

  handle_frame_moves : (p : Protocol N) → Explained speech (view p) (view (handle_frame h p))
  unfolding handle_frame
  handle_frame_moves p = dispatch_moves p.requests p refl

  complete_frame_moves :
      (framed : Bool) (p : Protocol N) → RoundMoves (view p) (complete_frame h framed p)
  unfolding complete_frame remove_front
  complete_frame_moves framed p =
      let rejected = output (write (nack ∷ [])) p in
      ground (
        arith,
        unchanged speech (view p),
        handle_frame_moves p,
        one-Move speech (view rejected) (speaks (write (nack ∷ [])) (inr refl)) refl,
      )

  rx_round_moves : (framed : Bool) (p : Protocol N) → RoundMoves (view p) (rx_round h framed p)
  unfolding rx_round on_ack remove_front
  rx_round_moves framed p =
      ground (arith, unchanged speech (view p), complete_frame_moves framed p, on_nack_moves p)

  abbrev LoopMoves : Line Request Output → Option (Protocol N) → Type 0
  LoopMoves a none = Unit {0}
  LoopMoves a (some q) = Explained speech a (view q)

  later :
      {a b : Line Request Output} (result : Option (Protocol N))
      → Explained speech a b
      → LoopMoves b result
      → LoopMoves a result
  later none e f = tt
  later (some q) e f = chain e f

  after_round :
      (fuel : ℕ) (a : Line Request Output) (round : Round (Protocol N))
      → RoundMoves a round
      → ((framed : Bool) (q : Protocol N) → LoopMoves (view q) (rx_loop h fuel framed q))
      → LoopMoves a (elim round [ stop q ↦ some q | again framed q ↦ rx_loop h fuel framed q ])
  after_round fuel a (stop q) e rest = e
  after_round fuel a (again framed q) e rest = later (rx_loop h fuel framed q) e (rest framed q)

  rx_loop_moves :
      (fuel : ℕ) (framed : Bool) (p : Protocol N) → LoopMoves (view p) (rx_loop h fuel framed p)
  unfolding rx_loop
  rx_loop_moves zero framed p = tt
  rx_loop_moves (suc fuel) framed p = elim (Bool-cases (p.rx_position == 0)) [
    | inl empty ↦ rw empty (unchanged speech (view p))
    | inr more ↦ rw more (
        after_round fuel (view p) (rx_round h framed p) (rx_round_moves framed p)
          (rx_loop_moves fuel))
  ]

  on_read_moves : (bytes : Bytes) (p : Protocol N) → LoopMoves (view p) (on_read h bytes p)
  unfolding on_read stored
  on_read_moves bytes p = rx_loop_moves (suc (p.rx_position + length bytes)) false (stored bytes p)

  -- A request, a read and a timeout are moves of the line.
  pub Step_moves : {p q : Protocol N} → Step h p q → Explained speech (view p) (view q)
  Step_moves {p} (submit r) = send_request_moves r p
  Step_moves {p} {q} (receive bytes room e) = subst (LoopMoves (view p)) e (on_read_moves bytes p)
  Step_moves {p} expire = time_passes_moves p
