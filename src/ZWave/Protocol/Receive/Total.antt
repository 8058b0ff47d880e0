-- ===== src/ZWave/Protocol/Receive/Total.antt =====
-- Every read is handled to the end, and keeps the state sound.
use huasi.Prelude.{
  ℕ, zero, suc, ◌+◌, ◌-◌, ◌≤◌, ◌<◌, ◌≡◌, ap, ◌⊎◌, inl, inr, Bool, false, ◌&&◌, List, [], ◌∷◌, ◌++◌,
  Option, some, arith, Bytes, leb, ◌==◌, if◌then◌else◌, length, length-append, length-take,
  length-drop, take, drop, Bool-cases,
}
use huasi.ZWave.Request.{Request}
use huasi.ZWave.Frame.{sof, ack, nack, calc_checksum}
use huasi.ZWave.Protocol.{Protocol, Handlers, write, output}
use huasi.ZWave.Protocol.Queue.{IsSound}
use huasi.ZWave.Protocol.Receive.Sound.{
  SameInput, returned-IsSound, returned-SameInput, answered-IsSound, answered-SameInput,
  output-IsSound, remove_front-IsSound, on_ack-IsSound, on_nack-IsSound, resend_if_any-SameInput,
  emptied-IsSound,
}
use huasi.ZWave.Protocol.Receive.{
  Round, stop, again, rx_byte, remove_front, cancel_timer, unsolicited, dispatch, handle_frame,
  complete_frame, on_ack, on_nack, rx_round, rx_loop, stored, on_read,
}

module _ {N : Type 0} where
  -- The buffer begins with a frame that has not arrived whole.
  abbrev pub IsPartial : Protocol N → Type 0
  IsPartial p =
      (rx_byte p 0 ≡ sof) × ((leb 3 p.rx_position && leb (2 + rx_byte p 1) p.rx_position) ≡ false)

  -- A round ends the loop at a partial frame, with the state as it was, or removes a byte or more.
  abbrev Progress : Protocol N → Round (Protocol N) → Type 0
  Progress p (stop q) = (q ≡ p) × IsPartial p
  Progress p (again framed q) = IsSound q × (q.rx_position < p.rx_position)

  stored-IsSound :
      (bytes : Bytes) (p : Protocol N)
      → IsSound p
      → p.rx_position + length bytes ≤ 256
      → IsSound (stored bytes p)
  unfolding stored
  stored-IsSound bytes p v room = record {
    no_fault = v.no_fault;
    armed = v.armed;
    retry_bound = v.retry_bound;
    id_low = v.id_low;
    id_high = v.id_high;
    buffer_size = omega (
      arith,
      length-append (take p.rx_position p.rx_buffer)
          (bytes ++ drop (p.rx_position + length bytes) p.rx_buffer),
      length-append bytes (drop (p.rx_position + length bytes) p.rx_buffer),
      length-take p.rx_position p.rx_buffer,
      length-drop (p.rx_position + length bytes) p.rx_buffer,
      v.buffer_size,
    );
    position_bound = room;
  }

module _ {N : Type 0} (h : Handlers N) where
  unsolicited-IsSound : (p : Protocol N) → IsSound p → IsSound (unsolicited h p)
  unfolding unsolicited
  unsolicited-IsSound p v =
      ground (
        arith,
        returned-IsSound (h.on_request (drop 3 p.rx_buffer) (rx_byte p 1 - 2) p.network) p v,
      )

  unsolicited-SameInput : (p : Protocol N) → SameInput p (unsolicited h p)
  unfolding unsolicited
  unsolicited-SameInput p =
      ground (
        arith,
        returned-SameInput (h.on_request (drop 3 p.rx_buffer) (rx_byte p 1 - 2) p.network) p,
      )

  dispatch-IsSound :
      (queue : List Request) (p : Protocol N) → IsSound p → IsSound (dispatch h queue p)
  unfolding dispatch
  dispatch-IsSound [] p v = unsolicited-IsSound p v
  dispatch-IsSound (r ∷ rest) p v =
      ground (arith, answered-IsSound h r rest p v, unsolicited-IsSound p v)

  dispatch-SameInput : (queue : List Request) (p : Protocol N) → SameInput p (dispatch h queue p)
  unfolding dispatch
  dispatch-SameInput [] p = unsolicited-SameInput p
  dispatch-SameInput (r ∷ rest) p =
      ground (arith, answered-SameInput h r rest p, unsolicited-SameInput p)

  handle_frame-IsSound : (p : Protocol N) → IsSound p → IsSound (handle_frame h p)
  unfolding handle_frame
  handle_frame-IsSound p v =
      dispatch-IsSound p.requests (output (write (ack ∷ [])) p) (output-IsSound _ p v)

  pub handle_frame-SameInput : (p : Protocol N) → SameInput p (handle_frame h p)
  unfolding handle_frame
  handle_frame-SameInput p = dispatch-SameInput p.requests (output (write (ack ∷ [])) p)

  on_nack_shorter : (p : Protocol N) → 0 < p.rx_position → (on_nack p).rx_position < p.rx_position
  unfolding on_nack remove_front
  on_nack_shorter p some_left =
      omega (arith, (resend_if_any-SameInput p.requests (cancel_timer (remove_front 1 p))).0)

  complete_frame-Progress :
      (framed : Bool) (p : Protocol N)
      → IsSound p
      → 0 < p.rx_position
      → Progress p (complete_frame h framed p)
  unfolding complete_frame remove_front
  complete_frame-Progress framed p v some_left =
      elim (Bool-cases (rx_byte p (1 + n) == calc_checksum (take n (drop 1 p.rx_buffer)))) [
        | inl correct ↦
            rw correct
              (remove_front-IsSound (2 + n) _ (ground (arith, handle_frame-IsSound p v)), shorter)
        | inr wrong ↦
            rw wrong
              (emptied-IsSound (output (write (nack ∷ [])) p) (output-IsSound _ p v), some_left)
      ]
    where
      n : ℕ
      n = rx_byte p 1

      shorter :
          (remove_front (2 + n) (if framed then p else handle_frame h p)).rx_position
          < p.rx_position
      shorter = ground (arith, handle_frame-SameInput p)

  rx_round-Progress :
      (framed : Bool) (p : Protocol N)
      → IsSound p
      → 0 < p.rx_position
      → Progress p (rx_round h framed p)
  unfolding rx_round on_ack remove_front
  rx_round-Progress framed p v some_left = ground (
    arith,
    complete_frame-Progress framed p v some_left,
    on_ack-IsSound p v,
    on_nack-IsSound p v,
    on_nack_shorter p some_left,
    remove_front-IsSound 1 p v,
    emptied-IsSound p v,
  )

  abbrev Ends : Option (Protocol N) → Type 0
  Ends result =
      (q : Protocol N) × (result ≡ some q) × IsSound q × ((q.rx_position ≡ 0) ⊎ IsPartial q)

  after_round :
      (fuel : ℕ) (p : Protocol N)
      → IsSound p
      → p.rx_position < suc fuel
      → (round : Round (Protocol N)) → Progress p round
      → ((framed : Bool) (q : Protocol N)
          → IsSound q
          → q.rx_position < fuel
          → Ends (rx_loop h fuel framed q))
      → Ends (elim round [ stop q ↦ some q | again framed q ↦ rx_loop h fuel framed q ])
  after_round fuel p v enough (stop q) (same, partial) rest = (p, ap some same, v, inr partial)
  after_round fuel p v enough (again framed q) (w, less) rest = rest framed q w (omega arith)

  rx_loop_total :
      (fuel : ℕ) (framed : Bool) (p : Protocol N)
      → IsSound p
      → p.rx_position < fuel
      → (q : Protocol N) × (rx_loop h fuel framed p ≡ some q)
        × IsSound q
        × ((q.rx_position ≡ 0) ⊎ IsPartial q)
  unfolding rx_loop
  rx_loop_total zero framed p v enough = absurd (omega arith)
  rx_loop_total (suc fuel) framed p v enough = elim (Bool-cases (p.rx_position == 0)) [
    | inl empty ↦ (p, rw empty, v, inl (ground arith))
    | inr more ↦ rw more (
        after_round fuel p v enough (rx_round h framed p)
          (rx_round-Progress framed p v (ground arith)) (rx_loop_total fuel))
  ]

  -- Whatever fits the buffer and is read in a sound state, the handler of the read ends, with a
  -- sound state; the buffer is then empty or begins with a frame that has not arrived whole.
  pub on_read_total :
      (bytes : Bytes) (p : Protocol N)
      → IsSound p
      → p.rx_position + length bytes ≤ 256
      → (q : Protocol N) × (on_read h bytes p ≡ some q)
        × IsSound q
        × ((q.rx_position ≡ 0) ⊎ IsPartial q)
  unfolding on_read stored
  on_read_total bytes p v room =
      rx_loop_total (suc (p.rx_position + length bytes)) false (stored bytes p)
        (stored-IsSound bytes p v room) (omega arith)
