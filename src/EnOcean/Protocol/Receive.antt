-- ===== src/EnOcean/Protocol/Receive.antt =====
-- The handler of a read: it ends, keeps the state sound, and what a foreign frame does.
use huasi.Prelude.{
  ℕ, zero, suc, ◌+◌, ◌≤◌, ◌<◌, ◌≡◌, ◌≢◌, refl, ◌⊎◌, inl, inr, some, true, false, List, [], ◌∷◌,
  ◌++◌, arith, Bytes, length, length-append, length-drop, get_or, leb, Bool-cases,
}
use huasi.EnOcean.Protocol.{
  Request, Protocol, response, send_if_any, send_first, unsolicited, dispatch, complete_frame,
  is_partial, is_header, is_intact, body_length, rx_loop, on_read, time_passes,
}
use huasi.EnOcean.Protocol.Queue.{IsSound}

dispatch-IsSound :
    (rx : Bytes) (queue : List Request) (p : Protocol)
    → p.requests ≡ queue
    → p.timer ≡ false
    → IsSound p
    → IsSound (dispatch rx queue p)
unfolding dispatch unsolicited send_if_any send_first
dispatch-IsSound rx [] p e off v = ground arith
dispatch-IsSound rx (r ∷ []) p e off v = ground arith
dispatch-IsSound rx (r ∷ s ∷ rest) p e off v = ground arith

complete_frame-IsSound : (p : Protocol) → IsSound p → IsSound (complete_frame p)
unfolding complete_frame
complete_frame-IsSound p v =
    let ended = record p { timer = false; tx_retry_count = 0 } in
    let w : IsSound ended = ground arith in
    let u = dispatch-IsSound p.received p.requests ended refl refl w in ground arith

pub complete_frame-shorter :
    (p : Protocol) → 6 < length p.received → length (complete_frame p).received < length p.received
unfolding complete_frame
complete_frame-shorter p h = ground (arith, length-drop (6 + body_length p.received + 1) p.received)

rx_loop_total :
    (fuel : ℕ) (p : Protocol)
    → IsSound p
    → length p.received < fuel
    → (q : Protocol) × (rx_loop fuel p ≡ some q)
      × IsSound q
      × ((length q.received ≤ 6) ⊎ (is_partial q.received ≡ true))
unfolding rx_loop
rx_loop_total zero p v enough = absurd (omega arith)
rx_loop_total (suc fuel) p v enough = elim (Bool-cases (leb (length p.received) 6)) [
  | inl short ↦ (p, rw short, v, inl (ground arith))
  | inr long ↦ rw long (elim (Bool-cases (is_partial p.received)) [
    | inl partial ↦ (p, rw partial, v, inr partial)
    | inr whole ↦ rw whole (elim (Bool-cases (is_header p.received)) [
      | inl valid ↦ rw valid (
          rx_loop_total fuel (complete_frame p) (complete_frame-IsSound p v)
            (let shorter = complete_frame-shorter p (ground arith) in omega arith))
      | inr damaged ↦
          rw damaged (rx_loop_total fuel (record p { received = [] }) (ground arith) (ground arith))
    ])
  ])
]

-- Whatever is read in a sound state, the handler ends with a sound state and leaves at most six
-- bytes or a frame with a correct header that has not arrived whole.
pub enocean_on_read_total :
    (bytes : Bytes) (p : Protocol)
    → IsSound p
    → (q : Protocol) × (on_read bytes p ≡ some q)
      × IsSound q
      × ((length q.received ≤ 6) ⊎ (is_partial q.received ≡ true))
unfolding on_read
enocean_on_read_total bytes p v =
    rx_loop_total (suc (length p.received + length bytes))
      (record p { received = p.received ++ bytes }) (ground arith)
      (omega (arith, length-append p.received bytes))

-- A whole frame that is not a response stops the timer of the request that waits, and that request
-- stays in the queue: no timeout follows, so it is neither sent again nor given up.
pub foreign_frame_stops_timer :
    (r : Request) (rest : List Request) (p : Protocol)
    → p.requests ≡ r ∷ rest
    → is_intact p.received ≡ true
    → get_or p.received 4 0 ≢ response
    → let q = complete_frame p in (q.requests ≡ r ∷ rest) × (q.timer ≡ false) × (time_passes q ≡ q)
unfolding complete_frame dispatch unsolicited time_passes
foreign_frame_stops_timer r rest p e intact foreign = ground arith
