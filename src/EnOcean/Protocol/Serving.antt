-- ===== src/EnOcean/Protocol/Serving.antt =====
-- The protocol of src/enocean/EnOceanProtocol.cpp as the line of Line.antt, without timers, buffers
-- and retry counts: every step is a sequence of moves of the line.
use huasi.Prelude.{
  ℕ, zero, suc, ◌+◌, ◌≡◌, refl, Option, none, some, Bool, true, false, List, [], ◌∷◌, ◌++◌, arith,
  Bytes, drop, length, leb, Bool-cases, inl, inr,
}
use mathlib.Core.Path.{subst}
use huasi.EnOcean.Protocol.{
  Request, Protocol, Output, write, on_error, on_response, on_request, tx_frame, send_request,
  send_first, give_up, resend_request, send_if_any, unsolicited, dispatch, data_length,
  optional_length, complete_frame, is_partial, is_header, rx_loop, on_read,
}
use huasi.Line.{Line, Speech, joins, transmits, finishes, fails, speaks}
use huasi.Line.Explained.{Explained, unchanged, chain, one-Move}

-- A frame is handed to the network as the response to a request.
abbrev pub IsAnswer : Request → Output → Type 0
IsAnswer r (write bytes) = ⊥
IsAnswer r (on_error error) = ⊥
IsAnswer r (on_response own bytes length' optional optional_length') = own ≡ r
IsAnswer r (on_request packet_type' bytes length' optional optional_length') = ⊥

-- A frame is handed to the network as no response.
abbrev pub told : Output → Bool
told (write bytes) = false
told (on_error error) = false
told (on_response r bytes length' optional optional_length') = false
told (on_request packet_type' bytes length' optional optional_length') = true

-- The frame of the first request is written; frames of the controller are handed to the network, and a
-- response is the one to the first request.
abbrev pub speech : Speech Request Output
speech = record {
  name = λ r. r;
  Sends = λ r o. o ≡ write (tx_frame r);
  Answers = IsAnswer;
  drops = on_error;
  Other = λ o. told o ≡ true;
}

abbrev pub view : Protocol → Line Request Output
view p = record { asked = p.asked; waiting = p.requests; log = p.log }

send_first_moves :
    (queue : List Request) (p : Protocol)
    → p.requests ≡ queue
    → Explained speech (view p) (view (send_first queue p))
unfolding send_first
send_first_moves [] p e = unchanged speech (view p)
send_first_moves (r ∷ rest) p e =
    one-Move speech (view (send_first (r ∷ rest) p)) (transmits r rest (write (tx_frame r)) e refl)
      refl

pub send_request_moves :
    (r : Request) (p : Protocol) → Explained speech (view p) (view (send_request r p))
unfolding send_request
send_request_moves r p =
    let after = record p { asked = p.asked ++ r ∷ []; requests = p.requests ++ r ∷ [] } in
    let put : Explained speech (view p) (view after) =
      one-Move speech (view after) (joins r) refl in
    ground (arith, put, chain put (send_first_moves after.requests after refl))

give_up_moves :
    (error : ℕ) (queue : List Request) (p : Protocol)
    → p.requests ≡ queue
    → Explained speech (view p) (view (give_up error queue p))
unfolding give_up
give_up_moves error [] p e = unchanged speech (view p)
give_up_moves error (r ∷ rest) p e =
    one-Move speech (view (give_up error (r ∷ rest) p)) (fails r rest error e) refl

pub resend_request_moves :
    (error : ℕ) (p : Protocol) → Explained speech (view p) (view (resend_request error p))
unfolding resend_request
resend_request_moves error p =
    let tried = record p { tx_retry_count = p.tx_retry_count + 1 } in
    ground
      (arith, send_first_moves p.requests tried refl, give_up_moves error p.requests tried refl)

send_if_any_moves :
    (queue : List Request) (p : Protocol)
    → p.requests ≡ queue
    → Explained speech (view p) (view (send_if_any queue p))
unfolding send_if_any
send_if_any_moves [] p e = unchanged speech (view p)
send_if_any_moves (r ∷ rest) p e = send_first_moves (r ∷ rest) p e

unsolicited_moves :
    (rx : Bytes) (p : Protocol) → Explained speech (view p) (view (unsolicited rx p))
unfolding unsolicited
unsolicited_moves rx p = one-Move speech (view (unsolicited rx p)) (speaks _ refl) refl

answered_moves :
    (o : Output) (r : Request) (rest : List Request) (p : Protocol)
    → IsAnswer r o
    → p.requests ≡ r ∷ rest
    → Explained speech
        (view p)
        (view (send_if_any rest (record p { requests = rest; log = o ∷ p.log })))
answered_moves o r rest p h e =
    let finished = record p { requests = rest; log = o ∷ p.log } in
    chain (one-Move speech (view finished) (finishes r rest o e h) refl)
      (send_if_any_moves rest finished refl)

dispatch_moves :
    (rx : Bytes) (queue : List Request) (p : Protocol)
    → p.requests ≡ queue
    → Explained speech (view p) (view (dispatch rx queue p))
unfolding dispatch
dispatch_moves rx [] p e = unsolicited_moves rx p
dispatch_moves rx (r ∷ rest) p e =
    let answer =
      on_response r (drop 6 rx) (data_length rx) (drop (6 + data_length rx) rx)
        (optional_length rx) in
    ground (arith, answered_moves answer r rest p refl e, unsolicited_moves rx p)

complete_frame_moves : (p : Protocol) → Explained speech (view p) (view (complete_frame p))
unfolding complete_frame
complete_frame_moves p = ground (
  arith,
  unchanged speech (view p),
  dispatch_moves p.received p.requests (record p { timer = false; tx_retry_count = 0 }) refl,
)

abbrev LoopMoves : Line Request Output → Option Protocol → Type 0
LoopMoves a none = Unit {0}
LoopMoves a (some q) = Explained speech a (view q)

later :
    {a b : Line Request Output} (result : Option Protocol)
    → Explained speech a b
    → LoopMoves b result
    → LoopMoves a result
later none e f = tt
later (some q) e f = chain e f

rx_loop_moves : (fuel : ℕ) (p : Protocol) → LoopMoves (view p) (rx_loop fuel p)
unfolding rx_loop
rx_loop_moves zero p = tt
rx_loop_moves (suc fuel) p = elim (Bool-cases (leb (length p.received) 6)) [
  | inl short ↦ rw short (unchanged speech (view p))
  | inr long ↦ rw long (elim (Bool-cases (is_partial p.received)) [
    | inl partial ↦ rw partial (unchanged speech (view p))
    | inr whole ↦ rw whole (elim (Bool-cases (is_header p.received)) [
      | inl valid ↦ rw valid (
          later (rx_loop fuel (complete_frame p)) (complete_frame_moves p)
            (rx_loop_moves fuel (complete_frame p)))
      | inr damaged ↦ rw damaged (rx_loop_moves fuel (record p { received = [] }))
    ])
  ])
]

on_read_moves : (bytes : Bytes) (p : Protocol) → LoopMoves (view p) (on_read bytes p)
unfolding on_read
on_read_moves bytes p =
    rx_loop_moves (suc (length p.received + length bytes))
      (record p { received = p.received ++ bytes })

-- What a read makes is a sequence of moves of the line.
pub read_moves :
    (bytes : Bytes) (p q : Protocol) → on_read bytes p ≡ some q → Explained speech (view p) (view q)
read_moves bytes p q e = subst (LoopMoves (view p)) e (on_read_moves bytes p)
