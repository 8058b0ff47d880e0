-- ===== src/ZWave/Protocol/Receive/Subclass.antt =====
-- The protocol leaves the state of its subclass to the virtual methods.
use huasi.Prelude.{
  ℕ, zero, suc, ◌+◌, ◌-◌, ◌≡◌, refl, sym, ◌∙◌, Option, none, some, Bool, false, List, [], ◌∷◌, ◌++◌,
  arith, Bytes, length, drop, ◌==◌, Bool-cases, inl, inr,
}
use mathlib.Core.Path.{subst}
use huasi.ZWave.Request.{Request}
use huasi.ZWave.Frame.{ack, nack}
use huasi.ZWave.Protocol.{
  Protocol, Handlers, write, output, send_first, send_front, send_request, send_all, give_up,
  resend_request, time_passes,
}
use huasi.ZWave.Protocol.Run.{Step, submit, receive, expire}
use huasi.ZWave.Protocol.Receive.{
  Round, stop, again, rx_byte, remove_front, cancel_timer, finish_request, returned, on_ack,
  resend_if_any, on_nack, stored, answered, unsolicited, dispatch, handle_frame, complete_frame,
  rx_round, rx_loop, on_read,
}

module _ {N : Type 0} where
  send_first_network :
      (queue : List Request) (p : Protocol N) → (send_first queue p).network ≡ p.network
  unfolding send_first
  send_first_network [] p = refl
  send_first_network (r ∷ rest) p = refl

  send_request_network : (r : Request) (p : Protocol N) → (send_request r p).network ≡ p.network
  unfolding send_request send_front
  send_request_network r p =
      let queued : Protocol N = record p { requests = p.requests ++ r ∷ [] } in
      ground (arith, send_first_network queued.requests queued)

  pub send_all_network : (rs : List Request) (p : Protocol N) → (send_all rs p).network ≡ p.network
  unfolding send_all
  send_all_network [] p = refl
  send_all_network (r ∷ rs) p = send_all_network rs (send_request r p) ∙ send_request_network r p

  give_up_network :
      (error : ℕ) (queue : List Request) (p : Protocol N)
      → (give_up error queue p).network ≡ p.network
  unfolding give_up
  give_up_network error [] p = refl
  give_up_network error (r ∷ rest) p = refl

  resend_request_network :
      (error : ℕ) (p : Protocol N) → (resend_request error p).network ≡ p.network
  unfolding resend_request send_front
  resend_request_network error p =
      let tried : Protocol N = record p { tx_retry_count = p.tx_retry_count + 1 } in
      ground (arith, send_first_network p.requests tried, give_up_network error p.requests tried)

  time_passes_network : (p : Protocol N) → (time_passes p).network ≡ p.network
  unfolding time_passes
  time_passes_network p = ground (arith, resend_request_network 2 (record p { timer = false }))

  finish_request_network :
      (rest : List Request) (p : Protocol N) → (finish_request rest p).network ≡ p.network
  unfolding finish_request send_front
  finish_request_network [] p = refl
  finish_request_network (r ∷ rest) p =
      send_first_network (r ∷ rest)
        (record p { timer = false; tx_retry_count = 0; requests = r ∷ rest })

  returned_network :
      (result : N × List Request) (p : Protocol N) → (returned result p).network ≡ result.0
  unfolding returned
  returned_network (n, rs) p = send_all_network rs (record p { network = n })

  on_nack_network : (p : Protocol N) → (on_nack p).network ≡ p.network
  unfolding on_nack remove_front resend_if_any
  on_nack_network p = go p.requests (cancel_timer (remove_front 1 p))
    where
      go : (queue : List Request) (q : Protocol N) → (resend_if_any queue q).network ≡ q.network
      go [] q = refl
      go (r ∷ rest) q = resend_request_network 1 q

-- A property of the subclass that its virtual methods keep.
pub record IsKept {N : Type 0} (h : Handlers N) (P : N → Type 0) : Type 0 where
  pub by_response :
      (r : Request) (bytes : Bytes) (size : ℕ) (n : N) → P n → P (h.on_response r bytes size n).0
  pub by_transmit :
      (r : Request) (bytes : Bytes) (size : ℕ) (n : N) → P n → P (h.on_transmit r bytes size n).0
  pub by_request : (bytes : Bytes) (size : ℕ) (n : N) → P n → P (h.on_request bytes size n).0

-- The subclass of a protocol has the property.
record Has {N : Type 0} (P : N → Type 0) (p : Protocol N) : Type 0 where
  has : P p.network

module _ {N : Type 0} (h : Handlers N) (P : N → Type 0) (kept : IsKept h P) where
  moved : (p q : Protocol N) → q.network ≡ p.network → Has P p → Has P q
  moved p q e v = record { has = subst P (sym e) v.has }

  returned_keeps :
      (result : N × List Request) (p : Protocol N) → P result.0 → Has P (returned result p)
  returned_keeps result p v = record { has = subst P (sym (returned_network result p)) v }

  removed : (n : ℕ) (p : Protocol N) → Has P p → Has P (remove_front n p)
  unfolding remove_front
  removed n p v = record { has = v.has }

  acked : (p : Protocol N) → Has P p → Has P (on_ack p)
  unfolding on_ack remove_front
  acked p v = record { has = v.has }

  answered_keeps :
      (r : Request) (rest : List Request) (p : Protocol N) → Has P p → Has P (answered h r rest p)
  unfolding answered
  answered_keeps r rest p v =
      let bytes = drop 4 p.rx_buffer in
      let size = rx_byte p 1 - 3 in
      let by_response = kept.by_response r bytes size p.network v.has in
      let by_transmit = kept.by_transmit r bytes size p.network v.has in
      ground (
        arith,
        v,
        moved p (finish_request rest p) (finish_request_network rest p) v,
        returned_keeps (h.on_response r bytes size p.network) p by_response,
        returned_keeps (h.on_response r bytes size p.network) (finish_request rest p) by_response,
        returned_keeps (h.on_transmit r bytes size p.network) p by_transmit,
        returned_keeps (h.on_transmit r bytes size p.network) (finish_request rest p) by_transmit,
      )

  unsolicited_keeps : (p : Protocol N) → Has P p → Has P (unsolicited h p)
  unfolding unsolicited
  unsolicited_keeps p v =
      let bytes = drop 3 p.rx_buffer in
      let size = rx_byte p 1 - 2 in
      ground (
        arith,
        v,
        returned_keeps (h.on_request bytes size p.network) p
            (kept.by_request bytes size p.network v.has),
      )

  dispatch_keeps : (queue : List Request) (p : Protocol N) → Has P p → Has P (dispatch h queue p)
  unfolding dispatch
  dispatch_keeps [] p v = unsolicited_keeps p v
  dispatch_keeps (r ∷ rest) p v = ground (arith, answered_keeps r rest p v, unsolicited_keeps p v)

  abbrev Keeps : Round (Protocol N) → Type 0
  Keeps (stop q) = Has P q
  Keeps (again framed q) = Has P q

  complete_frame-Keeps :
      (framed : Bool) (p : Protocol N) → Has P p → Keeps (complete_frame h framed p)
  unfolding complete_frame handle_frame
  complete_frame-Keeps framed p v =
      let acked = output (write (ack ∷ [])) p in
      let rejected : Protocol N = record (output (write (nack ∷ [])) p) { rx_position = 0 } in
      let handled = dispatch_keeps p.requests acked (moved p acked refl v) in
      ground (
        arith,
        removed (2 + rx_byte p 1) p v,
        removed (2 + rx_byte p 1) (handle_frame h p) handled,
        moved p rejected refl v,
      )

  rx_round-Keeps : (framed : Bool) (p : Protocol N) → Has P p → Keeps (rx_round h framed p)
  unfolding rx_round
  rx_round-Keeps framed p v = ground (
    arith,
    v,
    complete_frame-Keeps framed p v,
    acked p v,
    moved p (on_nack p) (on_nack_network p) v,
    removed 1 p v,
    moved p (record p { rx_position = 0 }) refl v,
  )

  abbrev KeepsIf : Option (Protocol N) → Type 0
  KeepsIf none = Unit {0}
  KeepsIf (some q) = Has P q

  after_round :
      (fuel : ℕ) (round : Round (Protocol N))
      → Keeps round
      → ((framed : Bool) (q : Protocol N) → Has P q → KeepsIf (rx_loop h fuel framed q))
      → KeepsIf (elim round [ stop q ↦ some q | again framed q ↦ rx_loop h fuel framed q ])
  after_round fuel (stop q) v rest = v
  after_round fuel (again framed q) v rest = rest framed q v

  rx_loop_keeps :
      (fuel : ℕ) (framed : Bool) (p : Protocol N) → Has P p → KeepsIf (rx_loop h fuel framed p)
  unfolding rx_loop
  rx_loop_keeps zero framed p v = tt
  rx_loop_keeps (suc fuel) framed p v = elim (Bool-cases (p.rx_position == 0)) [
    | inl empty ↦ rw empty v
    | inr more ↦
        rw more
          (after_round fuel (rx_round h framed p) (rx_round-Keeps framed p v) (rx_loop_keeps fuel))
  ]

  on_read_keeps : (bytes : Bytes) (p : Protocol N) → Has P p → KeepsIf (on_read h bytes p)
  unfolding on_read stored
  on_read_keeps bytes p v =
      rx_loop_keeps (suc (p.rx_position + length bytes)) false (stored bytes p)
        (record { has = v.has })

  Step_keeps : {p q : Protocol N} → Step h p q → Has P p → Has P q
  Step_keeps {p} (submit r) v = moved p _ (send_request_network r p) v
  Step_keeps {p} {q} (receive bytes room e) v = subst KeepsIf e (on_read_keeps bytes p v)
  Step_keeps {p} expire v = moved p _ (time_passes_network p) v

  -- A property that the virtual methods keep is kept by every step of the protocol.
  pub Step_keeps_network : {p q : Protocol N} → Step h p q → P p.network → P q.network
  Step_keeps_network s v = (Step_keeps s (record { has = v })).has
