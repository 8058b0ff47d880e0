-- ===== src/EnOcean/Protocol/Run.antt =====
-- The protocol over its life: requests, reads and timeouts in any order.
use huasi.Prelude.{
  ℕ, zero, suc, ◌+◌, ◌≤◌, ◌≡◌, refl, Option, none, some, false, List, [], ◌∷◌, ◌++◌, arith, Bytes,
  length, length-append, leb, Bool-cases, inl, inr,
}
use mathlib.Core.Path.{subst}
use huasi.EnOcean.Protocol.{
  Request, Protocol, send_request, send_first, give_up, resend_request, time_passes, complete_frame,
  is_partial, is_header, rx_loop, on_read,
}
use huasi.EnOcean.Protocol.Queue.{IsSound, send_request-IsSound, time_passes-IsSound}
use huasi.EnOcean.Protocol.Receive.{enocean_on_read_total, complete_frame-shorter}

-- The size of the receive buffer.
abbrev pub buffer_size : ℕ
buffer_size = 279

-- A read gives no more bytes than there is room for.
pub data Step (p : Protocol) : Protocol → Type 0 where
  submit : (r : Request) → Step p (send_request r p)
  receive :
      {q : Protocol} (bytes : Bytes)
      → length p.received + length bytes ≤ buffer_size
      → on_read bytes p ≡ some q
      → Step p q
  expire : Step p (time_passes p)

pub data Reach (p : Protocol) : Protocol → Type 0 where
  here : Reach p p
  next : {q r : Protocol} → Reach p q → Step q r → Reach p r

-- The state is sound, and what was received fits the buffer.
pub record IsWell (p : Protocol) : Type 0 where
  pub sound : IsSound p
  pub fits : length p.received ≤ buffer_size

abbrev Within : ℕ → Option Protocol → Type 0
Within n none = Unit {0}
Within n (some q) = length q.received ≤ n

Within-more : (n m : ℕ) (result : Option Protocol) → n ≤ m → Within n result → Within m result
Within-more n m none less h = tt
Within-more n m (some q) less h = omega arith

rx_loop-Within : (fuel : ℕ) (p : Protocol) → Within (length p.received) (rx_loop fuel p)
unfolding rx_loop
rx_loop-Within zero p = tt
rx_loop-Within (suc fuel) p = elim (Bool-cases (leb (length p.received) 6)) [
  | inl short ↦ rw short (omega arith)
  | inr long ↦ rw long (elim (Bool-cases (is_partial p.received)) [
    | inl partial ↦ rw partial (omega arith)
    | inr whole ↦ rw whole (elim (Bool-cases (is_header p.received)) [
      | inl valid ↦ rw valid (
          Within-more (length (complete_frame p).received) (length p.received)
            (rx_loop fuel (complete_frame p))
            (let shorter = complete_frame-shorter p (ground arith) in omega arith)
            (rx_loop-Within fuel (complete_frame p)))
      | inr damaged ↦ rw damaged (
          Within-more 0 (length p.received) (rx_loop fuel (record p { received = [] }))
            (omega arith) (rx_loop-Within fuel (record p { received = [] })))
    ])
  ])
]

send_first_received :
    (queue : List Request) (p : Protocol) → (send_first queue p).received ≡ p.received
unfolding send_first
send_first_received [] p = refl
send_first_received (r ∷ rest) p = refl

give_up_received :
    (error : ℕ) (queue : List Request) (p : Protocol)
    → (give_up error queue p).received ≡ p.received
unfolding give_up
give_up_received error [] p = refl
give_up_received error (r ∷ rest) p = refl

send_request_received : (r : Request) (p : Protocol) → (send_request r p).received ≡ p.received
unfolding send_request
send_request_received r p =
    let queued = record p { asked = p.asked ++ r ∷ []; requests = p.requests ++ r ∷ [] } in
    ground (arith, send_first_received queued.requests queued)

time_passes_received : (p : Protocol) → (time_passes p).received ≡ p.received
unfolding time_passes resend_request
time_passes_received p =
    let tried = record p { tx_retry_count = p.tx_retry_count + 1; timer = false } in
    ground (arith, send_first_received p.requests tried, give_up_received 2 p.requests tried)

on_read-Within :
    (bytes : Bytes) (p : Protocol) → Within (length p.received + length bytes) (on_read bytes p)
unfolding on_read
on_read-Within bytes p =
    let start = record p { received = p.received ++ bytes } in
    Within-more (length start.received) (length p.received + length bytes)
      (rx_loop (suc (length p.received + length bytes)) start)
      (omega (arith, length-append p.received bytes))
      (rx_loop-Within (suc (length p.received + length bytes)) start)

pub Step-IsWell : {p q : Protocol} → Step p q → IsWell p → IsWell q
Step-IsWell {p} (submit r) v = record {
  sound = send_request-IsSound r p v.sound;
  fits = rw (send_request_received r p) v.fits;
}
Step-IsWell {p} {q} (receive bytes room e) v =
    let (q', e', w, _) = enocean_on_read_total bytes p v.sound in
    let same : q' ≡ q = cc in
    let size = subst (Within (length p.received + length bytes)) e (on_read-Within bytes p) in
    record { sound = subst IsSound same w; fits = omega arith }
Step-IsWell {p} expire v = record {
  sound = time_passes-IsSound p v.sound;
  fits = rw (time_passes_received p) v.fits;
}

pub Reach-IsWell : {p q : Protocol} → IsWell p → Reach p q → IsWell q
Reach-IsWell v here = v
Reach-IsWell v (next r s) = Step-IsWell s (Reach-IsWell v r)
