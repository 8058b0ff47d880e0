-- ===== src/ZWave/Protocol/Receive/Settled.antt =====
-- What the parts of the handler of a read leave of the queue, of the ids and of what came out.
use huasi.Prelude.{
  ℕ, suc, ◌-◌, ◌≡◌, refl, ap, not, List, [], ◌∷◌, arith, Bytes, take, drop, get_or, is_empty,
}
use huasi.ZWave.Request.{Request}
use huasi.ZWave.Frame.{ack, with_func_id, tx_frame}
use huasi.ZWave.Protocol.{Protocol, Output, write, send_first, send_all}
use huasi.ZWave.Protocol.Receive.{remove_front, stored, on_ack, finish_request, returned}

pub fifth_byte : (n y : ℕ) (xs ys : Bytes) → take (suc n) (drop 4 xs) ≡ y ∷ ys → get_or xs 4 0 ≡ y
fifth_byte n y (a ∷ b ∷ c ∷ d ∷ e ∷ xs) ys h = cc
fifth_byte n y xs ys h = cc

-- Nothing is in the buffer, and this is the queue, the next id and what came out.
pub record Stands {N : Type 0} (requests : List Request) (id : ℕ) (log : List Output)
    (p : Protocol N) : Type 0 where
  pub queue : p.requests ≡ requests
  pub next : p.next_func_id ≡ id
  pub written : p.log ≡ log
  pub empty : p.rx_position ≡ 0

-- What is left of the queue, of the ids and of what came out when the first request has gone and the
-- next one was sent.
abbrev pub sent_next : ℕ → List Request → List Request
sent_next id [] = []
sent_next id (r ∷ rest) = with_func_id id r ∷ rest

abbrev pub log_next : ℕ → List Request → List Output → List Output
log_next id [] log = log
log_next id (r ∷ rest) log = write (tx_frame (with_func_id id r)) ∷ log

module _ {N : Type 0} where
  pub acked-Stands :
      (requests : List Request) (id : ℕ) (log : List Output) (p : Protocol N)
      → Stands requests id log p
      → Stands requests id log (on_ack (stored (ack ∷ []) p))
  unfolding on_ack stored remove_front
  acked-Stands requests id log p v = record {
    queue = v.queue;
    next = v.next;
    written = v.written;
    empty = omega (arith, v.empty);
  }

  pub removed-Stands :
      (size : ℕ) (p : Protocol N)
      → p.rx_position ≡ size
      → Stands p.requests p.next_func_id p.log (remove_front size p)
  unfolding remove_front
  removed-Stands size p e = record {
    queue = refl;
    next = refl;
    written = refl;
    empty = omega arith;
  }

  pub returned_none :
      (result : N × List Request) (p : Protocol N)
      → result.1 ≡ []
      → returned result p ≡ record p { network = result.0 }
  unfolding returned send_all
  returned_none (n, rs) p e = ap (λ l. send_all l (record p { network = n })) e

  pub finish_request_lem :
      (rest : List Request) (p : Protocol N)
      → let q = finish_request rest p in
        (q.requests ≡ sent_next p.next_func_id rest)
        × (q.log ≡ log_next p.next_func_id rest p.log)
        × (q.timer ≡ not (is_empty rest))
        × (q.tx_retry_count ≡ 0)
        × (q.rx_position ≡ p.rx_position)
  unfolding finish_request send_first
  finish_request_lem [] p = (refl, refl, refl, refl, refl)
  finish_request_lem (r ∷ rest) p = (refl, refl, refl, refl, refl)

  pub remove_front_kept :
      (size : ℕ) (p : Protocol N)
      → let q = remove_front size p in
        (q.requests ≡ p.requests)
        × (q.log ≡ p.log)
        × (q.timer ≡ p.timer)
        × (q.tx_retry_count ≡ p.tx_retry_count)
        × (q.rx_position ≡ p.rx_position - size)
  unfolding remove_front
  remove_front_kept size p = (refl, refl, refl, refl, refl)

  pub stored_kept :
      (bytes : Bytes) (p : Protocol N)
      → let q = stored bytes p in
        (q.requests ≡ p.requests) × (q.next_func_id ≡ p.next_func_id) × (q.log ≡ p.log)
  unfolding stored
  stored_kept bytes p = (refl, refl, refl)
