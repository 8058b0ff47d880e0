-- ===== src/ZWave/Protocol/Line/Sending.antt =====
-- Queueing, sending, giving up and running out of time are moves of the line.
use huasi.Prelude.{ℕ, ◌+◌, ◌≡◌, refl, sym, ap, false, List, [], ◌∷◌, ◌++◌, arith, map}
use huasi.ZWave.Request.{Request, discover_nodes, get_node_info, send_data}
use huasi.ZWave.Frame.{with_func_id, tx_frame}
use huasi.ZWave.Protocol.{
  Protocol, write, send_first, send_front, send_request, send_all, give_up, resend_request,
  time_passes,
}
use huasi.Line.{joins, transmits, fails}
use huasi.Line.Explained.{Explained, unchanged, chain, one-Move}
use huasi.ZWave.Protocol.Line.{nameless, speech, view}

nameless_again : (id : ℕ) (r : Request) → nameless (with_func_id id r) ≡ nameless r
unfolding with_func_id
nameless_again id discover_nodes = refl
nameless_again id (get_node_info i) = refl
nameless_again id (send_data i bytes old) = refl

renamed : (id : ℕ) (r : Request) → with_func_id id (nameless r) ≡ with_func_id id r
unfolding with_func_id
renamed id discover_nodes = refl
renamed id (get_node_info i) = refl
renamed id (send_data i bytes old) = refl

map-append_one :
    (r : Request) (queue : List Request)
    → map nameless (queue ++ r ∷ []) ≡ map nameless queue ++ nameless r ∷ []
map-append_one r [] = refl
map-append_one r (x ∷ queue) = ap (λ l. nameless x ∷ l) (map-append_one r queue)

module _ {N : Type 0} where
  pub send_first_moves :
      (queue : List Request) (p : Protocol N)
      → p.requests ≡ queue
      → Explained speech (view p) (view (send_first queue p))
  unfolding send_first
  send_first_moves [] p e = unchanged speech (view p)
  send_first_moves (r ∷ rest) p e =
      one-Move speech (view (send_first (r ∷ rest) p))
        (transmits (nameless r) (map nameless rest)
          (write (tx_frame (with_func_id p.next_func_id r))) (ap (map nameless) e)
          (p.next_func_id, ap (λ x. write (tx_frame x)) (sym (renamed p.next_func_id r))))
        (ground (arith, e, renamed p.next_func_id r, nameless_again p.next_func_id r))

  pub send_request_moves :
      (r : Request) (p : Protocol N) → Explained speech (view p) (view (send_request r p))
  unfolding send_request send_front
  send_request_moves r p =
      let after : Protocol N = record p {
        asked = p.asked ++ r ∷ [];
        requests = p.requests ++ r ∷ [];
      } in
      let put : Explained speech (view p) (view after) =
        one-Move speech (view after) (joins r)
          (ground (arith, map-append_one r p.requests, map-append_one r p.asked)) in
      ground (arith, put, chain put (send_first_moves after.requests after refl))

  pub send_all_moves :
      (rs : List Request) (p : Protocol N) → Explained speech (view p) (view (send_all rs p))
  unfolding send_all
  send_all_moves [] p = unchanged speech (view p)
  send_all_moves (r ∷ rs) p = chain (send_request_moves r p) (send_all_moves rs (send_request r p))

  give_up_moves :
      (error : ℕ) (queue : List Request) (p : Protocol N)
      → p.requests ≡ queue
      → Explained speech (view p) (view (give_up error queue p))
  unfolding give_up
  give_up_moves error [] p e = unchanged speech (view p)
  give_up_moves error (r ∷ rest) p e =
      one-Move speech (view (give_up error (r ∷ rest) p))
        (fails (nameless r) (map nameless rest) error (ap (map nameless) e)) refl

  pub resend_request_moves :
      (error : ℕ) (p : Protocol N) → Explained speech (view p) (view (resend_request error p))
  unfolding resend_request send_front
  resend_request_moves error p =
      let tried : Protocol N = record p { tx_retry_count = p.tx_retry_count + 1 } in
      ground
        (arith, send_first_moves p.requests tried refl, give_up_moves error p.requests tried refl)

  pub time_passes_moves : (p : Protocol N) → Explained speech (view p) (view (time_passes p))
  unfolding time_passes
  time_passes_moves p =
      ground (arith, unchanged speech (view p), resend_request_moves 2 (record p { timer = false }))
