-- ===== src/ZWave/Protocol/Unheard.antt =====
-- What the protocol does while nothing arrives: it tries to send its requests.
use huasi.Prelude.{
  ◌+◌, ◌≡◌, refl, sym, ◌∙◌, ap, ◌⊎◌, inl, inr, List, [], ◌∷◌, ◌++◌, arith, All, All-append,
  append_assoc,
}
use huasi.ZWave.Request.{Request}
use huasi.ZWave.Frame.{tx_frame}
use huasi.ZWave.Protocol.{
  Output, write, on_error, Protocol, send_first, send_front, send_request, give_up, resend_request,
}

-- The frame of a request is written, or a request is dropped because no answer came.
abbrev pub IsTrial : Output → Type 0
IsTrial o = ((r : Request) × (o ≡ write (tx_frame r))) ⊎ (o ≡ on_error 2)

module _ {N : Type 0} where
  -- What a step without a read does.
  pub record Unheard (p q : Protocol N) : Type 0 where
    pub trials : List Output
    pub logged : q.log ≡ trials ++ p.log
    pub only_trials : All IsTrial trials
    pub same_network : q.network ≡ p.network
    pub same_position : q.rx_position ≡ p.rx_position

  pub nothing : (p : Protocol N) → Unheard p p
  nothing p = record {
    trials = [];
    logged = refl;
    only_trials = tt;
    same_network = refl;
    same_position = refl;
  }

  pub both : {p q r : Protocol N} → Unheard p q → Unheard q r → Unheard p r
  both {p} a b = record {
    trials = b.trials ++ a.trials;
    logged =
        b.logged ∙ ap (λ l. b.trials ++ l) a.logged ∙ sym (append_assoc b.trials a.trials p.log);
    only_trials = All-append IsTrial b.trials a.trials b.only_trials a.only_trials;
    same_network = b.same_network ∙ a.same_network;
    same_position = b.same_position ∙ a.same_position;
  }

  send_first-Unheard : (queue : List Request) (p : Protocol N) → Unheard p (send_first queue p)
  unfolding send_first
  send_first-Unheard [] p = record {
    trials = [];
    logged = refl;
    only_trials = tt;
    same_network = refl;
    same_position = refl;
  }
  send_first-Unheard (r ∷ rest) p = record {
    trials = _ ∷ [];
    logged = refl;
    only_trials = (inl (_, refl), tt);
    same_network = refl;
    same_position = refl;
  }

  give_up-Unheard : (queue : List Request) (p : Protocol N) → Unheard p (give_up 2 queue p)
  unfolding give_up
  give_up-Unheard [] p = record {
    trials = [];
    logged = refl;
    only_trials = tt;
    same_network = refl;
    same_position = refl;
  }
  give_up-Unheard (r ∷ rest) p = record {
    trials = on_error 2 ∷ [];
    logged = refl;
    only_trials = (inr refl, tt);
    same_network = refl;
    same_position = refl;
  }

  pub send_request-Unheard : (r : Request) (p : Protocol N) → Unheard p (send_request r p)
  unfolding send_request send_front
  send_request-Unheard r p =
      let after : Protocol N = record p { requests = p.requests ++ r ∷ [] } in
      let put : Unheard p after = record {
        trials = [];
        logged = refl;
        only_trials = tt;
        same_network = refl;
        same_position = refl;
      } in
      ground (arith, put, both put (send_first-Unheard after.requests after))

  pub resend_request-Unheard : (p : Protocol N) → Unheard p (resend_request 2 p)
  unfolding resend_request send_front
  resend_request-Unheard p =
      let tried : Protocol N = record p { tx_retry_count = p.tx_retry_count + 1 } in
      let counted : Unheard p tried = record {
        trials = [];
        logged = refl;
        only_trials = tt;
        same_network = refl;
        same_position = refl;
      } in
      ground (
        arith,
        both counted (send_first-Unheard p.requests tried),
        both counted (give_up-Unheard p.requests tried),
      )
