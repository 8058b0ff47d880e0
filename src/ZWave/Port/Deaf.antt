-- ===== src/ZWave/Port/Deaf.antt =====
-- The protocol after a read that failed.
use huasi.Prelude.{ℕ, ◌≡◌, refl, false, [], List, ◌++◌, All}
use huasi.Port.{Port, on_read_error, Reach}
use huasi.Port.Life.{Obeys, deaf_run}
use huasi.ZWave.Protocol.{Output, Protocol, Handlers}
use huasi.ZWave.Protocol.Unheard.{
  IsTrial, Unheard, nothing, both, send_request-Unheard, resend_request-Unheard,
}
use huasi.ZWave.Port.{driver}

module _ {N : Type 0} (h : Handlers N) where
  stopped : (p : Protocol N) → Unheard p (record p { timer = false })
  stopped p = record {
    trials = [];
    logged = refl;
    only_trials = tt;
    same_network = refl;
    same_position = refl;
  }

  trials-Obeys : Obeys (driver h) Unheard
  unfolding huasi.ZWave.Protocol.on_timeout
  trials-Obeys = record {
    same = nothing;
    both = λ p q r before after. both before after;
    sends = send_request-Unheard;
    stops = stopped;
    times_out = resend_request-Unheard;
  }

  -- Once a read has failed, the port never reads again: whatever happens afterwards, the network never
  -- learns anything, and all that comes out are frames of requests and errors that no answer came.
  pub failed_read_deafens :
      (error : ℕ) (p q : Port (Protocol N))
      → Reach (driver h) (on_read_error error p) q
      → (q.reading ≡ false)
        × (q.protocol.network ≡ p.protocol.network)
        × (trials : List Output) × (q.protocol.log ≡ trials ++ p.protocol.log)
        × All IsTrial trials
  unfolding on_read_error
  failed_read_deafens error p q r =
      let (deaf, u) = deaf_run (driver h) Unheard trials-Obeys r refl in
      (deaf, u.same_network, u.trials, u.logged, u.only_trials)
