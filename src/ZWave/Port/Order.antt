-- ===== src/ZWave/Port/Order.antt =====
-- The order of the requests, whatever fails and however late the timer is.
use huasi.Prelude.{◌≡◌, ◌∙◌, [], ◌++◌, Bytes, map}
use huasi.Line.{Moves, Moves-in_order, Moves-asked, left}
use huasi.Line.Explained.{Explained, unchanged, chain}
use huasi.Port.{Port, opened, Reach}
use huasi.Port.Life.{Obeys, reach_obeys}
use huasi.ZWave.Protocol.{Protocol, Handlers}
use huasi.ZWave.Protocol.Run.{started, receive}
use huasi.ZWave.Protocol.Line.{nameless, speech, view}
use huasi.ZWave.Protocol.Line.Sending.{send_request_moves, resend_request_moves}
use huasi.ZWave.Protocol.Receive.Refines.{Step_moves}
use huasi.ZWave.Port.{driver}

module _ {N : Type 0} (h : Handlers N) where
  abbrev Explains : Protocol N → Protocol N → Type 0
  Explains p q = Explained speech (view p) (view q)

  moves-Obeys : Obeys (driver h) Explains
  unfolding huasi.ZWave.Protocol.on_timeout
  moves-Obeys = record {
    same = λ p. unchanged speech (view p);
    both = λ p q r before after. chain before after;
    sends = send_request_moves;
    stops = λ p. unchanged speech (view p);
    times_out = resend_request_moves 2;
  }

  -- Whatever happened at the port since it was opened, also if reads or writes failed and if handlers
  -- of the timer ran late: what the protocol wrote and reported is a sequence of moves of the line,
  -- which starts empty. In it only the first request is sent, and it leaves only when a frame is
  -- acknowledged or an error is reported. The requests that sendRequest got, but for their ids, are
  -- those that left, in this order, and behind them those that wait.
  pub port_in_order :
      (memory : Bytes) (network : N) (q : Port (Protocol N))
      → Reach (driver h) (opened (started memory network)) q
      → (moves : Moves speech (record { asked = []; waiting = []; log = [] }) (view q.protocol))
        × (map nameless q.protocol.asked ≡ left moves ++ map nameless q.protocol.requests)
  unfolding started
  port_in_order memory network q r =
      let e =
        reach_obeys (driver h) Explains moves-Obeys
          (λ bytes p q' fits e. Step_moves h (receive bytes fits e)) r in
      (e.moves, Moves-asked e.moves ∙ Moves-in_order e.moves)
