-- ===== src/EnOcean/Port/Order.antt =====
-- The order of the requests, whatever fails and however late the timer is.
use huasi.Prelude.{◌≡◌, ◌∙◌, [], ◌++◌}
use huasi.Line.{Moves, Moves-in_order, Moves-asked, left}
use huasi.Line.Explained.{Explained, unchanged, chain}
use huasi.Port.{Port, opened, Reach}
use huasi.Port.Life.{Obeys, reach_obeys}
use huasi.EnOcean.Protocol.{Protocol}
use huasi.EnOcean.Protocol.Serving.{
  speech, view, send_request_moves, resend_request_moves, read_moves,
}
use huasi.EnOcean.Network.{common_command_request, rd_idbase, idle, started}
use huasi.EnOcean.Port.{driver}

abbrev Explains : Protocol → Protocol → Type 0
Explains p q = Explained speech (view p) (view q)

moves-Obeys : Obeys driver Explains
unfolding huasi.EnOcean.Protocol.on_timeout
moves-Obeys = record {
  same = λ p. unchanged speech (view p);
  both = λ p q r before after. chain before after;
  sends = send_request_moves;
  stops = λ p. unchanged speech (view p);
  times_out = resend_request_moves 2;
}

-- Whatever happened at the port since the network was constructed, also if reads or writes failed and
-- if handlers of the timer ran late: what the protocol wrote, reported and handed to the network is a
-- sequence of moves of the line, which starts empty. In it only the first request is sent, and it
-- leaves only when the network gets its response or an error is reported. The requests that
-- sendRequest got are those that left, in this order, and behind them those that wait.
pub enocean_port_in_order :
    (q : Port Protocol)
    → Reach driver (opened started) q
    → (moves : Moves speech (record { asked = []; waiting = []; log = [] }) (view q.protocol))
      × (q.protocol.asked ≡ left moves ++ q.protocol.requests)
enocean_port_in_order q r =
    let first = send_request_moves (common_command_request rd_idbase) idle in
    let later =
      reach_obeys driver Explains moves-Obeys (λ bytes p q' fits e. read_moves bytes p q' e) r in
    let moves = (chain first later).moves in (moves, Moves-asked moves ∙ Moves-in_order moves)
