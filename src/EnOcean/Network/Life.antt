-- ===== src/EnOcean/Network/Life.antt =====
-- The network of the controller over its life, from its constructor on.
use huasi.Prelude.{arith}
use huasi.EnOcean.Protocol.{Protocol, send_request, send_first}
use huasi.EnOcean.Protocol.Queue.{IsSound}
use huasi.EnOcean.Protocol.Run.{Reach, IsWell, Reach-IsWell}
use huasi.EnOcean.Network.{started}

started-IsSound : IsSound started
unfolding send_request send_first
started-IsSound = ground arith

started-IsWell : IsWell started
unfolding send_request send_first
started-IsWell = record { sound = started-IsSound; fits = omega arith }

-- As long as each handler of the timer runs as soon as its timer has run out: in every state that the
-- constructor, requests, reads and timeouts bring about, in any order, the queue was never asked for a request that it does not hold, the timer runs only while a request
-- waits, fewer than three attempts are counted, and what was received fits the buffer of 279 bytes.
pub enocean_reached-IsWell : (q : Protocol) → Reach started q → IsWell q
enocean_reached-IsWell q r = Reach-IsWell started-IsWell r
