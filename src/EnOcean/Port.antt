-- ===== src/EnOcean/Port.antt =====
-- Class EnOceanProtocol of src/enocean/EnOceanProtocol.cpp on a port that may fail and a timer that
-- may be late.
pub mod Order
pub mod Late
use huasi.Prelude.{ℕ, suc, ◌+◌, ◌≤◌, false, List, [], ◌∷◌, length}
use huasi.EnOcean.Protocol.{
  Request, Output, write, on_error, on_response, on_request, Protocol, send_request, on_timeout,
  on_read,
}
use huasi.EnOcean.Protocol.Run.{buffer_size}
use huasi.Port.{Driver}

-- How often `async_write` was called.
abbrev pub writes : List Output → ℕ
writes [] = 0
writes (write bytes ∷ log) = suc (writes log)
writes (on_error error ∷ log) = writes log
writes (on_response r bytes length' optional optional_length' ∷ log) = writes log
writes (on_request packet_type' bytes length' optional optional_length' ∷ log) = writes log

abbrev pub driver : Driver Protocol Request
driver = record {
  send_request = send_request;
  Fits = λ bytes p. length p.received + length bytes ≤ buffer_size;
  on_read = on_read;
  timer = λ p. p.timer;
  stop_timer = λ p. record p { timer = false };
  on_timer = on_timeout;
  writes = λ p. writes p.log;
}
