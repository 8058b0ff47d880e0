-- ===== src/ZWave/Port.antt =====
-- Class ZWaveProtocol of src/zwave/ZWaveProtocol.cpp on a port that may fail and a timer that may be
-- late.
pub mod Order
pub mod Late
pub mod Deaf
use huasi.Prelude.{ℕ, suc, ◌+◌, ◌≤◌, false, List, [], ◌∷◌, length}
use huasi.ZWave.Request.{Request}
use huasi.ZWave.Protocol.{Output, write, on_error, Protocol, Handlers, send_request, on_timeout}
use huasi.ZWave.Protocol.Receive.{on_read}
use huasi.Port.{Driver}

-- How often `async_write` was called.
abbrev pub writes : List Output → ℕ
writes [] = 0
writes (write bytes ∷ log) = suc (writes log)
writes (on_error error ∷ log) = writes log

abbrev pub driver : {N : Type 0} → Handlers N → Driver (Protocol N) Request
driver h = record {
  send_request = send_request;
  Fits = λ bytes p. p.rx_position + length bytes ≤ 256;
  on_read = on_read h;
  timer = λ p. p.timer;
  stop_timer = λ p. record p { timer = false };
  on_timer = on_timeout;
  writes = λ p. writes p.log;
}
