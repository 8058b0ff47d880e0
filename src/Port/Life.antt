-- ===== src/Port/Life.antt =====
-- A relation between the states of a protocol that all it does obeys, holds over a life of its port.
use huasi.Prelude.{◌≡◌, none, some, false, Bytes, arith}
use huasi.Port.{
  Driver, Port, on_read_error, on_written, run_out, on_timer, Step, submit, receive, read_fails,
  write_ends, timer_ends, timer_handled, Reach, here, next,
}

-- The relation holds for what a protocol does when nothing arrives, and can be put together.
pub record Obeys {P R : Type 0} (d : Driver P R) (E : P → P → Type 0) : Type 0 where
  pub same : (p : P) → E p p
  pub both : (p q r : P) → E p q → E q r → E p r
  pub sends : (r : R) (p : P) → E p (d.send_request r p)
  pub stops : (p : P) → E p (d.stop_timer p)
  pub times_out : (p : P) → E p (d.on_timer p)

-- It also holds for what a protocol does with what arrives.
abbrev pub Reads : {P R : Type 0} → Driver P R → (P → P → Type 0) → Type 0
Reads {P} d E = (bytes : Bytes) (p q : P) → d.Fits bytes p → d.on_read bytes p ≡ some q → E p q

module _ {P R : Type 0} (d : Driver P R) (E : P → P → Type 0) (o : Obeys d E) where
  pub step_obeys : Reads d E → {p q : Port P} → Step d p q → E p.protocol q.protocol
  unfolding on_read_error on_written run_out on_timer
  step_obeys reads {p} (submit r) = o.sends r p.protocol
  step_obeys reads {p} (receive {q} bytes open_port fits e) = reads bytes p.protocol q fits e
  step_obeys reads {p} (read_fails error open_port) = o.same p.protocol
  step_obeys reads {p} (write_ends none some_left) = o.same p.protocol
  step_obeys reads {p} (write_ends (some error) some_left) = o.same p.protocol
  step_obeys reads {p} (timer_ends runs) = o.stops p.protocol
  step_obeys reads {p} (timer_handled some_late) = o.times_out p.protocol

  pub reach_obeys : Reads d E → {p q : Port P} → Reach d p q → E p.protocol q.protocol
  reach_obeys reads {p} here = o.same p.protocol
  reach_obeys reads {p} {q = r} (next {q} before e) =
      o.both p.protocol q.protocol r.protocol (reach_obeys reads before) (step_obeys reads e)

  -- A port that does not read never reads again, so that nothing arrives.
  deaf_step :
      {p q : Port P}
      → Step d p q
      → p.reading ≡ false
      → (q.reading ≡ false) × E p.protocol q.protocol
  unfolding on_read_error on_written run_out on_timer
  deaf_step {p} (submit r) deaf = (deaf, o.sends r p.protocol)
  deaf_step {p} (receive bytes open_port fits e) deaf = absurd (ground arith)
  deaf_step {p} (read_fails error open_port) deaf = absurd (ground arith)
  deaf_step {p} (write_ends none some_left) deaf = (deaf, o.same p.protocol)
  deaf_step {p} (write_ends (some error) some_left) deaf = (deaf, o.same p.protocol)
  deaf_step {p} (timer_ends runs) deaf = (deaf, o.stops p.protocol)
  deaf_step {p} (timer_handled some_late) deaf = (deaf, o.times_out p.protocol)

  pub deaf_run :
      {p q : Port P}
      → Reach d p q
      → p.reading ≡ false
      → (q.reading ≡ false) × E p.protocol q.protocol
  deaf_run {p} here deaf = (deaf, o.same p.protocol)
  deaf_run {p} {q = r} (next {q} before e) deaf =
      let (still, first) = deaf_run before deaf in
      let (now, then') = deaf_step e still in
      (now, o.both p.protocol q.protocol r.protocol first then')
