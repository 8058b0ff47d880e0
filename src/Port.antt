-- ===== src/Port.antt =====
-- The serial port and the timer under a protocol, errors included: reads and writes that fail, and a
-- timer whose handler runs late. The handlers in src/zwave/ZWaveProtocol.cpp and in
-- src/enocean/EnOceanProtocol.cpp are the same but for what the protocol does with its data.
pub mod Life
use huasi.Prelude.{
  ℕ, suc, ◌+◌, ◌-◌, ◌<◌, ◌≡◌, Option, none, some, Bool, true, false, List, [], ◌∷◌, Bytes,
}

-- What a protocol does: `sendRequest(request)`, the handler of a read that succeeded, and the handler
-- of the timer. `Fits` says that a read of these bytes has room, and `writes` is how often
-- `async_write` was called.
pub record Driver (P R : Type 0) : Type 1 where
  pub send_request : R → P → P
  pub Fits : Bytes → P → Type 0
  pub on_read : Bytes → P → Option P
  pub timer : P → Bool
  pub stop_timer : P → P
  pub on_timer : P → P
  pub writes : P → ℕ

-- An error of the port, which `onError` gets.
pub data PortError : Type 0 where
  read_error write_error : ℕ → PortError

-- `reading` says that `async_read_some` waits. `late` counts the handlers of the timer that can no
-- longer be cancelled, because the timer ran out before. `written` counts the handlers of
-- `async_write` that have run.
pub record Port (P : Type 0) : Type 0 where
  pub protocol : P
  pub reading : Bool
  pub late : ℕ
  pub written : ℕ
  pub errors : List PortError

module _ {P : Type 0} where
  -- The port is open and reads.
  abbrev pub opened : P → Port P
  opened p = record { protocol = p; reading = true; late = 0; written = 0; errors = [] }

  -- `receive`: its handler for an error calls `onError` and returns.
  unfoldable pub on_read_error : ℕ → Port P → Port P
  on_read_error error p = record p { reading = false; errors = read_error error ∷ p.errors }

  -- The handlers of the writes: they only call `onError`.
  unfoldable pub on_written : Option ℕ → Port P → Port P
  on_written none p = record p { written = p.written + 1 }
  on_written (some error) p = record p {
    written = p.written + 1;
    errors = write_error error ∷ p.errors;
  }

module _ {P R : Type 0} (d : Driver P R) where
  -- The timer runs out: its handler waits to run.
  unfoldable pub run_out : Port P → Port P
  run_out p = record p { protocol = d.stop_timer p.protocol; late = p.late + 1 }

  -- The handler of the timer runs. Whether a request still waits, it does not ask.
  unfoldable pub on_timer : Port P → Port P
  on_timer p = record p { protocol = d.on_timer p.protocol; late = p.late - 1 }

  -- What the program, the port and the timer do. The handler of a read reads again.
  pub data Step (p : Port P) : Port P → Type 0 where
    submit : (r : R) → Step p (record p { protocol = d.send_request r p.protocol })
    receive :
        {q : P} (bytes : Bytes)
        → p.reading ≡ true
        → d.Fits bytes p.protocol
        → d.on_read bytes p.protocol ≡ some q
        → Step p (record p { protocol = q })
    read_fails : (error : ℕ) → p.reading ≡ true → Step p (on_read_error error p)
    write_ends : (error : Option ℕ) → p.written < d.writes p.protocol → Step p (on_written error p)
    timer_ends : d.timer p.protocol ≡ true → Step p (run_out p)
    timer_handled : 0 < p.late → Step p (on_timer p)

  pub data Reach (p : Port P) : Port P → Type 0 where
    here : Reach p p
    next : {q r : Port P} → Reach p q → Step q r → Reach p r
