-- ===== src/Channel.antt =====
-- class Channel of src/Channel.hpp and .cpp with its base class Object of src/Object.hpp, and the
-- handler of `Server::listen` in src/Server.cpp. What the operations have in flight is counted: a
-- handler runs once for each of them. The state counts references, as the code does.
pub mod Lifetime
pub mod Draining
pub mod Late
pub mod Wire
use huasi.Prelude.{ℕ, ◌+◌, ◌-◌, ◌==◌, Bool, true, false, List, [], ◌∷◌, if◌then◌else◌}

-- `held` counts the `ptr`s to the channel. `waits`, `writes` and `reads` count the operations whose
-- handler has not run. `timed` says that the timer runs for one of the waits. `late` counts the
-- waits whose timer has run out: their handlers can no longer be cancelled.
pub record Channel : Type 0 where
  pub references : ℕ
  pub deleted : Bool
  pub is_open : Bool
  pub tx_pending : ℕ
  pub held : ℕ
  pub waits : ℕ
  pub timed : Bool
  pub late : ℕ
  pub writes : ℕ
  pub reads : ℕ

unfoldable pub add_reference : Channel → Channel
add_reference c = record c { references = c.references + 1 }

unfoldable pub remove_reference : Channel → Channel
remove_reference c =
    if c.references == 1
    then record c { references = 0; deleted = true }
    else record c { references = c.references - 1 }

-- Both operations restart the timer, which cancels the waits before.
unfoldable pub start_wait : Channel → Channel
start_wait c = record (add_reference c) { waits = c.waits + 1; timed = true }

unfoldable pub send_data : Channel → Channel
send_data c = record (add_reference (start_wait c)) {
  writes = c.writes + 1;
  tx_pending = c.tx_pending + 1;
}

unfoldable pub receive : Channel → Channel
receive c = record (add_reference (start_wait c)) { reads = c.reads + 1 }

unfoldable pub close : Channel → Channel
close c = if c.is_open then remove_reference (record c { timed = false; is_open = false }) else c

-- What a virtual method such as `onData` does with its channel. `shutdown` counts nothing.
pub data Call : Type 0 where
  call_send call_close call_shutdown : Call

unfoldable pub called : Call → Channel → Channel
called call_send c = send_data c
called call_close c = close c
called call_shutdown c = c

unfoldable pub called_all : List Call → Channel → Channel
called_all [] c = c
called_all (x ∷ xs) c = called_all xs (called x c)

-- The time of the timer has come; its handler waits for its turn.
unfoldable pub run_out : Channel → Channel
run_out c = record c { timed = false; late = c.late + 1 }

-- The handler of `async_wait`, for an error and for none: then the timer has run out.
unfoldable pub on_wait : Bool → Channel → Channel
on_wait cancelled c =
    let c' = if cancelled then c else close (record c { late = c.late - 1 }) in
    remove_reference (record c' { waits = c'.waits - 1 })

-- The handler of `async_write`; the calls are those of `onError` and `onReadyToSend`.
unfoldable pub on_write : List Call → Channel → Channel
on_write calls c =
    let c' = called_all calls (record c { tx_pending = c.tx_pending - 1 }) in
    remove_reference (record c' { writes = c'.writes - 1 })

pub data ReadResult : Type 0 where
  read_canceled read_eof : ReadResult
  read_failed read_data : List Call → ReadResult

-- The handler of `async_read_some`; the calls are those of `onError` or of `onData`.
unfoldable pub after_read : ReadResult → Channel → Channel
after_read read_canceled c = c
after_read read_eof c = close c
after_read (read_failed calls) c = called_all calls c
after_read (read_data calls) c = called_all calls (receive c)

unfoldable pub on_read : ReadResult → Channel → Channel
on_read result c =
    let c' = after_read result c in remove_reference (record c' { reads = c'.reads - 1 })

-- A channel that waits for a connection: the handler of `async_accept` holds it.
abbrev pub created : Channel
created = record {
  references = 1;
  deleted = false;
  is_open = false;
  tx_pending = 0;
  held = 1;
  waits = 0;
  timed = false;
  late = 0;
  writes = 0;
  reads = 0;
}

-- The handler of `async_accept` and its end, and the same for an error. `HttpChannel::onConnect`
-- calls nothing of the channel.
unfoldable pub on_accept : Channel → Channel
on_accept c =
    let c' = receive (record (add_reference c) { is_open = true }) in
    remove_reference (record c' { held = 0 })

unfoldable pub on_accept_failed : Channel → Channel
on_accept_failed c = remove_reference (record c { held = 0 })
