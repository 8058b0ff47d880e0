-- ===== src/Channel/Lifetime.antt =====
-- The references of a channel over its life.
use huasi.Prelude.{
  ℕ, ◌+◌, ◌-◌, ◌<◌, ◌≤◌, ◌≡◌, ◌⊎◌, ◌↔◌, ◌==◌, Bool, true, false, List, [], ◌∷◌, if◌then◌else◌,
  arith,
}
use huasi.Channel.{
  Channel, Call, call_send, call_close, call_shutdown, called, called_all, ReadResult,
  read_canceled, read_eof, read_failed, read_data, add_reference, remove_reference, start_wait,
  send_data, receive, close, run_out, on_wait, on_write, after_read, on_read, created, on_accept,
  on_accept_failed,
}

abbrev pub open_count : Bool → ℕ
open_count b = if b then 1 else 0

-- A channel has one reference for the open socket, one for each `ptr`, and one for each operation
-- whose handler has not run. It is deleted when it has none, an open channel has a running timer or one that has run out, and
-- `tx_pending` counts the writes, but for `over` of them whose handler is running.
pub record Counts (over : ℕ) (c : Channel) : Type 0 where
  pub counted : c.references ≡ open_count c.is_open + c.held + c.waits + c.writes + c.reads
  pub sent : c.tx_pending + over ≡ c.writes
  pub gone : c.deleted ≡ (c.references == 0)
  pub awake : (c.is_open ≡ false) ⊎ (c.timed ≡ true) ⊎ (0 < c.late)
  pub timer_waits : open_count c.timed + c.late ≤ c.waits

abbrev pub pending : Channel → ℕ
pending c = c.held + c.waits + c.writes + c.reads

-- Calls start operations, and end none.
abbrev IsBelow : Channel → Channel → Type 0
IsBelow c d =
    (c.held ≡ d.held)
    × (c.late ≡ d.late)
    × (c.waits ≤ d.waits)
    × (c.writes ≤ d.writes)
    × (c.reads ≤ d.reads)

abbrev Runs : ℕ → Channel → Channel → Type 0
Runs over c d = Counts over d × IsBelow c d

close_lem : (over : ℕ) (c : Channel) → Counts over c → 0 < pending c → Runs over c (close c)
unfolding close remove_reference
close_lem over c v running = ground arith

called_lem :
    (over : ℕ) (x : Call) (c : Channel) → Counts over c → 0 < pending c → Runs over c (called x c)
unfolding called send_data start_wait add_reference
called_lem over call_send c v running = ground arith
called_lem over call_close c v running = close_lem over c v running
called_lem over call_shutdown c v running = ground arith

called_all_lem :
    (over : ℕ) (xs : List Call) (c : Channel)
    → Counts over c
    → 0 < pending c
    → Runs over c (called_all xs c)
unfolding called_all
called_all_lem over [] c v running = ground arith
called_all_lem over (x ∷ xs) c v running =
    let (w, below) = called_lem over x c v running in
    let more : 0 < pending (called x c) = omega arith in
    let (u, below') = called_all_lem over xs (called x c) w more in (u, ground arith)

receive_lem : (over : ℕ) (c : Channel) → Counts over c → 0 < pending c → Runs over c (receive c)
unfolding receive start_wait add_reference
receive_lem over c v running = ground arith

pub after_read_lem :
    (result : ReadResult) (c : Channel) → Counts 0 c → 0 < c.reads → Runs 0 c (after_read result c)
unfolding after_read
after_read_lem read_canceled c v running = ground arith
after_read_lem read_eof c v running = close_lem 0 c v (omega arith)
after_read_lem (read_failed calls) c v running = called_all_lem 0 calls c v (omega arith)
after_read_lem (read_data calls) c v running =
    let (w, below) = receive_lem 0 c v (omega arith) in
    let (u, below') = called_all_lem 0 calls (receive c) w (omega arith) in (u, ground arith)

on_read_lem :
    (result : ReadResult) (c : Channel) → Counts 0 c → 0 < c.reads → Counts 0 (on_read result c)
unfolding on_read remove_reference
on_read_lem result c v running = let (w, below) = after_read_lem result c v running in ground arith

on_write_lem :
    (calls : List Call) (c : Channel) → Counts 0 c → 0 < c.writes → Counts 0 (on_write calls c)
unfolding on_write remove_reference
on_write_lem calls c v running =
    let over : Counts 1 (record c { tx_pending = c.tx_pending - 1 }) = ground arith in
    let (w, below) =
      called_all_lem 1 calls (record c { tx_pending = c.tx_pending - 1 }) over (omega arith) in
    ground arith

on_wait_cancelled :
    (c : Channel) → Counts 0 c → open_count c.timed + c.late < c.waits → Counts 0 (on_wait true c)
unfolding on_wait remove_reference
on_wait_cancelled c v running = ground arith

run_out_lem : (c : Channel) → Counts 0 c → c.timed ≡ true → Counts 0 (run_out c)
unfolding run_out
run_out_lem c v running = ground arith

on_wait_expired : (c : Channel) → Counts 0 c → 0 < c.late → Counts 0 (on_wait false c)
unfolding on_wait close remove_reference
on_wait_expired c v running = ground arith

pub on_accept_lem : Counts 0 (on_accept created)
unfolding on_accept receive start_wait remove_reference add_reference
on_accept_lem = ground arith

pub on_accept_failed_lem : Counts 0 (on_accept_failed created)
unfolding on_accept_failed remove_reference
on_accept_failed_lem = ground arith

-- What the event loop does with a channel: its timer runs out, and the handlers of the operations in
-- flight run, in any order.
pub data Step (c : Channel) : Channel → Type 0 where
  cancelled : open_count c.timed + c.late < c.waits → Step c (on_wait true c)
  ran_out : c.timed ≡ true → Step c (run_out c)
  expired : 0 < c.late → Step c (on_wait false c)
  written : (calls : List Call) → 0 < c.writes → Step c (on_write calls c)
  was_read : (result : ReadResult) → 0 < c.reads → Step c (on_read result c)

pub data Reach (c : Channel) : Channel → Type 0 where
  here : Reach c c
  next : {d e : Channel} → Reach c d → Step d e → Reach c e

pub Step-Counts : {c d : Channel} → Step c d → Counts 0 c → Counts 0 d
Step-Counts {c} (cancelled some_wait) v = on_wait_cancelled c v some_wait
Step-Counts {c} (ran_out running) v = run_out_lem c v running
Step-Counts {c} (expired some_late) v = on_wait_expired c v some_late
Step-Counts {c} (written calls some_write) v = on_write_lem calls c v some_write
Step-Counts {c} (was_read result some_read) v = on_read_lem result c v some_read

pub Reach-Counts : {c d : Channel} → Counts 0 c → Reach c d → Counts 0 d
Reach-Counts v here = v
Reach-Counts v (next r s) = Step-Counts s (Reach-Counts v r)

-- After a connection was accepted, and in every state that the event loop brings about from there,
-- whatever the handlers call: the channel has one reference for its open socket and one for each
-- pointer and each operation in flight, `tx_pending` counts the writes in flight, the channel is
-- deleted exactly when it is closed and nothing is in flight, and while it is open the timer runs or has run out.
pub accepted_channel_counts :
    (c : Channel)
    → Reach (on_accept created) c
    → (c.references ≡ open_count c.is_open + pending c)
      × (c.tx_pending ≡ c.writes)
      × ((c.deleted ≡ true) ↔ ((c.is_open ≡ false) × (pending c ≡ 0)))
      × ((c.is_open ≡ false) ⊎ (c.timed ≡ true) ⊎ (0 < c.late))
accepted_channel_counts c r = let v = Reach-Counts on_accept_lem r in ground arith
