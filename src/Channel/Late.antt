-- ===== src/Channel/Late.antt =====
-- A timer of a channel that runs out just before data arrives.
use huasi.Prelude.{◌<◌, ◌≡◌, true, false, List, arith}
use huasi.Channel.{
  Channel, Call, run_out, remove_reference, close, on_wait, on_accept, created, on_read, read_data,
}
use huasi.Channel.Lifetime.{
  Counts, Reach, next, ran_out, was_read, expired, Reach-Counts, on_accept_lem, after_read_lem,
}

-- A read that brings data leaves the waits that have run out as they are.
on_read-late :
    (calls : List Call) (c : Channel)
    → Counts 0 c
    → 0 < c.reads
    → (on_read (read_data calls) c).late ≡ c.late
unfolding on_read remove_reference
on_read-late calls c v running =
    let (w, below) = after_read_lem (read_data calls) c v running in ground arith

-- For a channel that was accepted, whose timer runs while a read is in flight: if the timer runs out
-- and data is handled before the handler of the timer, whatever is called with it, then the event
-- loop may run that handler next, and the channel is closed after it.
pub late_timeout_closes :
    (calls : List Call) (c : Channel)
    → Reach (on_accept created) c
    → c.timed ≡ true
    → 0 < c.reads
    → Reach (on_accept created) (on_wait false (on_read (read_data calls) (run_out c)))
      × ((on_wait false (on_read (read_data calls) (run_out c))).is_open ≡ false)
unfolding on_wait close remove_reference run_out
late_timeout_closes calls c r running some_read =
    let out = next r (ran_out running) in
    let same = on_read-late calls (run_out c) (Reach-Counts on_accept_lem out) some_read in
    (next (next out (was_read (read_data calls) some_read)) (expired (omega arith)), ground arith)
