-- ===== src/Examples/Channels.antt =====
-- The life of a channel.
use huasi.Server
use huasi.Server.Listening
use huasi.Server.Listening.{reached_server_listens, fail_times, closed_server_spins}
use huasi.Prelude.{◌+◌, ◌≡◌, ◌⊎◌, ◌↔◌, inl, inr, ◌<◌, refl, true, false, [], ◌∷◌, arith, All}
use huasi.Channel.{
  Channel, call_send, receive, start_wait, add_reference, remove_reference, close, created,
  on_accept, on_read, after_read, read_data, read_eof, on_wait, run_out,
}
use huasi.Channel.Lifetime.{
  Counts, Reach, open_count, pending, here, next, was_read, accepted_channel_counts,
}
use huasi.Channel.Late.{late_timeout_closes}
use huasi.Channel.Draining
use huasi.Channel.Draining.{Ended, none, wait_cancelled, over_eof, closed_channel_deleted}

-- A channel that has received a request and sent two texts.
abbrev answered : Channel
answered = on_read (read_data (call_send ∷ call_send ∷ [])) (on_accept created)

accepted_channel_counts_example :
    (answered.references ≡ open_count answered.is_open + pending answered)
    × (answered.tx_pending ≡ answered.writes)
    × ((answered.deleted ≡ true) ↔ ((answered.is_open ≡ false) × (pending answered ≡ 0)))
    × ((answered.is_open ≡ false) ⊎ (answered.timed ≡ true) ⊎ (0 < answered.late))
unfolding on_accept receive start_wait add_reference remove_reference
accepted_channel_counts_example =
    accepted_channel_counts answered
      (next here (was_read (read_data (call_send ∷ call_send ∷ [])) (omega arith)))

-- An accepted channel that reads a request and answers it after its timer ran out.
abbrev overtaken : Channel
overtaken = on_wait false (on_read (read_data (call_send ∷ [])) (run_out (on_accept created)))

late_timeout_closes_example : Reach (on_accept created) overtaken × (overtaken.is_open ≡ false)
unfolding on_accept receive start_wait add_reference remove_reference
late_timeout_closes_example =
    late_timeout_closes (call_send ∷ []) (on_accept created) here refl (omega arith)

abbrev open_channel : Channel
open_channel = record {
  references = 3;
  deleted = false;
  is_open = true;
  tx_pending = 0;
  held = 0;
  waits = 1;
  timed = true;
  late = 0;
  writes = 0;
  reads = 1;
}

open_channel-Counts : Counts 0 open_channel
open_channel-Counts = record {
  counted = refl;
  sent = refl;
  gone = refl;
  awake = inr (inl refl);
  timer_waits = omega arith;
}

-- The read ends first, then the wait of the timer.
abbrev drained : Channel
drained = on_wait true (on_read read_eof (close open_channel))

drained-Ended : Ended (close open_channel) 2 drained
unfolding close remove_reference on_read after_read
drained-Ended =
    wait_cancelled (Draining.was_read none read_eof over_eof (omega arith)) (omega arith)

closed_channel_deleted_example :
    (0 < pending (close open_channel))
    × (close drained ≡ drained)
    × (2 + pending drained ≡ pending (close open_channel))
    × ((drained.deleted ≡ true) ↔ (2 ≡ pending (close open_channel)))
    × ((drained.deleted ≡ true) ⊎ ((e : Channel) × Ended (close open_channel) 3 e))
closed_channel_deleted_example =
    closed_channel_deleted open_channel drained 2 open_channel-Counts refl refl drained-Ended

-- A server that took one connection and is closed.
abbrev closed_server : Server.Server
closed_server = Server.close false (Server.on_accepted false Server.started)

reached_server_listens_example :
    (closed_server.accepts ≡ 1)
    × (closed_server.references ≡ closed_server.held + 1)
    × (closed_server.deleted ≡ false)
    × All (Counts 0) closed_server.channels
unfolding Server.started
reached_server_listens_example = reached_server_listens closed_server (
    Listening.next (Listening.next Listening.here (Listening.accepted (omega arith) refl))
      (Listening.closed false))
