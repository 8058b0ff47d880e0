-- ===== src/Examples/Ports.antt =====
-- The serial port, with what may fail and be late.
use huasi.Prelude.{
  ℕ, zero, suc, ◌≡◌, refl, true, false, List, [], ◌∷◌, ◌++◌, arith, map, All, Bytes,
}
use huasi.Line.{Moves, left}
use huasi.ZWave.Request.{get_node_info, func_id?}
use huasi.ZWave.Protocol.{Output, Protocol, send_request}
use huasi.ZWave.Protocol.Line.{speech, view, nameless}
use huasi.ZWave.Protocol.Unheard.{IsTrial}
use huasi.ZWave.Network.{Network, handlers, on_response}
use huasi.ZWave.Port.{driver}
use huasi.ZWave.Protocol.Run.{started}
use huasi.Port.{
  Port, opened, on_read_error, run_out, submit, read_fails, timer_ends, Reach, here, next,
}
use huasi.ZWave.Port.Order.{port_in_order}
use huasi.ZWave.Port.Late.{late_timeout_faults}
use huasi.ZWave.Port.Deaf.{failed_read_deafens}
use huasi.EnOcean.Port.{driver as enocean_driver}
use huasi.EnOcean.Network.{started as enocean_started}
use huasi.EnOcean.Protocol.{send_request as enocean_send, send_first}
use huasi.EnOcean.Protocol.Serving.{speech as enocean_speech, view as enocean_view}
use huasi.EnOcean.Port.Order.{enocean_port_in_order}
use huasi.Gateway.Handler.ZWaveOps.System.{new_network}

abbrev zeros : ℕ → Bytes
zeros zero = []
zeros (suc n) = 0 ∷ zeros n

abbrev at_first : Port (Protocol Network)
at_first = opened (started (zeros 256) new_network)

-- The info of node 2 was asked for.
abbrev asking : Port (Protocol Network)
asking = record at_first {
  protocol = record {
    asked = get_node_info 2 ∷ [];
    requests = get_node_info 2 ∷ [];
    tx_retry_count = 0;
    next_func_id = 1;
    timer = true;
    rx_position = 0;
    rx_buffer = zeros 256;
    log = [];
    faulted = false;
    network = new_network;
  };
}

port_in_order_example :
    let q =
      on_read_error 5
        (record at_first { protocol = send_request (get_node_info 2) at_first.protocol }) in
    (moves : Moves speech (record { asked = []; waiting = []; log = [] }) (view q.protocol)) × (map
        nameless q.protocol.asked
      ≡ left moves ++ map nameless q.protocol.requests)
port_in_order_example =
    port_in_order (handlers 0) (zeros 256) new_network _
      (next (next here (submit (get_node_info 2))) (read_fails 5 refl))

late_timeout_faults_example :
    (q : Port (Protocol Network)) × Reach (driver (handlers 0)) asking q
    × (q.protocol.requests ≡ [])
    × (q.protocol.faulted ≡ true)
unfolding func_id? on_response
late_timeout_faults_example =
    late_timeout_faults (handlers 0) (get_node_info 2) (1 ∷ []) asking refl refl refl refl refl
      (omega arith) (λ bytes size n. refl)

failed_read_deafens_example :
    let q = run_out (driver (handlers 0)) (on_read_error 5 asking) in
    (q.reading ≡ false)
    × (q.protocol.network ≡ new_network)
    × (trials : List Output) × (q.protocol.log ≡ trials ++ [])
    × All IsTrial trials
unfolding on_read_error run_out
failed_read_deafens_example =
    failed_read_deafens (handlers 0) 5 asking
      (run_out (driver (handlers 0)) (on_read_error 5 asking)) (next here (timer_ends refl))

enocean_port_in_order_example :
    let q = on_read_error 5 (run_out enocean_driver (opened enocean_started)) in
    (moves : Moves enocean_speech
      (record { asked = []; waiting = []; log = [] })
      (enocean_view q.protocol))
    × (q.protocol.asked ≡ left moves ++ q.protocol.requests)
unfolding enocean_send send_first run_out
enocean_port_in_order_example =
    enocean_port_in_order (on_read_error 5 (run_out enocean_driver (opened enocean_started)))
      (next (next here (timer_ends refl)) (read_fails 5 refl))
