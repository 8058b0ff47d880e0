-- ===== src/Examples/Serial.antt =====
-- Runs of the ZWave protocol.
use huasi.Prelude.{not, is_empty, ◌>>=◌}
use huasi.ZWave.Frame.{ack, request_frame, response_frame}
use huasi.ZWave.Protocol.Receive.Settled.{sent_next, log_next}
use huasi.ZWave.Protocol.Receive.Transmission.{send_data_completes}
use huasi.Gateway.Handler.ZWaveOps.Posting.{handlers-IsQuiet}
use huasi.Prelude.{
  ℕ, zero, suc, ◌≡◌, refl, ◌⊎◌, inl, true, false, List, [], ◌∷◌, some, arith, Bytes, take, drop,
}
use huasi.ZWave.Request.{Request, discover_nodes, get_node_info, send_data}
use huasi.ZWave.Frame.{sof, nack, frame, tx_frame, with_func_id}
use huasi.ZWave.Protocol.{
  Protocol, write, on_error, output, id_after, send_request, send_all, time_passes,
}
use huasi.ZWave.Protocol.Queue.{IsSound}
use huasi.ZWave.Protocol.Retry.{on_timeout_thrice, give_up_stalls}
use huasi.ZWave.Protocol.Run.{started, submit, expire, here, next, reached-IsSound}
use huasi.ZWave.Protocol.Receive.{rx_byte, remove_front, stored, on_read}
use huasi.ZWave.Protocol.Receive.Total.{IsPartial, on_read_total}
use huasi.ZWave.Protocol.Receive.Delivery.{on_read_unsolicited}
use huasi.ZWave.Protocol.Receive.Damage.{altered, on_read-altered, on_read-oversized}
use huasi.ZWave.Network.{Network, handlers}

abbrev zeros : ℕ → Bytes
zeros zero = []
zeros (suc n) = 0 ∷ zeros n

abbrev empty_network : Network
empty_network = record {
  nodes = λ i. record { device_name = []; name = []; commands = [] };
  overrun = false;
}

abbrev with_buffer : ℕ → Bytes → List Request → Protocol Network
with_buffer position buffer requests' = record {
  asked = requests';
  requests = requests';
  tx_retry_count = 0;
  next_func_id = 1;
  timer = false;
  rx_position = position;
  rx_buffer = buffer;
  log = [];
  faulted = false;
  network = empty_network;
}

abbrev idle : Protocol Network
idle = with_buffer 0 (zeros 256) []

abbrev waiting : Protocol Network
waiting =
    record (with_buffer 0 (zeros 256) (send_data 3 (0x20 ∷ 0x02 ∷ []) 0 ∷ get_node_info 2 ∷ [])) {
      timer = true;
    }

abbrev oversized : Protocol Network
oversized = with_buffer 2 (0x01 ∷ 255 ∷ zeros 254) []

idle-IsSound : IsSound idle
idle-IsSound = record {
  no_fault = refl;
  armed = inl refl;
  retry_bound = omega arith;
  id_low = omega arith;
  id_high = omega arith;
  buffer_size = refl;
  position_bound = omega arith;
}

oversized-IsSound : IsSound oversized
oversized-IsSound = record {
  no_fault = refl;
  armed = inl refl;
  retry_bound = omega arith;
  id_low = omega arith;
  id_high = omega arith;
  buffer_size = refl;
  position_bound = omega arith;
}

on_read_total_example :
    (q : Protocol Network) × (on_read (handlers 0) (0x06 ∷ 0x01 ∷ []) idle ≡ some q)
    × IsSound q
    × ((q.rx_position ≡ 0) ⊎ IsPartial q)
on_read_total_example =
    on_read_total (handlers 0) (0x06 ∷ 0x01 ∷ []) idle idle-IsSound (omega arith)

reached-IsSound_example :
    IsSound (time_passes (send_request discover_nodes (started (zeros 256) empty_network)))
reached-IsSound_example =
    reached-IsSound (handlers 0) (zeros 256) empty_network
      (time_passes (send_request discover_nodes (started (zeros 256) empty_network))) refl
      (next (next here (submit discover_nodes)) expire)

on_read_unsolicited_example :
    let rx = frame 0 0x49 (0 ∷ 3 ∷ []) in
    let p' = stored rx idle in
    let bytes = drop 3 p'.rx_buffer in
    let (n, requests) = (handlers 0).on_request bytes 3 empty_network in
    let acknowledged : Protocol Network = record p' { log = write (6 ∷ []) ∷ [] } in
    (take 3 bytes ≡ 0x49 ∷ 0 ∷ 3 ∷ [])
    × (on_read (handlers 0) rx idle
        ≡ some (remove_front 7 (send_all requests (record acknowledged { network = n }))))
on_read_unsolicited_example =
    on_read_unsolicited (handlers 0) 0 0x49 (0 ∷ 3 ∷ []) idle refl (omega arith) tt

on_read-altered_example :
    let bytes = altered 0 0x49 (0 ∷ []) 3 4 (7 ∷ []) in
    on_read (handlers 0) bytes idle
    ≡ some (record (output (write (nack ∷ [])) (stored bytes idle)) { rx_position = 0 })
on_read-altered_example =
    on_read-altered (handlers 0) 0 0x49 (0 ∷ []) 3 4 (7 ∷ []) idle refl (omega arith) (omega arith)
      (omega arith) (omega arith, tt) (omega arith) (omega arith) (omega arith, tt) (omega arith)

on_timeout_thrice_example :
    let q = time_passes (time_passes (time_passes waiting)) in
    let first = send_data 3 (0x20 ∷ 0x02 ∷ []) 0 in
    let second = with_func_id 1 first in
    let third = with_func_id (id_after first 1) second in
    (q.requests ≡ get_node_info 2 ∷ [])
    × (q.timer ≡ false)
    × (q.tx_retry_count ≡ 0)
    × (q.log ≡ on_error 2 ∷ write (tx_frame third) ∷ write (tx_frame second) ∷ [])
on_timeout_thrice_example =
    on_timeout_thrice (send_data 3 (0x20 ∷ 0x02 ∷ []) 0) (get_node_info 2 ∷ []) waiting refl refl
      refl

give_up_stalls_example :
    let q = time_passes (time_passes (time_passes waiting)) in
    let z = send_all (discover_nodes ∷ []) q in
    (z.requests ≡ get_node_info 2 ∷ discover_nodes ∷ [])
    × (z.timer ≡ false)
    × (z.log ≡ q.log)
    × (time_passes z ≡ z)
give_up_stalls_example =
    give_up_stalls (send_data 3 (0x20 ∷ 0x02 ∷ []) 0) (get_node_info 2) [] (discover_nodes ∷ [])
      waiting refl refl refl

on_read-oversized_example :
    let p = stored (1 ∷ 2 ∷ 3 ∷ []) oversized in
    (on_read (handlers 0) (1 ∷ 2 ∷ 3 ∷ []) oversized ≡ some p)
    × (rx_byte p 0 ≡ sof)
    × (rx_byte p 1 ≡ 255)
on_read-oversized_example =
    on_read-oversized (handlers 0) (1 ∷ 2 ∷ 3 ∷ []) oversized oversized-IsSound refl refl
      (omega arith) (omega arith)

send_data_completes_example :
    (q : Protocol Network) × ((on_read (handlers 0) (ack ∷ []) waiting
        >>= on_read (handlers 0) (frame response_frame 0x13 (1 ∷ []))
        >>= on_read (handlers 0) (frame request_frame 0x13 (0 ∷ 0 ∷ [])))
      ≡ some q)
    × (q.requests ≡ sent_next 1 (get_node_info 2 ∷ []))
    × (q.log ≡ log_next 1 (get_node_info 2 ∷ []) (write (ack ∷ []) ∷ write (ack ∷ []) ∷ []))
    × (q.timer ≡ not (is_empty (get_node_info 2 ∷ [])))
    × (q.tx_retry_count ≡ 0)
    × (q.rx_position ≡ 0)
send_data_completes_example =
    send_data_completes (handlers 0) (handlers-IsQuiet 0) 3 0 1 0 (0x20 ∷ 0x02 ∷ [])
      (get_node_info 2 ∷ []) waiting refl refl
