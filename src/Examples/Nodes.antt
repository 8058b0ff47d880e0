-- ===== src/Examples/Nodes.antt =====
-- Nodes of the ZWave network.
use huasi.ZWave.Network.Ascending.{Ascends}
use huasi.ZWave.Network.Discovery.{is_named}
use huasi.ZWave.Network.ClassList.{new_command, or_else, is_listed, on_request_node_info}
use huasi.ZWave.Network.{class_count}
use huasi.Prelude.{
  List, ℕ, zero, suc, map, ◌≡◌, refl, not, some, true, false, ◌&&◌, [], ◌∷◌, ◌++◌, arith, Bytes,
  codes, ltb, ◌==◌, get_or, is_empty, All, if◌then◌else◌, bytes_eq,
}
use huasi.Prelude.SortedMap.{nat_key, bytes_key, lookup}
use huasi.Cast.{to_integer, scan}
use huasi.Parameters.{Parameters, get_state, get_percentage}
use huasi.ZWave.Classes.{
  basic_class, basic_send_set, basic_get, basic_on_command, send_byte, send_word, send_long,
  on_byte, on_word, on_long, config_on_command,
}
use huasi.ZWave.Classes.Values.{as_report, value_of_state, config_round_trip, basic_state_inverted}
use huasi.ZWave.Fibaro.{Shutter, shutter_send_set, shutter_on_command, shutter_get}
use huasi.ZWave.Fibaro.Commands.{shutter_round_trip}
use huasi.ZWave.Command.{basic}
use huasi.ZWave.Request.{get_node_info}
use huasi.ZWave.Frame.{frame, response_frame}
use huasi.ZWave.Protocol.{Protocol}
use huasi.ZWave.Protocol.Receive.{on_read}
use huasi.ZWave.Network.Startup.{network_started, startup_asks_nodes}
use huasi.ZWave.Network.{handlers, Network, discovered, network_send_set, on_request}
use huasi.ZWave.Network.Discovery.{discovered_iff_bit, member, bit_at}
use huasi.ZWave.Network.Targets.{IsFor, network_send_set_target}
use huasi.ZWave.Network.Nodes.{last_classes_ignored}

abbrev dimmer : Network
dimmer = record {
  nodes = λ i. record {
    device_name = [];
    name = [];
    commands = if i == 3 then (basic_class, basic 0) ∷ [] else [];
  };
  overrun = false;
}

abbrev dimmed : Parameters
dimmed = (codes "dim", codes "50") ∷ []

abbrev switched_on : Parameters
switched_on = (codes "state", codes "on") ∷ []

abbrev lowered : Parameters
lowered = (codes "position.blinds", codes "50") ∷ (codes "position.slat", codes "7") ∷ []

abbrev top : Shutter
top = record { blinds = 0; slat = 0 }

-- Nodes 1, 2 and 4, of 32 bits.
abbrev init_data : Bytes
init_data = 5 ∷ 8 ∷ 4 ∷ 11 ∷ 0 ∷ 0 ∷ 0 ∷ []

discovered_iff_bit_example :
    member 4 (discovered init_data 7)
    ≡ (ltb 0 (get_or init_data 2 0) && bit_at 3 (get_or init_data 3 0) && not (3 == 0))
discovered_iff_bit_example =
    discovered_iff_bit 0 3 7 init_data (omega arith) (omega arith) (omega arith)

last_classes_ignored_example :
    let front : Bytes = 0x49 ∷ 0 ∷ 3 ∷ 10 ∷ 4 ∷ 16 ∷ 1 ∷ [] in
    on_request 0 (front ++ 0x20 ∷ 0x70 ∷ 0x72 ∷ 1 ∷ 2 ∷ 3 ∷ 4 ∷ []) 14 dimmer
    ≡ on_request 0 (front ++ 1 ∷ 2 ∷ 3 ∷ 4 ∷ 5 ∷ 6 ∷ 7 ∷ []) 14 dimmer
last_classes_ignored_example =
    last_classes_ignored 0 (0x49 ∷ 0 ∷ 3 ∷ 10 ∷ 4 ∷ 16 ∷ 1 ∷ [])
      (0x20 ∷ 0x70 ∷ 0x72 ∷ 1 ∷ 2 ∷ 3 ∷ 4 ∷ []) (1 ∷ 2 ∷ 3 ∷ 4 ∷ 5 ∷ 6 ∷ 7 ∷ []) dimmer
      (omega arith) refl refl refl
      (
        omega arith,
        (
          omega arith,
          (omega arith, (omega arith, (omega arith, (omega arith, (omega arith, tt))))),
        ),
      )
      (
        omega arith,
        (
          omega arith,
          (omega arith, (omega arith, (omega arith, (omega arith, (omega arith, tt))))),
        ),
      )

network_send_set_target_example :
    let (sent, n', requests) = network_send_set 0 3 dimmed dimmer in
    (sent ≡ (ltb 3 256 && not (is_empty (dimmer.nodes 3).commands)))
    × All (IsFor 3) requests
    × (n'.nodes 4 ≡ dimmer.nodes 4)
    × (n' ≡ (if sent then n' else dimmer))
    × (requests ≡ (if sent then requests else []))
network_send_set_target_example = network_send_set_target 0 3 4 dimmed dimmer (omega arith)

config_round_trip_example :
    (config_on_command (as_report (send_byte 12 150)) 5 ≡ some (on_byte 12 150))
    × (config_on_command (as_report (send_word 12 150)) 6 ≡ some (on_word 12 150))
    × (config_on_command (as_report (send_long 12 150)) 8 ≡ some (on_long 12 150))
config_round_trip_example = config_round_trip 12 150

basic_state_inverted_example :
    let reported = basic_on_command 0 (0x20 ∷ 0x03 ∷ value_of_state true ∷ []) 3 in
    (basic_send_set switched_on ≡ (0x20 ∷ 0x01 ∷ value_of_state true ∷ []) ∷ [])
    × (get_state (basic_get reported []) (codes "state") ≡ some false)
unfolding get_state get_percentage lookup bytes_eq
basic_state_inverted_example = basic_state_inverted true 0 switched_on [] refl refl

shutter_round_trip_example :
    let reported = shutter_on_command top (0x91 ∷ 0x01 ∷ 0x0f ∷ 0x26 ∷ 0x03 ∷ 3 ∷ 50 ∷ 7 ∷ []) 8 in
    (shutter_send_set lowered ≡ (0x91 ∷ 0x01 ∷ 0x0f ∷ 0x26 ∷ 0x01 ∷ 3 ∷ 50 ∷ 7 ∷ []) ∷ [])
    × (get_percentage (shutter_get reported []) (codes "position.blinds") ≡ some 50)
    × (get_percentage (shutter_get reported []) (codes "position.slat") ≡ some 7)
unfolding get_percentage to_integer scan lookup bytes_eq
shutter_round_trip_example =
    shutter_round_trip 50 7 lowered [] top (omega arith) (omega arith) (omega arith) (omega arith)
      refl refl

abbrev zeros : ℕ → Bytes
zeros zero = []
zeros (suc n) = 0 ∷ zeros n

startup_asks_nodes_example :
    (q : Protocol Network) × (ids : List ℕ) × (on_read
        (handlers 0)
        (frame response_frame 0x02 init_data)
        (network_started (zeros 256) dimmer)
      ≡ some q)
    × (q.requests ≡ map get_node_info ids)
    × Ascends 0 248 ids
    × ((n : ℕ) → member n ids ≡ is_named init_data n)
startup_asks_nodes_example =
    startup_asks_nodes 0 (zeros 256) init_data dimmer (omega arith) (omega arith) (omega arith)
      (omega arith)

on_request_node_info_example :
    let bytes : Bytes = 0x49 ∷ 0x20 ∷ 3 ∷ 10 ∷ 4 ∷ 16 ∷ 1 ∷ 0x25 ∷ 0x26 ∷ [] in
    let n' = (on_request 0 bytes 9 dimmer).0 in
    let old = lookup 0x20 (dimmer.nodes 3).commands in
    lookup 0x20 (n'.nodes 3).commands ≡ (
      if 3 == 3 && is_listed 0x20 (class_count 2 7 bytes) 0 bytes
      then or_else (new_command 0x20) old
      else old)
on_request_node_info_example =
    on_request_node_info 0 (0x49 ∷ 0x20 ∷ 3 ∷ 10 ∷ 4 ∷ 16 ∷ 1 ∷ 0x25 ∷ 0x26 ∷ []) 9 0x20 3 dimmer
      refl (omega arith)
