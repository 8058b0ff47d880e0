-- ===== src/Examples/Running.antt =====
-- The whole program.
use huasi.Prelude.{
  ◌%◌, ◌<◌, ◌≡◌, refl, true, false, List, [], ◌∷◌, ◌++◌, some, arith, Bytes, codes, is_empty,
}
use huasi.Port.{opened, receive}
use huasi.ZWave.Network.{network_get}
use huasi.Http.Headers.{new_state}
use huasi.Http.Headers.Chunks.{joined}
use huasi.Http.Client.{sized, read_reply}
use huasi.Gateway.Query.{parse_query}
use huasi.Gateway.Handler.{method_get, node_of, on_request}
use huasi.Gateway.Handler.ZWaveOps.{zwave_ops}
use huasi.Gateway.Connection.{on_data, called_back_all}
use huasi.Gateway.Connection.Clients.{on_client}
use huasi.Server.{started as server_started, on_accepted}
use huasi.Server.Listening.{accepted}
use huasi.Program.{
  Surroundings, Program, main, running, read_client, here, next, serial, serves, client_reads,
}
use huasi.Program.Serving.{program_serves}
use huasi.Examples.Web.{parse_path, one_digit, emptied}
use huasi.Examples.Whole.{
  zeros, node_info, at_the_start, informed, informed_lem, room_lem, has_class_lem, low_lem,
  addressed_lem, scripted,
}

abbrev around : Surroundings
around = record {
  opens = λ device. true;
  binds = λ port. true;
  stale = 0;
  parse_url = parse_path;
  atoi = one_digit;
  moved = emptied;
  parser = scripted;
  new_parser = [] ∷ [];
}

abbrev arguments : List Bytes
arguments = codes "huasi" ∷ codes "/dev/ttyACM0" ∷ codes "80" ∷ []

waits_lem : 0 < server_started.accepts
unfolding server_started
waits_lem = omega arith

open_lem : server_started.is_open ≡ true
unfolding server_started
open_lem = refl

-- The program at the start, for the port that the model of `atoi` gives.
abbrev begun : Program around
begun = record {
  device = codes "/dev/ttyACM0";
  port = one_digit (codes "80") % 65536;
  network = opened at_the_start;
  server = server_started;
  connections = λ i. ([] ∷ [], new_state);
}

begun_lem : main around (zeros 256) arguments ≡ running begun
unfolding main
begun_lem = refl

-- The info of node 3 has come, a client has connected and has sent a byte that is no request yet.
abbrev reached : Program around
reached =
    read_client around 0 (codes "G")
      (record begun { network = opened informed; server = on_accepted false server_started })

class_lem :
    is_empty
      (reached.network.protocol.network.nodes
        (node_of parse_path one_digit (codes "/node/3"))).commands
    ≡ false
unfolding on_client on_data called_back_all
class_lem = has_class_lem

-- The answer to a GET for the node, and the beginning of another answer.
abbrev received : Bytes
received =
    joined
      (on_request (zwave_ops 0) parse_path one_digit true method_get (codes "/node/3")
        reached.network.protocol).1
    ++ codes "HTTP/1.1"

program_serves_example :
    let s = reached.network.protocol in
    ((on_request (zwave_ops 0) parse_path one_digit true method_get (codes "/node/3") s).0 ≡ s)
    × (text : Bytes) × (read_reply false received
        ≡ some (record {
          status = codes "HTTP/1.1 200 OK";
          closes = false;
          content = sized text (codes "HTTP/1.1");
        }))
    × (parse_query text
        ≡ (network_get (node_of parse_path one_digit (codes "/node/3")) [] s.network).1)
program_serves_example =
    program_serves around (zeros 256) arguments begun reached true (codes "/node/3")
      (codes "HTTP/1.1") received begun_lem
      (next
        (next (next here (serial (receive node_info refl room_lem informed_lem)))
          (serves (accepted waits_lem open_lem)))
        (client_reads 0 (codes "G")))
      addressed_lem low_lem class_lem refl
