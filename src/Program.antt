-- ===== src/Program.antt =====
-- src/main.cpp: the arguments, the ZWave network and the server, and the event loop over both and over
-- the connections of the clients.
pub mod Serving
use huasi.Prelude.{Bool, ◌&&◌, if◌then◌else◌, ℕ, ◌%◌, List, [], ◌∷◌, Bytes}
use huasi.Port as Serial
use huasi.Port.{Port, opened}
use huasi.ZWave.Protocol.{Protocol}
use huasi.ZWave.Port.{driver}
use huasi.ZWave.Network.{Network, handlers}
use huasi.ZWave.Network.Startup.{network_started}
use huasi.Http.Url.{ParsedUrl}
use huasi.Http.Headers.{MovedFrom, new_state}
use huasi.Gateway.Connection.{Parser}
use huasi.Gateway.Connection.Clients.{Connections, on_client}
use huasi.Gateway.Handler.ZWaveOps.{zwave_ops}
use huasi.Gateway.Handler.ZWaveOps.System.{new_network}
use huasi.Server.{Server, started}
use huasi.Server.Listening as Listening

-- What is not under src/main.cpp's control: whether the serial device can be opened and the server can
-- take a port, a byte behind the receive buffer, the parsers of urls and
-- of requests, with the state of a new one, the C library, and what a move leaves.
pub record Surroundings : Type 1 where
  pub opens : Bytes → Bool
  pub binds : ℕ → Bool
  pub stale : ℕ
  pub parse_url : Bytes → ParsedUrl
  pub atoi : Bytes → ℕ
  pub moved : MovedFrom
  pub parser : Parser
  pub new_parser : parser.State

-- The serial device and the port of the server, the two objects that `main` makes, and the parsers and
-- headers of the connections.
pub record Program (o : Surroundings) : Type 0 where
  pub device : Bytes
  pub port : ℕ
  pub network : Port (Protocol Network)
  pub server : Server
  pub connections : Connections o.parser

-- `main` prints how it is used and returns 1; an exception of a constructor ends it; or it runs the
-- event loop.
pub data Outcome (o : Surroundings) : Type 0 where
  usage failed : Outcome o
  running : Program o → Outcome o

-- The arguments behind the device. The endpoint takes the port as a number of two bytes.
abbrev port_of : (Bytes → ℕ) → List Bytes → ℕ
port_of atoi [] = 8080
port_of atoi (text ∷ rest) = atoi text % 65536

-- `main` with `argv`, over what the memory of the receive buffer holds.
unfoldable pub main : (o : Surroundings) → Bytes → List Bytes → Outcome o
main o memory [] = usage
main o memory (name ∷ []) = usage
main o memory (name ∷ device ∷ rest) =
    if o.opens device && o.binds (port_of o.atoi rest)
    then running (record {
      device = device;
      port = port_of o.atoi rest;
      network = opened (network_started memory new_network);
      server = started;
      connections = λ i. (o.new_parser, new_state);
    })
    else failed

-- Bytes that were read from a client, for the network that all connections share.
abbrev pub read_client : (o : Surroundings) → ℕ → Bytes → Program o → Program o
read_client o i bytes p =
    let ((cs, s), sent) =
      on_client (zwave_ops o.stale) o.parse_url o.atoi o.moved o.parser i bytes
        (p.connections, p.network.protocol) in
    record p { network = record p.network { protocol = s }; connections = cs }

-- What the event loop does: an event of the serial port or its timer, an event of the server or of one
-- of its channels, or bytes that were read from a client.
pub data Step (o : Surroundings) (p : Program o) : Program o → Type 0 where
  serial :
      {n : Port (Protocol Network)}
      → Serial.Step (driver (handlers o.stale)) p.network n
      → Step o p (record p { network = n })
  serves : {s : Server} → Listening.Step p.server s → Step o p (record p { server = s })
  client_reads : (i : ℕ) (bytes : Bytes) → Step o p (read_client o i bytes p)

pub data Reach (o : Surroundings) (p : Program o) : Program o → Type 0 where
  here : Reach o p p
  next : {q r : Program o} → Reach o p q → Step o q r → Reach o p r
