-- ===== src/Program/Serving.antt =====
-- The whole program over its life, from its arguments on.
use huasi.Prelude.{
  refl, ◌<◌, ◌≡◌, ap, ◌∙◌, not, Bool, true, false, List, [], ◌∷◌, ◌++◌, some, arith, Bytes, codes,
  is_empty,
}
use mathlib.Core.Path.{subst, sym}
use huasi.ZWave.Protocol.{Protocol}
use huasi.ZWave.Network.{Network, network_get}
use huasi.ZWave.Network.Startup.{network_started}
use huasi.Http.Headers.Chunks.{joined}
use huasi.Http.Client.{sized, read_reply}
use huasi.Gateway.Query.{parse_query}
use huasi.Gateway.Handler.{method_get, node_of, addressed, on_request}
use huasi.Gateway.Handler.Messages.{two_messages_read}
use huasi.Gateway.Handler.ZWaveOps.{zwave_ops}
use huasi.Gateway.Handler.ZWaveOps.System as System
use huasi.Gateway.Handler.ZWaveOps.System.{new_network, SystemReach, reached_get_served}
use huasi.Gateway.Connection.Clients.Asking.{Asked, answers}
use huasi.Gateway.Connection.Clients.Turns.{asked_in, on_client_lem}
use huasi.Port.{Port, opened}
use huasi.Program.{
  Surroundings, Program, running, main, serial, serves, client_reads, Reach, here, next,
}

module _ (o : Surroundings) where
  -- The network's part of a run.
  abbrev NetworkReach : Port (Protocol Network) → Port (Protocol Network) → Type 0
  NetworkReach = SystemReach o.stale o.parse_url o.atoi

  answers_reached :
      (asked : List Asked) {p q : Port (Protocol Network)}
      → NetworkReach p q
      → NetworkReach p (record q {
        protocol = (answers (zwave_ops o.stale) o.parse_url o.atoi asked q.protocol).0;
      })
  answers_reached [] r = r
  answers_reached (a ∷ asked) r =
      answers_reached asked (System.then_step r (System.request a.keep_alive a.method a.path))

  network_reached : {p q : Program o} → Reach o p q → NetworkReach p.network q.network
  network_reached here = System.at_start
  network_reached (next r (serial e)) = System.then_step (network_reached r) (System.serial e)
  network_reached (next r (serves e)) = network_reached r
  network_reached {p} (next {q} r (client_reads i bytes)) =
      let lem =
        on_client_lem (zwave_ops o.stale) o.parse_url o.atoi o.moved o.parser i bytes q.connections
          q.network.protocol in
      let asked = (asked_in o.moved o.parser bytes (q.connections i)).1 in
      subst (λ s. NetworkReach p.network (record q.network { protocol = s }))
        (sym (ap (λ c. c.0.1) lem)) (answers_reached asked (network_reached r))

  main_lem :
      (memory : Bytes) (arguments : List Bytes) (p : Program o)
      → main o memory arguments ≡ running p
      → p.network ≡ opened (network_started memory new_network)
  unfolding main
  main_lem memory [] p e = ground arith
  main_lem memory (name ∷ []) p e = ground arith
  main_lem memory (name ∷ device ∷ rest) p e = ground arith

  -- At every time after `main` has begun to run the event loop, whatever the serial port, its timer, the
  -- server, its channels and the clients did so far, errors included: a GET for a node below 256 that
  -- has command classes leaves the network as it is; and a client that has received the two texts of
  -- the answer one after the other, as they were handed to sendData, and reads them by the rules of
  -- HTTP/1.1, whatever follows on the connection, gets the status 200 and a body that, read as a
  -- query, is what the network gives for the node, parameter by parameter, in the same order.
  pub program_serves :
      (memory : Bytes) (arguments : List Bytes) (p q : Program o) (keep_alive : Bool)
      (url later received : Bytes)
      → main o memory arguments ≡ running p
      → Reach o p q
      → addressed o.parse_url url ≡ true
      → node_of o.parse_url o.atoi url < 256
      → is_empty (q.network.protocol.network.nodes (node_of o.parse_url o.atoi url)).commands
        ≡ false
      → received
        ≡ joined
            (on_request
              (zwave_ops o.stale)
              o.parse_url
              o.atoi
              keep_alive
              method_get
              url
              q.network.protocol).1
          ++ later
      → let s = q.network.protocol in
        ((on_request (zwave_ops o.stale) o.parse_url o.atoi keep_alive method_get url s).0 ≡ s)
        × (text : Bytes) × (read_reply false received
            ≡ some (record {
              status = codes "HTTP/1.1 200 OK";
              closes = not keep_alive;
              content = sized text later;
            }))
        × (parse_query text ≡ (network_get (node_of o.parse_url o.atoi url) [] s.network).1)
  unfolding read_reply
  program_serves memory arguments p q keep_alive url later received runs r there low some_class e =
      let (text, answered, meant) =
        reached_get_served o.stale o.parse_url o.atoi memory q.network keep_alive url
          (subst (λ n. NetworkReach n q.network) (main_lem memory arguments p runs)
            (network_reached r))
          there low some_class in
      let read = e ∙ ap (λ c. joined c.1 ++ later) answered in
      (ap (λ c. c.0) answered, text, rw (read, two_messages_read keep_alive text later) refl, meant)
