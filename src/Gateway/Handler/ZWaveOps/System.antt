-- ===== src/Gateway/Handler/ZWaveOps/System.antt =====
-- The gateway and the ZWave network together: events of the serial port, errors included, and requests
-- of clients, in any order, from the start of the program.
use huasi.Prelude.{is_empty, false, ◌<◌, ℕ, ◌≡◌, Bool, true, false, [], ◌∷◌, arith, Bytes, length}
use mathlib.Core.Path.{subst, sym, ◌∙◌}
use huasi.Parameters.{Parameters}
use huasi.Http.Url.{ParsedUrl}
use huasi.Gateway.Query.{parse_query, body}
use huasi.Gateway.Query.Inverse.{parse_query-body}
use huasi.Gateway.Handler.{Method, method_get, content_answer, addressed, node_of, on_request}
use huasi.Gateway.Handler.Answers.{on_request_keeps}
use huasi.Gateway.Handler.ZWaveOps.{zwave_send_set, zwave_ops}
use huasi.Gateway.Handler.ZWaveOps.Values.{network_get-IsFit}
use huasi.ZWave.Request.{discover_nodes}
use huasi.ZWave.Protocol.{Protocol, send_all}
use huasi.ZWave.Protocol.Run.{started, started_network, receive}
use huasi.ZWave.Protocol.Unheard.{send_request-Unheard, resend_request-Unheard}
use huasi.Port.{Port, opened, Step}
use huasi.Port.Life.{Obeys, Reads, step_obeys}
use huasi.ZWave.Port.{driver}
use huasi.ZWave.Protocol.Receive.Subclass.{send_all_network, Step_keeps_network}
use huasi.ZWave.Network.{Network, handlers, network_send_set, network_get}
use huasi.ZWave.Network.Names.{AllNamed, handlers-IsKept, network_send_set-AllNamed}
use huasi.ZWave.Network.Startup.{network_started}

-- The nodes before anything is known of them.
abbrev pub new_network : Network
new_network = record {
  nodes = λ node_id. record { device_name = []; name = []; commands = [] };
  overrun = false;
}

module _ (stale : ℕ) (parse_url : Bytes → ParsedUrl) (atoi : Bytes → ℕ) where
  pub data SystemStep (p : Port (Protocol Network)) : Port (Protocol Network) → Type 0 where
    serial : {q : Port (Protocol Network)} → Step (driver (handlers stale)) p q → SystemStep p q
    request :
        (keep_alive : Bool) (method : Method) (url : Bytes)
        → SystemStep p (record p {
          protocol =
              (on_request (zwave_ops stale) parse_url atoi keep_alive method url p.protocol).0;
        })

  pub data SystemReach (p : Port (Protocol Network)) : Port (Protocol Network) → Type 0 where
    at_start : SystemReach p p
    then_step : {q r : Port (Protocol Network)} → SystemReach p q → SystemStep q r → SystemReach p r

  abbrev Named : Protocol Network → Type 0
  Named s = AllNamed s.network

  -- Whatever the protocol does, the names of the nodes stay clean.
  abbrev KeepsNames : Protocol Network → Protocol Network → Type 0
  KeepsNames s t = Named s → Named t

  names-Obeys : Obeys (driver (handlers stale)) KeepsNames
  unfolding huasi.ZWave.Protocol.on_timeout
  names-Obeys = record {
    same = λ s v. v;
    both = λ s t u before after v. after (before v);
    sends = λ r s v. subst AllNamed (sym (send_request-Unheard r s).same_network) v;
    stops = λ s v. v;
    times_out = λ s v. subst AllNamed (sym (resend_request-Unheard s).same_network) v;
  }

  read-KeepsNames : Reads (driver (handlers stale)) KeepsNames
  read-KeepsNames bytes s t fits e v =
      Step_keeps_network (handlers stale) AllNamed (handlers-IsKept stale) (receive bytes fits e) v

  zwave_send_set-Named :
      (node_id : ℕ) (p : Parameters) (s : Protocol Network)
      → Named s
      → Named (zwave_send_set stale node_id p s).1
  zwave_send_set-Named node_id p s v =
      let (sent, n, requests) = network_send_set stale node_id p s.network in
      subst AllNamed (sym (send_all_network requests (record s { network = n })))
        (network_send_set-AllNamed stale node_id p s.network v)

  SystemStep-Named :
      {p q : Port (Protocol Network)} → SystemStep p q → Named p.protocol → Named q.protocol
  SystemStep-Named (serial e) v =
      step_obeys (driver (handlers stale)) KeepsNames names-Obeys read-KeepsNames e v
  SystemStep-Named {p} (request keep_alive method url) v =
      on_request_keeps (zwave_ops stale) parse_url atoi Named zwave_send_set-Named keep_alive method
        url p.protocol v

  SystemReach-Named :
      {p q : Port (Protocol Network)} → SystemReach p q → Named p.protocol → Named q.protocol
  SystemReach-Named at_start v = v
  SystemReach-Named (then_step r e) v = SystemStep-Named e (SystemReach-Named r v)

  new_network-AllNamed : AllNamed new_network
  new_network-AllNamed node_id = (tt, tt)

  started-Named : (memory : Bytes) → Named (network_started memory new_network)
  unfolding send_all
  started-Named memory =
      subst AllNamed
        (sym (
          send_all_network (discover_nodes ∷ []) (started memory new_network)
          ∙ started_network memory new_network))
        new_network-AllNamed

  known :
      (node_id : ℕ) (n : Network)
      → node_id < 256
      → is_empty (n.nodes node_id).commands ≡ false
      → (network_get node_id [] n).0 ≡ true
  unfolding network_get
  known node_id n low some_class = ground arith

  -- At every time after the start of the program, whatever the serial port, its timer and the clients
  -- did so far, errors included: a GET for a node below 256 that has command classes is answered with
  -- 200, by a head that names the length of the body and by the body; the state stays as it is; and the
  -- body, read as a query, is what the network gives for the node, parameter by parameter, in the same
  -- order.
  pub reached_get_served :
      (memory : Bytes) (p : Port (Protocol Network)) (keep_alive : Bool) (url : Bytes)
      → SystemReach (opened (network_started memory new_network)) p
      → addressed parse_url url ≡ true
      → node_of parse_url atoi url < 256
      → let s = p.protocol in
        is_empty (s.network.nodes (node_of parse_url atoi url)).commands ≡ false
        → (text : Bytes) × (on_request (zwave_ops stale) parse_url atoi keep_alive method_get url s
            ≡ (s, content_answer keep_alive (length text) ∷ text ∷ []))
          × (parse_query text ≡ (network_get (node_of parse_url atoi url) [] s.network).1)
  unfolding on_request
  reached_get_served memory p keep_alive url r there low some_class =
      let n = p.protocol.network in
      let node_id = node_of parse_url atoi url in
      let given : Parameters = (network_get node_id [] n).1 in
      let fit = network_get-IsFit node_id n (SystemReach-Named r (started-Named memory) node_id) in
      (
        body given,
        rw (there, known node_id n low some_class),
        parse_query-body given fit.clean fit.sorted,
      )
