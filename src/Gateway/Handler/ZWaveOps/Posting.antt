-- ===== src/Gateway/Handler/ZWaveOps/Posting.antt =====
-- A request of a client that dims a node, from the url to the status of the transmission.
use huasi.Prelude.{
  ℕ, ◌<◌, ◌≡◌, refl, ◌∙◌, ap, Bool, true, false, some, [], ◌∷◌, arith, Bytes, codes, ◌>>=◌,
}
use huasi.Prelude.SortedMap.{nat_key}
use huasi.Parameters.{Parameters, get_percentage}
use huasi.Http.Url.{ParsedUrl, new_url, get_query}
use huasi.Gateway.Query.{parse_query}
use huasi.Gateway.Handler.{method_post, plain_answer, addressed, node_of, on_request}
use huasi.Gateway.Handler.ZWaveOps.{zwave_ops}
use huasi.ZWave.Request.{send_data, zw_send_data, get_request, function}
use huasi.ZWave.Frame.{
  ack, frame, request_frame, response_frame, tx_frame, request_data, with_func_id,
}
use huasi.ZWave.Classes.{basic_class}
use huasi.ZWave.Classes.Values.{dim_sent}
use huasi.ZWave.Command.{basic, send_set}
use huasi.ZWave.Protocol.{Protocol, write, send_first, send_front, send_request, send_all}
use huasi.ZWave.Protocol.Receive.{on_read}
use huasi.ZWave.Protocol.Receive.Transmission.{IsQuiet, send_data_completes}
use huasi.ZWave.Network.{Network, on_response, handlers, network_send_set}

-- The message that sets the value of BASIC.
abbrev pub basic_set : ℕ → Bytes
basic_set value = basic_class ∷ 0x01 ∷ value ∷ []

module _ (stale : ℕ) where
  pub handlers-IsQuiet : IsQuiet (handlers stale)
  unfolding on_response
  handlers-IsQuiet = record {
    response_none = λ node_id bytes id content size n. refl;
    transmit_none = λ node_id bytes id content size n. refl;
  }

  send_set_dim :
      (node_id old dim : ℕ) (p : Parameters) (n : Network)
      → node_id < 256
      → (n.nodes node_id).commands ≡ (basic_class, basic old) ∷ []
      → get_percentage p (codes "dim") ≡ some dim
      → (network_send_set stale node_id p n).0 ≡ true
        × (network_send_set stale node_id p n).2 ≡ send_data node_id (basic_set dim) stale ∷ []
  unfolding network_send_set send_set
  send_set_dim node_id old dim p n low only given = ground (arith, dim_sent dim p given)

  -- An idle protocol sends the only request at once.
  sent_at_once :
      (node_id dim : ℕ) (s : Protocol Network)
      → s.requests ≡ []
      → let s' = send_all (send_data node_id (basic_set dim) stale ∷ []) s in
        (s'.requests ≡ send_data node_id (basic_set dim) s.next_func_id ∷ [])
        × (s'.log
            ≡ write (
                frame request_frame zw_send_data
                  (node_id ∷ 3 ∷ basic_class ∷ 0x01 ∷ dim ∷ 0x05 ∷ s.next_func_id ∷ []))
              ∷ s.log)
        × (s'.rx_position ≡ s.rx_position)
  unfolding send_all send_request send_front send_first with_func_id tx_frame request_data
      get_request function
  sent_at_once node_id dim s idle = ground arith

  module _ (parse_url : Bytes → ParsedUrl) (atoi : Bytes → ℕ) where
    posted :
        (keep_alive : Bool) (url : Bytes) (old dim : ℕ) (s : Protocol Network)
        → addressed parse_url url ≡ true
        → node_of parse_url atoi url < 256
        → (s.network.nodes (node_of parse_url atoi url)).commands ≡ (basic_class, basic old) ∷ []
        → get_percentage (parse_query (get_query (new_url parse_url url))) (codes "dim") ≡ some dim
        → let node_id = node_of parse_url atoi url in
          let parameters = parse_query (get_query (new_url parse_url url)) in
          on_request (zwave_ops stale) parse_url atoi keep_alive method_post url s ≡ (
            send_all
                (send_data node_id (basic_set dim) stale ∷ [])
                (record s { network = (network_send_set stale node_id parameters s.network).1 }),
            plain_answer keep_alive 200 (codes "OK") ∷ [],
          )
    unfolding on_request
    posted keep_alive url old dim s there low only given =
        let (accepted, messages) =
          send_set_dim (node_of parse_url atoi url) old dim _ s.network low only given in
        rw there (rw (accepted, messages) refl)

    -- A POST with a dim value, for a node below 256 whose only command class is BASIC, while no request
    -- waits and the buffer is empty: it is answered with 200 alone, and one frame is written, which
    -- carries the value to the node. When the controller confirms the frame, takes the message over and
    -- reports its status, no request waits, both of its frames are acknowledged and the timer stands.
    pub post_dims_node :
        (keep_alive : Bool) (url : Bytes) (old dim taken status : ℕ) (s : Protocol Network)
        → addressed parse_url url ≡ true
        → node_of parse_url atoi url < 256
        → (s.network.nodes (node_of parse_url atoi url)).commands ≡ (basic_class, basic old) ∷ []
        → get_percentage (parse_query (get_query (new_url parse_url url))) (codes "dim") ≡ some dim
        → s.requests ≡ []
        → s.rx_position ≡ 0
        → let (s', sent) =
            on_request (zwave_ops stale) parse_url atoi keep_alive method_post url s in
          let message : Bytes = frame request_frame zw_send_data (
            node_of parse_url atoi url
            ∷ 3
            ∷ basic_class
            ∷ 0x01
            ∷ dim
            ∷ 0x05
            ∷ s.next_func_id
            ∷ []) in
          (sent ≡ plain_answer keep_alive 200 (codes "OK") ∷ [])
          × (s'.log ≡ write message ∷ s.log)
          × (q : Protocol Network) × ((on_read (handlers stale) (ack ∷ []) s'
                >>= on_read (handlers stale) (frame response_frame zw_send_data (taken ∷ []))
                >>= on_read
                    (handlers stale)
                    (frame request_frame zw_send_data (s.next_func_id ∷ status ∷ [])))
              ≡ some q)
          × (q.requests ≡ [])
          × (q.log ≡ write (ack ∷ []) ∷ write (ack ∷ []) ∷ write message ∷ s.log)
          × (q.timer ≡ false)
    post_dims_node keep_alive url old dim taken status s there low only given idle empty =
        let node_id = node_of parse_url atoi url in
        let parameters = parse_query (get_query (new_url parse_url url)) in
        let changed : Protocol Network = record s {
          network = (network_send_set stale node_id parameters s.network).1;
        } in
        let e = posted keep_alive url old dim s there low only given in
        let (queue, written, position) = sent_at_once node_id dim changed idle in
        let s' = send_all (send_data node_id (basic_set dim) stale ∷ []) changed in
        let (q, reads, none_waits, log, timer, count, emptied) =
          send_data_completes (handlers stale) handlers-IsQuiet node_id s.next_func_id taken status
            (basic_set dim) [] s' queue (position ∙ empty) in
        rw e (
          refl,
          written,
          q,
          reads,
          none_waits,
          log ∙ ap (λ l. write (ack ∷ []) ∷ write (ack ∷ []) ∷ l) written,
          timer,
        )
