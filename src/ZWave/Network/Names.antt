-- ===== src/ZWave/Network/Names.antt =====
-- The names of the nodes: what the network writes into them.
use huasi.Prelude.{
  get_or, drop, ◌-◌, ℕ, arith, Bytes, ◌==◌, ◌&&◌, Bool-cases, inl, inr, ltb, not, is_empty,
  Option-cases,
}
use huasi.Prelude.SortedMap.{nat_key, lookup}
use huasi.Cast.Digits.{to_text-IsByte}
use huasi.Parameters.{Parameters}
use huasi.ZWave.Request.{Request, discover_nodes, get_node_info, send_data}
use huasi.ZWave.Command.{Node}
use huasi.ZWave.Command.Names.{IsNamed, on_command-IsNamed}
use huasi.ZWave.Protocol.Receive.Subclass.{IsKept}
use huasi.ZWave.Network.{
  Network, set_node, on_response, update_node, command_arrived, on_request, class_count, handlers,
  network_send_set,
}

abbrev pub AllNamed : Network → Type 0
AllNamed n = (node_id : ℕ) → IsNamed (n.nodes node_id)

pub set_node-AllNamed :
    (node_id : ℕ) (node : Node) (n : Network)
    → IsNamed node
    → AllNamed n
    → AllNamed (set_node node_id node n)
unfolding set_node
set_node-AllNamed node_id node n named v i = elim (Bool-cases (i == node_id)) [
  | inl same ↦ rw same named
  | inr other ↦ rw other (v i)
]

module _ (stale : ℕ) where
  command_arrived-AllNamed :
      (node_id class_code : ℕ) (bytes : Bytes) (size : ℕ) (n : Network)
      → AllNamed n
      → AllNamed (command_arrived stale node_id class_code bytes size n).0
  unfolding command_arrived
  command_arrived-AllNamed node_id class_code bytes size n v =
      elim (Option-cases (lookup class_code (n.nodes node_id).commands)) [
        | inl missing ↦ rw (missing, command_arrived) v
        | inr (c, found) ↦
            rw (found, command_arrived)
              (set_node-AllNamed node_id _ n
                (on_command-IsNamed class_code c (n.nodes node_id) bytes size (v node_id)) v)
      ]

  update_node-AllNamed :
      (node_id : ℕ) (classes : Bytes) (count : ℕ) (n : Network)
      → AllNamed n
      → AllNamed (update_node stale node_id classes count n).0
  unfolding update_node
  update_node-AllNamed node_id classes count n v =
      set_node-AllNamed node_id _ n (to_text-IsByte node_id, (v node_id).1) v

  on_request-AllNamed :
      (bytes : Bytes) (size : ℕ) (n : Network)
      → AllNamed n
      → AllNamed (on_request stale bytes size n).0
  unfolding on_request
  on_request-AllNamed bytes size n v i = ground (
    arith,
    v i,
    command_arrived-AllNamed (get_or bytes 2 0) (get_or bytes 4 0) (drop 4 bytes) (get_or bytes 3 0)
        n v i,
    update_node-AllNamed (get_or bytes 2 0) bytes (class_count (size - 7) 7 bytes) n v i,
  )

  -- The virtual methods keep the names bytes.
  pub handlers-IsKept : IsKept (handlers stale) AllNamed
  unfolding on_response
  handlers-IsKept = record {
    by_response = by_response;
    by_transmit = λ r bytes size n v. v;
    by_request = on_request-AllNamed;
  }
    where
      by_response :
          (r : Request) (bytes : Bytes) (size : ℕ) (n : Network)
          → AllNamed n
          → AllNamed (on_response r bytes size n).0
      by_response discover_nodes bytes size n v = v
      by_response (get_node_info i) bytes size n v = v
      by_response (send_data i sent func_id) bytes size n v = v

  -- So does a request of a client.
  pub network_send_set-AllNamed :
      (node_id : ℕ) (p : Parameters) (n : Network)
      → AllNamed n
      → AllNamed (network_send_set stale node_id p n).1
  unfolding network_send_set
  network_send_set-AllNamed node_id p n v =
      elim (Bool-cases (ltb node_id 256 && not (is_empty (n.nodes node_id).commands))) [
        | inl there ↦ rw there (set_node-AllNamed node_id _ n (v node_id) v)
        | inr missing ↦ rw missing v
      ]
