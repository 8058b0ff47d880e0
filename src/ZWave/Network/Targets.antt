-- ===== src/ZWave/Network/Targets.antt =====
-- Requests of the network and the nodes that they are for.
use huasi.Prelude.{
  ℕ, ◌≡◌, refl, Bool, true, false, ◌&&◌, List, [], ◌∷◌, Bytes, ltb, if◌then◌else◌, All, not,
  is_empty, ◌≢◌, ==_ne, inl, inr, Bool-cases,
}
use huasi.Parameters.{Parameters}
use huasi.ZWave.Request.{Request, discover_nodes, get_node_info, send_data}
use huasi.ZWave.Network.{Network, set_node, sends, network_send_set}

abbrev pub IsFor : ℕ → Request → Type 0
IsFor node_id discover_nodes = ⊥
IsFor node_id (get_node_info other) = other ≡ node_id
IsFor node_id (send_data other bytes func_id) = other ≡ node_id

module _ (stale : ℕ) where
  sends-IsFor :
      (node_id : ℕ) (messages : List Bytes) → All (IsFor node_id) (sends stale node_id messages)
  sends-IsFor node_id [] = tt
  sends-IsFor node_id (m ∷ ms) = (refl, sends-IsFor node_id ms)

  -- The same, with the statements on other nodes and on refusals under their conditions.
  pub network_send_set_scope :
      (node_id : ℕ) (parameters : Parameters) (n : Network)
      → let (sent, n', requests) = network_send_set stale node_id parameters n in
        (sent ≡ (ltb node_id 256 && not (is_empty (n.nodes node_id).commands)))
        × All (IsFor node_id) requests
        × ((other : ℕ) → other ≢ node_id → n'.nodes other ≡ n.nodes other)
        × (sent ≡ false → (n' ≡ n) × (requests ≡ []))
  unfolding network_send_set set_node
  network_send_set_scope node_id parameters n =
      elim (Bool-cases (ltb node_id 256 && not (is_empty (n.nodes node_id).commands))) [
        | inl there ↦
            rw there (
              refl,
              sends-IsFor node_id _,
              λ other differ. rw (==_ne other node_id differ),
              λ e. cc,
            )
        | inr missing ↦ rw missing (refl, tt, λ other differ. refl, λ e. (refl, refl))
      ]

  -- `sendSet` succeeds exactly for a node below 256 that has a command class which the code knows: a
  -- node of the network that has none is refused as one that does not exist. Every request is for that
  -- node, and any other node stays as it is. If it fails, nothing is sent and nothing changes.
  pub network_send_set_target :
      (node_id other : ℕ) (parameters : Parameters) (n : Network)
      → other ≢ node_id
      → let (sent, n', requests) = network_send_set stale node_id parameters n in
        (sent ≡ (ltb node_id 256 && not (is_empty (n.nodes node_id).commands)))
        × All (IsFor node_id) requests
        × (n'.nodes other ≡ n.nodes other)
        × (n' ≡ (if sent then n' else n))
        × (requests ≡ (if sent then requests else []))
  network_send_set_target node_id other parameters n differ =
      let (sent, targets, others, refused) = network_send_set_scope node_id parameters n in
      let (same, none_sent) = unchanged _ _ _ _ refused in
      (sent, targets, others other differ, same, none_sent)
    where
      unchanged :
          (sent : Bool) (n' : Network) (requests : List Request) (n : Network)
          → (sent ≡ false → (n' ≡ n) × (requests ≡ []))
          → (n' ≡ (if sent then n' else n)) × (requests ≡ (if sent then requests else []))
      unchanged true n' requests n h = (refl, refl)
      unchanged false n' requests n h = h refl
