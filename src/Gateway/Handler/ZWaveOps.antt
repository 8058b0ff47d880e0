-- ===== src/Gateway/Handler/ZWaveOps.antt =====
-- The ZWave network behind the gateway.
pub mod Values
pub mod System
pub mod Posting
use huasi.Prelude.{ℕ, ◌≡◌, Bool, false}
use mathlib.Core.Path.{ap₂}
use huasi.Parameters.{Parameters}
use huasi.ZWave.Protocol.{Protocol, send_all}
use huasi.ZWave.Network.{Network, network_send_set, network_get}
use huasi.ZWave.Network.Targets.{network_send_set_scope}
use huasi.Gateway.Handler.{NetworkOps}

module _ (stale : ℕ) where
  abbrev pub zwave_send_set : ℕ → Parameters → Protocol Network → Bool × Protocol Network
  zwave_send_set node_id p s =
      let (sent, n, requests) = network_send_set stale node_id p s.network in
      (sent, send_all requests (record s { network = n }))

  pub refused :
      (node_id : ℕ) (p : Parameters) (s : Protocol Network)
      → (zwave_send_set node_id p s).0 ≡ false
      → (zwave_send_set node_id p s).1 ≡ s
  unfolding send_all
  refused node_id p s no_node =
      let (same, none_sent) = (network_send_set_scope stale node_id p s.network).3 no_node in
      ap₂ (λ rs n. send_all rs (record s { network = n })) none_sent same

  -- The ZWave network keeps the contract of a network.
  abbrev pub zwave_ops : NetworkOps (Protocol Network)
  zwave_ops = record {
    send_set = zwave_send_set;
    get = λ node_id p s. network_get node_id p s.network;
    refused_same = refused;
  }
