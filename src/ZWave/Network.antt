-- ===== src/ZWave/Network.antt =====
-- class ZWaveNetwork of src/zwave/ZWaveNetwork.hpp and .cpp: the nodes, and the virtual methods that
-- the protocol calls.
pub mod Ascending
pub mod Discovery
pub mod Nodes
pub mod Targets
pub mod Startup
pub mod Names
pub mod ClassList
use huasi.Prelude.{
  ℕ, zero, suc, ◌+◌, ◌-◌, ◌*◌, ◌/◌, ◌%◌, Option, none, some, Bool, true, false, ◌&&◌, ◌||◌, not,
  List, [], ◌∷◌, ◌++◌, Bytes, codes, ltb, leb, ◌==◌, if◌then◌else◌, map, get_or, is_empty, drop,
  length,
}
use huasi.Prelude.SortedMap.{SortedMap, nat_key, bytes_key, lookup, insert}
use huasi.Cast.{to_text}
use huasi.Parameters.{Parameters}
use huasi.ZWave.Request.{
  Request, discover_nodes, get_node_info, send_data, application_command_handler,
  zw_application_update,
}
use huasi.ZWave.Protocol.{Handlers}
use huasi.ZWave.Classes.{basic_class, configuration_class, manufacturer_specific_class, mark_class}
use huasi.ZWave.Command.{
  Command, basic, config, manufacturer_specific, Node, send_set, send_get, get, on_command,
}

-- The array of nodes. `overrun` says that a byte behind the end of the receive buffer was read: what
-- such a byte holds is not defined, and the model reads a zero.
pub record Network : Type 0 where
  pub nodes : ℕ → Node
  pub overrun : Bool

pub set_node : ℕ → Node → Network → Network
set_node node_id node n = record n { nodes = λ i. if i == node_id then node else n.nodes i }

-- The loop over the bits of one byte: at most eight rounds, until no bit is left.
node_ids : ℕ → ℕ → ℕ → List ℕ
node_ids zero b node_id = []
node_ids (suc fuel) b node_id =
    let node_id' = (node_id + 1) % 256 in
    let rest = node_ids fuel (b / 2) node_id' in
    if b == 0 then [] else if b % 2 == 1 && not (node_id' == 1) then node_id' ∷ rest else rest

-- The loop over the bytes of the bit field, from the byte with number `byte_index` on.
found_nodes : ℕ → ℕ → Bytes → List ℕ
found_nodes zero byte_index bytes = []
found_nodes (suc count) byte_index bytes =
    node_ids 8 (get_or bytes (3 + byte_index) 0) (byte_index * 8 % 256)
    ++ found_nodes count (byte_index + 1) bytes

-- DiscoverNodesRequest::onResponse: the nodes whose info is requested, in this order.
unfoldable pub discovered : Bytes → ℕ → List ℕ
unfolding found_nodes node_ids
discovered bytes length' = if leb 4 length' then found_nodes (get_or bytes 2 0) 0 bytes else []

-- The bit field ends behind the buffer.
unfoldable pub overruns : Bytes → ℕ → Bool
overruns bytes length' = leb 4 length' && ltb (length bytes) (3 + get_or bytes 2 0)

-- `onResponse` of the requests. That of GetNodeInfoRequest is empty, and that of SendDataRequest only
-- prints.
unfoldable pub on_response : Request → Bytes → ℕ → Network → Network × List Request
on_response discover_nodes bytes length' n = (
  record n { overrun = n.overrun || overruns bytes length' },
  map get_node_info (discovered bytes length'),
)
on_response (get_node_info node_id) bytes length' n = (n, [])
on_response (send_data node_id sent func_id) bytes length' n = (n, [])

-- The class bytes up to the first MARK: `end - 7`, for `end` from 7 on.
pub class_count : ℕ → ℕ → Bytes → ℕ
class_count zero end_index bytes = 0
class_count (suc room) end_index bytes =
    if get_or bytes end_index 0 == mark_class
    then 0
    else suc (class_count room (end_index + 1) bytes)

-- The loop of `updateNode` over the classes.
add_classes : ℕ → ℕ → Bytes → SortedMap ℕ Command → SortedMap ℕ Command
add_classes zero i classes commands = commands
add_classes (suc count) i classes commands =
    let c = get_or classes i 0 in
    add_classes count (i + 1) classes (
      if c == basic_class
      then insert basic_class (basic 0) commands
      else if c == configuration_class
      then insert configuration_class config commands
      else if c == manufacturer_specific_class
      then insert manufacturer_specific_class
          (manufacturer_specific (record { manufacturer = 0; product = 0; id = 0 })) commands
      else commands)

all_gets : SortedMap ℕ Command → List Bytes
all_gets [] = []
all_gets ((c, command) ∷ rest) = send_get command ++ all_gets rest

-- `sendSet` of all commands of a node, in the order of their classes.
all_sets : Parameters → SortedMap ℕ Command → SortedMap ℕ Command × List Bytes
all_sets parameters [] = ([], [])
all_sets parameters ((c, command) ∷ rest) =
    let (command', sent) = send_set command parameters in
    let (rest', sent') = all_sets parameters rest in ((c, command') ∷ rest', sent ++ sent')

unfoldable pub all_values : SortedMap ℕ Command → Parameters → Parameters
all_values [] parameters = parameters
all_values ((c, command) ∷ rest) parameters = all_values rest (get command parameters)

-- `stale` is what the `funcId` of a new SendRequest holds before it is first set.
module _ (stale : ℕ) where
  -- `Sender::send`, for each of the byte strings.
  abbrev pub sends : ℕ → List Bytes → List Request
  sends node_id = map (λ sent. send_data node_id sent stale)

  -- `updateNode`.
  unfoldable pub update_node : ℕ → Bytes → ℕ → Network → Network × List Request
  unfolding add_classes all_gets set_node
  update_node node_id classes count n =
      let node = n.nodes node_id in
      let commands' = add_classes count 0 classes node.commands in
      (
        set_node node_id (record node { name = to_text node_id; commands = commands' }) n,
        sends node_id (all_gets commands'),
      )

  -- A command for a node. It goes to the command object of its class, if the node has one.
  command_arrived : ℕ → ℕ → Bytes → ℕ → Network → Network × List Request
  command_arrived node_id class_code bytes length' n =
      elim (lookup class_code (n.nodes node_id).commands) [
        | none ↦ (n, [])
        | some command ↦
            let (node', sent) = on_command class_code command (n.nodes node_id) bytes length' in
            (set_node node_id node' n, sends node_id sent)
      ]

  -- `ZWaveNetwork::onRequest`. The classes are handed on from the start of the data.
  unfoldable pub on_request : Bytes → ℕ → Network → Network × List Request
  unfolding command_arrived class_count
  on_request bytes length' n =
      if leb 3 length'
      then (if get_or bytes 0 0 == application_command_handler && leb 7 length'
          then (if leb (4 + get_or bytes 3 0) length'
              then command_arrived (get_or bytes 2 0) (get_or bytes 4 0) (drop 4 bytes)
                  (get_or bytes 3 0) n
              else (n, []))
          else if get_or bytes 0 0 == zw_application_update && leb 7 length'
          then update_node (get_or bytes 2 0) bytes (class_count (length' - 7) 7 bytes) n
          else (n, []))
      else (n, [])

  abbrev pub handlers : Handlers Network
  handlers = record {
    on_response = on_response;
    on_transmit = λ r bytes length' n. (n, []);
    on_request = on_request;
  }

  -- `ZWaveNetwork::sendSet`: what it returns, the nodes afterwards, and the requests.
  unfoldable pub network_send_set : ℕ → Parameters → Network → Bool × Network × List Request
  unfolding all_sets set_node
  network_send_set node_id parameters n =
      if ltb node_id 256 && not (is_empty (n.nodes node_id).commands)
      then (let (commands', sent) = all_sets parameters (n.nodes node_id).commands in
          (
            true,
            set_node node_id (record (n.nodes node_id) { commands = commands' }) n,
            sends node_id sent,
          ))
      else (false, n, [])

-- `ZWaveNetwork::get`: what it returns, and the parameters afterwards.
unfoldable pub network_get : ℕ → Parameters → Network → Bool × Parameters
unfolding all_values
network_get node_id parameters n =
    if ltb node_id 256
    then (let node = n.nodes node_id in
        let named = insert (codes "node.name") node.name parameters in
        let described =
          if is_empty node.device_name
          then named
          else insert (codes "device.name") node.device_name named in
        if not (is_empty node.commands)
        then (true, all_values node.commands described)
        else (false, described))
    else (false, parameters)
