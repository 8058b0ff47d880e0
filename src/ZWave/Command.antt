-- ===== src/ZWave/Command.antt =====
-- class Command of src/zwave/ZWaveNetwork.hpp with its subclasses, and the node that holds them. The
-- virtual methods are functions by clauses, with one clause for each subclass.
pub mod Names
use huasi.Prelude.{ℕ, none, some, ◌&&◌, List, [], ◌++◌, Bytes, codes, ◌==◌, if◌then◌else◌}
use huasi.Prelude.SortedMap.{SortedMap, nat_key, insert}
use huasi.Parameters.{Parameters}
use huasi.ZWave.Classes.{
  configuration_class, manufacturer_proprietary_class, Manufacturer, basic_send_set, basic_send_get,
  basic_get, basic_on_command, config_on_command, manufacturer_send_get, manufacturer_get,
  manufacturer_report,
}
use huasi.ZWave.Fibaro.{
  Shutter, shutter_send_set, shutter_send_get, shutter_get, shutter_on_command, config_send_set,
  config_send_get, config_get, config_on_report,
}

pub data Command : Type 0 where
  basic : ℕ → Command
  config : Command
  manufacturer_specific : Manufacturer → Command
  shutter : Shutter → Command
  shutter_config : ℕ → Command

-- The command classes are in the order of their codes.
pub record Node : Type 0 where
  pub device_name : Bytes
  pub name : Bytes
  pub commands : SortedMap ℕ Command

-- `sendSet`: the object afterwards, and what it sends.
unfoldable pub send_set : Command → Parameters → Command × List Bytes
send_set (basic value) parameters = (basic value, basic_send_set parameters)
send_set config parameters = (config, [])
send_set (manufacturer_specific m) parameters = (manufacturer_specific m, [])
send_set (shutter s) parameters = (shutter s, shutter_send_set parameters)
send_set (shutter_config slat_time) parameters =
    let (slat_time', sent) = config_send_set slat_time parameters in
    (shutter_config slat_time', sent)

unfoldable pub send_get : Command → List Bytes
send_get (basic value) = basic_send_get
send_get config = []
send_get (manufacturer_specific m) = manufacturer_send_get
send_get (shutter s) = shutter_send_get
send_get (shutter_config slat_time) = config_send_get

unfoldable pub get : Command → Parameters → Parameters
get (basic value) parameters = basic_get value parameters
get config parameters = parameters
get (manufacturer_specific m) parameters = manufacturer_get m parameters
get (shutter s) parameters = shutter_get s parameters
get (shutter_config slat_time) parameters = config_get slat_time parameters

-- The objects that a new FibaroFgr222 node gets: all their fields are zero.
abbrev new_shutter : Command
new_shutter = shutter (record { blinds = 0; slat = 0 })

-- `onCommand` of ManufacturerSpecificCommand, behind the test of the length. A shutter gets two new
-- command classes, and each of them asks for the current state.
identified : ℕ → Manufacturer → Node → Node × List Bytes
identified class_code m node =
    let known = insert class_code (manufacturer_specific m) node.commands in
    if m.manufacturer == 271 && m.product == 770
    then (
      record node {
        device_name = codes "Fibaro FGR-222";
        commands =
            insert manufacturer_proprietary_class new_shutter
              (insert configuration_class (shutter_config 0) known);
      },
      send_get (shutter_config 0) ++ send_get new_shutter,
    )
    else (record node { commands = known }, [])

-- `onCommand` of the command object that the node holds under `class_code`.
unfoldable pub on_command : ℕ → Command → Node → Bytes → ℕ → Node × List Bytes
unfolding identified
on_command class_code (basic value) node bytes length' = (
  record node {
    commands = insert class_code (basic (basic_on_command value bytes length')) node.commands;
  },
  [],
)
on_command class_code config node bytes length' = (node, [])
on_command class_code (manufacturer_specific m) node bytes length' =
    elim (manufacturer_report bytes length') [
      | none ↦ (node, [])
      | some m' ↦ identified class_code m' node
    ]
on_command class_code (shutter s) node bytes length' = (
  record node {
    commands = insert class_code (shutter (shutter_on_command s bytes length')) node.commands;
  },
  [],
)
on_command class_code (shutter_config slat_time) node bytes length' = (
  record node {
    commands =
        insert class_code
          (shutter_config (config_on_report slat_time (config_on_command bytes length')))
          node.commands;
  },
  [],
)
