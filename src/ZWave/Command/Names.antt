-- ===== src/ZWave/Command/Names.antt =====
-- The names of a node: what the commands write into them.
use huasi.Prelude.{ℕ, arith, Bytes, IsByte, All, inl, inr, Option-cases}
use huasi.ZWave.Classes.{Manufacturer, manufacturer_report}
use huasi.ZWave.Command.{
  Command, basic, config, manufacturer_specific, shutter, shutter_config, Node, identified,
  on_command,
}

-- The name and the name of the device are bytes.
abbrev pub IsNamed : Node → Type 0
IsNamed node = All IsByte node.name × All IsByte node.device_name

identified-IsNamed :
    (class_code : ℕ) (m : Manufacturer) (node : Node)
    → IsNamed node
    → IsNamed (identified class_code m node).0
unfolding identified
identified-IsNamed class_code m node v = ground arith

pub on_command-IsNamed :
    (class_code : ℕ) (c : Command) (node : Node) (bytes : Bytes) (size : ℕ)
    → IsNamed node
    → IsNamed (on_command class_code c node bytes size).0
unfolding on_command
on_command-IsNamed class_code (basic value) node bytes size v = v
on_command-IsNamed class_code config node bytes size v = v
on_command-IsNamed class_code (manufacturer_specific m) node bytes size v =
    elim (Option-cases (manufacturer_report bytes size)) [
      | inl missing ↦ rw (missing, on_command) v
      | inr (m', found) ↦ rw (found, on_command) (identified-IsNamed class_code m' node v)
    ]
on_command-IsNamed class_code (shutter s) node bytes size v = v
on_command-IsNamed class_code (shutter_config slat_time) node bytes size v = v
