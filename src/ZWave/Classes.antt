-- ===== src/ZWave/Classes.antt =====
-- The command classes of src/zwave/ZWaveNetwork.hpp and .cpp: BasicCommand, ConfigCommand and
-- ManufacturerSpecificCommand. A method gets the bytes from its data pointer on and a length. What it
-- hands to `Sender::send` is a list of byte strings.
pub mod Values
use huasi.Prelude.{
  ℕ, ◌+◌, ◌*◌, ◌/◌, ◌%◌, Option, none, some, Bool, true, false, ◌&&◌, ◌||◌, not, List, [], ◌∷◌,
  Bytes, codes, leb, ◌==◌, if◌then◌else◌, get_or,
}
use huasi.Parameters.{Parameters, get_state, set_state, get_percentage, set_byte, set_word}

-- Command::Class.
abbrev pub basic_class : ℕ
basic_class = 0x20

abbrev pub configuration_class : ℕ
configuration_class = 0x70

abbrev pub manufacturer_specific_class : ℕ
manufacturer_specific_class = 0x72

abbrev pub manufacturer_proprietary_class : ℕ
manufacturer_proprietary_class = 0x91

abbrev pub mark_class : ℕ
mark_class = 0xef

-- BasicCommand. `dim ? *dim : (*state ? 0xff : 0x00)`, if one of the two is given.
unfoldable pub basic_value : Option Bool → Option ℕ → Option ℕ
basic_value none none = none
basic_value (some state) none = some (if state then 0xff else 0x00)
basic_value none (some dim) = some dim
basic_value (some state) (some dim) = some dim

unfoldable pub basic_send_set : Parameters → List Bytes
unfolding basic_value
basic_send_set parameters =
    elim (basic_value (get_state parameters (codes "state"))
      (get_percentage parameters (codes "dim"))) [
        | none ↦ []
        | some value ↦ (basic_class ∷ 0x01 ∷ value ∷ []) ∷ []
      ]

unfoldable pub basic_send_get : List Bytes
basic_send_get = (basic_class ∷ 0x02 ∷ []) ∷ []

unfoldable pub basic_get : ℕ → Parameters → Parameters
basic_get value parameters =
    if value == 0x00 || value == 0xff
    then set_state (codes "state") (not (value == 0)) parameters
    else set_byte (codes "dim") value parameters

-- The tracked value after a command.
unfoldable pub basic_on_command : ℕ → Bytes → ℕ → ℕ
basic_on_command value bytes length' =
    if leb 3 length' && get_or bytes 1 0 == 0x03 then get_or bytes 2 0 else value

-- ConfigCommand. The parts of a value are put together by `<<` and `|` of disjoint bits.
unfoldable pub send_byte : ℕ → ℕ → Bytes
send_byte index value = configuration_class ∷ 0x04 ∷ index ∷ 0x01 ∷ value ∷ []

unfoldable pub send_word : ℕ → ℕ → Bytes
send_word index value =
    configuration_class ∷ 0x04 ∷ index ∷ 0x02 ∷ (value / 256 % 256) ∷ (value % 256) ∷ []

unfoldable pub send_long : ℕ → ℕ → Bytes
send_long index value =
    configuration_class
    ∷ 0x04
    ∷ index
    ∷ 0x04
    ∷ (value / 16777216 % 256)
    ∷ (value / 65536 % 256)
    ∷ (value / 256 % 256)
    ∷ (value % 256)
    ∷ []

-- The calls of `onByte`, `onWord` and `onLong`.
pub data Report : Type 0 where
  on_byte : ℕ → ℕ → Report
  on_word : ℕ → ℕ → Report
  on_long : ℕ → ℕ → Report

report_of : ℕ → ℕ → Bytes → Option Report
report_of index size bytes =
    if size == 1
    then some (on_byte index (get_or bytes 4 0))
    else if size == 2
    then some (on_word index (get_or bytes 4 0 * 256 + get_or bytes 5 0))
    else if size == 4
    then some (
        on_long index (
          get_or bytes 4 0 * 16777216
          + get_or bytes 5 0 * 65536
          + get_or bytes 6 0 * 256
          + get_or bytes 7 0))
    else none

unfoldable pub config_on_command : Bytes → ℕ → Option Report
unfolding report_of
config_on_command bytes length' =
    if leb 5 length' && get_or bytes 1 0 == 0x06
    then (if leb (4 + get_or bytes 3 0) length'
        then report_of (get_or bytes 2 0) (get_or bytes 3 0) bytes
        else none)
    else none

-- ManufacturerSpecificCommand.
pub record Manufacturer : Type 0 where
  pub manufacturer : ℕ
  pub product : ℕ
  pub id : ℕ

unfoldable pub manufacturer_send_get : List Bytes
manufacturer_send_get = (manufacturer_specific_class ∷ 0x04 ∷ []) ∷ []

unfoldable pub manufacturer_get : Manufacturer → Parameters → Parameters
manufacturer_get m parameters = set_word (codes "device.id") m.id (
    set_word (codes "device.product") m.product
      (set_word (codes "device.manufacturer") m.manufacturer parameters))

-- The fields that a report of eight bytes or more carries.
unfoldable pub manufacturer_report : Bytes → ℕ → Option Manufacturer
manufacturer_report bytes length' =
    if leb 8 length'
    then some (record {
      manufacturer = get_or bytes 2 0 * 256 + get_or bytes 3 0;
      product = get_or bytes 4 0 * 256 + get_or bytes 5 0;
      id = get_or bytes 6 0 * 256 + get_or bytes 7 0;
    })
    else none
