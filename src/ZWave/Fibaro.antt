-- ===== src/ZWave/Fibaro.antt =====
-- src/zwave/FibaroFgr222.hpp and .cpp: the roller shutter and its configuration.
pub mod Commands
use huasi.Prelude.{
  ℕ, ◌+◌, ◌/◌, ◌%◌, Option, none, some, Bool, true, false, ◌&&◌, ◌||◌, List, [], ◌∷◌, Bytes, codes,
  ltb, leb, ◌==◌, if◌then◌else◌, get_or,
}
use huasi.Parameters.{Parameters, contains, get_percentage, get_word, set_byte, set_word}
use huasi.ZWave.Classes.{
  configuration_class, manufacturer_proprietary_class, send_byte, send_word, Report, on_byte,
  on_word, on_long,
}

pub record Shutter : Type 0 where
  pub blinds : ℕ
  pub slat : ℕ

-- `*o`: the value of an empty optional is 0.
abbrev value_of : Option ℕ → ℕ
value_of none = 0
value_of (some v) = v

abbrev bit_of : ℕ → Option ℕ → ℕ
bit_of weight none = 0
bit_of weight (some v) = weight

-- The workaround: blinds at zero are sent as one if the slat is to be turned.
unfoldable pub adjusted : Option ℕ → Option ℕ → Option ℕ
adjusted none slat = none
adjusted (some b) none = some b
adjusted (some b) (some s) = if b == 0 && ltb 0 s then some 1 else some b

unfoldable pub set_position : Option ℕ → Option ℕ → List Bytes
unfolding adjusted
set_position blinds slat =
    let flags = bit_of 2 blinds + bit_of 1 slat in
    if flags == 0
    then []
    else (manufacturer_proprietary_class
        ∷ 0x01
        ∷ 0x0f
        ∷ 0x26
        ∷ 0x01
        ∷ flags
        ∷ value_of (adjusted blinds slat)
        ∷ value_of slat
        ∷ [])
      ∷ []

unfoldable pub shutter_send_set : Parameters → List Bytes
unfolding set_position
shutter_send_set parameters =
    set_position (get_percentage parameters (codes "position.blinds"))
      (get_percentage parameters (codes "position.slat"))

unfoldable pub shutter_send_get : List Bytes
shutter_send_get =
    (manufacturer_proprietary_class ∷ 0x01 ∷ 0x0f ∷ 0x26 ∷ 0x02 ∷ 0x02 ∷ 0x00 ∷ 0x00 ∷ []) ∷ []

unfoldable pub shutter_get : Shutter → Parameters → Parameters
shutter_get s parameters =
    set_byte (codes "position.slat") s.slat (set_byte (codes "position.blinds") s.blinds parameters)

-- `flags & 2` and `flags & 1`.
unfoldable pub shutter_on_command : Shutter → Bytes → ℕ → Shutter
shutter_on_command s bytes length' =
    let flags = get_or bytes 5 0 in
    if leb 8 length'
    then record {
      blinds = if flags / 2 % 2 == 1 then get_or bytes 6 0 else s.blinds;
      slat = if flags % 2 == 1 then get_or bytes 7 0 else s.slat;
    }
    else s

-- FibaroFgr222Config: its state is `slatTime`.
abbrev pub slat_time_register : ℕ
slat_time_register = 12

abbrev pub calibrate_register : ℕ
calibrate_register = 29

unfoldable pub config_send_set : ℕ → Parameters → ℕ × List Bytes
config_send_set slat_time parameters = elim (get_word parameters (codes "config.slatTime")) [
  | some time ↦ (time, send_word slat_time_register time ∷ [])
  | none ↦ (
    slat_time,
    if contains parameters (codes "config.calibrate")
        then send_byte calibrate_register 1 ∷ []
        else [],
  )
]

unfoldable pub config_send_get : List Bytes
config_send_get = (configuration_class ∷ 0x05 ∷ slat_time_register ∷ []) ∷ []

unfoldable pub config_get : ℕ → Parameters → Parameters
config_get slat_time parameters = set_word (codes "config.slatTime") slat_time parameters

-- `onByte`, `onWord` and `onLong`, with a report that is none of these.
unfoldable pub config_on_report : ℕ → Option Report → ℕ
config_on_report slat_time none = slat_time
config_on_report slat_time (some (on_byte index value)) = slat_time
config_on_report slat_time (some (on_word index value)) =
    if index == slat_time_register then value else slat_time
config_on_report slat_time (some (on_long index value)) = slat_time
