-- ===== src/ZWave/Classes/Values.antt =====
-- Values on their way to a node and back.
use huasi.Prelude.{
  ℕ, ◌%◌, ◌<◌, ◌≡◌, refl, ap, none, some, Bool, true, false, not, [], ◌∷◌, arith, Bytes, codes,
  if◌then◌else◌,
}
use huasi.Parameters.{Parameters, get_state, get_percentage, get_byte}
use huasi.Parameters.Laws.{get_state-set_state, get_byte-set_byte}
use huasi.ZWave.Classes.{
  basic_send_set, basic_get, basic_on_command, send_byte, send_word, send_long, on_byte, on_word,
  on_long, config_on_command,
}

-- The report that answers a SET: the same bytes, with REPORT in the place of SET.
abbrev pub as_report : Bytes → Bytes
as_report [] = []
as_report (class_code ∷ []) = class_code ∷ []
as_report (class_code ∷ command ∷ rest) = class_code ∷ 0x06 ∷ rest

-- A configuration value of two or four bytes that a node reports as it was sent is handed to the
-- method for its size, with the same register, and with the value cut to that size; a value of one
-- byte is handed on as it is.
pub config_round_trip :
    (index value : ℕ)
    → (config_on_command (as_report (send_byte index value)) 5 ≡ some (on_byte index value))
      × (config_on_command (as_report (send_word index value)) 6
          ≡ some (on_word index (value % 65536)))
      × (config_on_command (as_report (send_long index value)) 8
          ≡ some (on_long index (value % 4294967296)))
unfolding config_on_command send_byte send_word send_long
config_round_trip index value = (
  refl,
  ap (λ v. some (on_word index v)) (omega arith),
  ap (λ v. some (on_long index v)) (omega arith),
)

-- The value that stands for a state.
abbrev pub value_of_state : Bool → ℕ
value_of_state state = if state then 0xff else 0x00

-- A state that is set through the basic command class, with no dim value given, is sent as 0xff
-- for on and 0 for off. When the node reports that value, the opposite of the state is read back.
pub basic_state_inverted :
    (state : Bool) (old : ℕ) (p q : Parameters)
    → get_state p (codes "state") ≡ some state
    → get_percentage p (codes "dim") ≡ none
    → let reported = basic_on_command old (0x20 ∷ 0x03 ∷ value_of_state state ∷ []) 3 in
      (basic_send_set p ≡ (0x20 ∷ 0x01 ∷ value_of_state state ∷ []) ∷ [])
      × (get_state (basic_get reported q) (codes "state") ≡ some (not state))
unfolding basic_send_set basic_on_command basic_get
basic_state_inverted true old p q on dark =
    (ground arith, get_state-set_state (codes "state") true q)
basic_state_inverted false old p q off dark =
    (ground arith, get_state-set_state (codes "state") false q)

pub dim_sent :
    (dim : ℕ) (p : Parameters)
    → get_percentage p (codes "dim") ≡ some dim
    → basic_send_set p ≡ (0x20 ∷ 0x01 ∷ dim ∷ []) ∷ []
unfolding basic_send_set
dim_sent dim p given = ground arith

-- A dimmed value between the two is sent as it is, whatever state is given beside it, and read back
-- when the node reports it.
pub basic_dim_round_trip :
    (dim old : ℕ) (p q : Parameters)
    → 0 < dim
    → dim < 255
    → get_percentage p (codes "dim") ≡ some dim
    → let reported = basic_on_command old (0x20 ∷ 0x03 ∷ dim ∷ []) 3 in
      (basic_send_set p ≡ (0x20 ∷ 0x01 ∷ dim ∷ []) ∷ [])
      × (get_byte (basic_get reported q) (codes "dim") ≡ some dim)
unfolding basic_send_set basic_on_command basic_get
basic_dim_round_trip dim old p q low high given =
    (dim_sent dim p given, ground (arith, get_byte-set_byte (codes "dim") dim q))
