-- ===== src/ZWave/Fibaro/Commands.antt =====
-- What the shutter is sent, and what it reports.
use huasi.Prelude.{
  ℕ, ◌≤◌, ◌≡◌, refl, ◌∙◌, none, some, false, [], ◌∷◌, arith, Bytes, codes, bytes_eq,
}
use huasi.Prelude.SortedMap.{bytes_key, insert, lookup-insert, lookup-insert_self}
use huasi.Cast.{to_text}
use huasi.Cast.Refusals.{to_integer-leading_zero}
use huasi.Parameters.{Parameters, get_percentage, set_byte}
use huasi.Parameters.Laws.{get_percentage-set_byte}
use huasi.ZWave.Fibaro.{Shutter, set_position, shutter_send_set, shutter_get, shutter_on_command}

-- A text that begins with the digit zero is no percentage.
zero_percentage :
    (name s : Bytes) (p : Parameters) → get_percentage (insert name (b'0' ∷ s) p) name ≡ none
unfolding get_percentage
zero_percentage name s p =
    rw (lookup-insert_self name (b'0' ∷ s) p) (ground (arith, to_integer-leading_zero 256 s))

other_percentage :
    (name other v : Bytes) (p : Parameters)
    → bytes_eq name other ≡ false
    → get_percentage (insert name v p) other ≡ get_percentage p other
unfolding get_percentage
other_percentage name other v p differ = rw (lookup-insert name other v p, differ)

other_byte :
    (name other : Bytes) (v : ℕ) (p : Parameters)
    → bytes_eq name other ≡ false
    → get_percentage (set_byte name v p) other ≡ get_percentage p other
unfolding set_byte
other_byte name other v p differ = other_percentage name other (to_text v) p differ

small_percentage :
    (name : Bytes) (v : ℕ) (p : Parameters)
    → 1 ≤ v
    → v ≤ 99
    → get_percentage (set_byte name v p) name ≡ some v
small_percentage name v p low high = get_percentage-set_byte name v p (omega arith) ∙ ground arith

-- A position of the blinds that is given as zero, such as "0", is not sent: the message is that of
-- the slat alone, and if the slat is not given there is none.
pub shutter_ignores_zero :
    (s : Bytes) (p : Parameters)
    → shutter_send_set (insert (codes "position.blinds") (b'0' ∷ s) p)
      ≡ set_position none (get_percentage p (codes "position.slat"))
unfolding shutter_send_set
shutter_ignores_zero s p = rw (
  zero_percentage (codes "position.blinds") s p,
  other_percentage (codes "position.blinds") (codes "position.slat") (b'0' ∷ s) p
      (unfold bytes_eq in refl),
)

-- Positions from 1 to 99 are sent as they are given, with both flags. When the shutter reports them,
-- they are read back as they were given.
pub shutter_round_trip :
    (blinds slat : ℕ) (p q : Parameters) (old : Shutter)
    → 1 ≤ blinds
    → blinds ≤ 99
    → 1 ≤ slat
    → slat ≤ 99
    → get_percentage p (codes "position.blinds") ≡ some blinds
    → get_percentage p (codes "position.slat") ≡ some slat
    → let reported =
        shutter_on_command old (0x91 ∷ 0x01 ∷ 0x0f ∷ 0x26 ∷ 0x03 ∷ 3 ∷ blinds ∷ slat ∷ []) 8 in
      (shutter_send_set p ≡ (0x91 ∷ 0x01 ∷ 0x0f ∷ 0x26 ∷ 0x01 ∷ 3 ∷ blinds ∷ slat ∷ []) ∷ [])
      × (get_percentage (shutter_get reported q) (codes "position.blinds") ≡ some blinds)
      × (get_percentage (shutter_get reported q) (codes "position.slat") ≡ some slat)
unfolding shutter_send_set shutter_on_command shutter_get
shutter_round_trip blinds slat p q old b1 b99 s1 s99 gb gs = (
  rw (gb, gs, set_position) (ground arith),
  other_byte (codes "position.slat") (codes "position.blinds") slat _ (unfold bytes_eq in refl)
      ∙ small_percentage (codes "position.blinds") blinds q b1 b99,
  small_percentage (codes "position.slat") slat _ s1 s99,
)
