-- ===== src/Gateway/Handler/ZWaveOps/Values.antt =====
-- The parameters that the ZWave network gives for a node are fit for the body of an answer.
use huasi.Prelude.{ℕ, Bool, true, false, [], ◌∷◌, arith, Bytes, codes, All, IsByte, ◌==◌, not}
use huasi.Prelude.SortedMap.{SortedMap, bytes_key, insert}
use huasi.Prelude.SortedMap.Order.{bytes_order, IsSorted, insert-IsSorted}
use huasi.Cast.{to_text}
use huasi.Cast.Digits.{to_text-IsByte}
use huasi.Parameters.{Parameters, set_state, set_byte, set_word}
use huasi.Gateway.Codec.RoundTrip.{IsPlain}
use huasi.Gateway.Query.RoundTrip.{IsClean}
use huasi.ZWave.Classes.{basic_get, manufacturer_get}
use huasi.ZWave.Fibaro.{shutter_get, config_get}
use huasi.ZWave.Command.{
  Command, basic, config, manufacturer_specific, shutter, shutter_config, get,
}
use huasi.ZWave.Command.Names.{IsNamed}
use huasi.ZWave.Network.{Network, all_values, network_get}

-- In the order of their names, with names that hold no separator and values that are bytes.
pub record IsFit (p : Parameters) : Type 0 where
  pub clean : All IsClean p
  pub sorted : IsSorted p

insert-IsClean :
    (name value : Bytes) (p : Parameters)
    → IsClean (name, value)
    → All IsClean p
    → All IsClean (insert name value p)
unfolding insert
insert-IsClean name value [] c h = (c, tt)
insert-IsClean name value ((j, w) ∷ p) c h = ground (arith, insert-IsClean name value p c h.1)

insert-IsFit :
    (name value : Bytes) (p : Parameters)
    → All IsPlain name
    → All IsByte value
    → IsFit p
    → IsFit (insert name value p)
insert-IsFit name value p plain bytes v = record {
  clean = insert-IsClean name value p (plain, bytes) v.clean;
  sorted = insert-IsSorted name value p v.sorted;
}

set_byte-IsFit :
    (name : Bytes) (value : ℕ) (p : Parameters)
    → All IsPlain name
    → IsFit p
    → IsFit (set_byte name value p)
unfolding set_byte
set_byte-IsFit name value p plain v =
    insert-IsFit name (to_text value) p plain (to_text-IsByte value) v

set_word-IsFit :
    (name : Bytes) (value : ℕ) (p : Parameters)
    → All IsPlain name
    → IsFit p
    → IsFit (set_word name value p)
unfolding set_word
set_word-IsFit name value p plain v =
    insert-IsFit name (to_text value) p plain (to_text-IsByte value) v

set_state-IsFit :
    (name : Bytes) (value : Bool) (p : Parameters)
    → All IsPlain name
    → IsFit p
    → IsFit (set_state name value p)
unfolding set_state
set_state-IsFit name true p plain v = insert-IsFit name (codes "off") p plain (omega arith) v
set_state-IsFit name false p plain v = insert-IsFit name (codes "on") p plain (omega arith) v

basic_get-IsFit : (value : ℕ) (p : Parameters) → IsFit p → IsFit (basic_get value p)
unfolding basic_get
basic_get-IsFit value p v = ground (
  arith,
  set_state-IsFit (codes "state") (not (value == 0)) p (omega arith) v,
  set_byte-IsFit (codes "dim") value p (omega arith) v,
)

get-IsFit : (c : Command) (p : Parameters) → IsFit p → IsFit (get c p)
unfolding get shutter_get config_get manufacturer_get
get-IsFit (basic value) p v = basic_get-IsFit value p v
get-IsFit config p v = v
get-IsFit (manufacturer_specific m) p v = set_word-IsFit (codes "device.id") m.id _ (omega arith) (
    set_word-IsFit (codes "device.product") m.product _ (omega arith)
      (set_word-IsFit (codes "device.manufacturer") m.manufacturer p (omega arith) v))
get-IsFit (shutter s) p v =
    set_byte-IsFit (codes "position.slat") s.slat _ (omega arith)
      (set_byte-IsFit (codes "position.blinds") s.blinds p (omega arith) v)
get-IsFit (shutter_config slat_time) p v =
    set_word-IsFit (codes "config.slatTime") slat_time p (omega arith) v

all_values-IsFit :
    (commands : SortedMap ℕ Command) (p : Parameters) → IsFit p → IsFit (all_values commands p)
unfolding all_values
all_values-IsFit [] p v = v
all_values-IsFit ((k, c) ∷ commands) p v = all_values-IsFit commands (get c p) (get-IsFit c p v)

-- What a node gives, for a client that sends no parameters of its own.
pub network_get-IsFit :
    (node_id : ℕ) (n : Network) → IsNamed (n.nodes node_id) → IsFit (network_get node_id [] n).1
unfolding network_get
network_get-IsFit node_id n (name, device) =
    let node = n.nodes node_id in
    let empty : IsFit [] = record { clean = tt; sorted = tt } in
    let named : Parameters = insert (codes "node.name") node.name [] in
    let named-IsFit = insert-IsFit (codes "node.name") node.name [] (omega arith) name empty in
    let described : Parameters = insert (codes "device.name") node.device_name named in
    let described-IsFit =
      insert-IsFit (codes "device.name") node.device_name named (omega arith) device named-IsFit in
    ground (
      arith,
      empty,
      named-IsFit,
      described-IsFit,
      all_values-IsFit node.commands named named-IsFit,
      all_values-IsFit node.commands described described-IsFit,
    )
