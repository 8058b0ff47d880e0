-- ===== src/ZWave/Network/Ascending.antt =====
-- The nodes are discovered in the order of their ids.
use huasi.Prelude.{
  ℕ, zero, suc, ◌+◌, ◌*◌, ◌/◌, ◌%◌, ◌≤◌, ◌<◌, ◌≡◌, refl, false, List, [], ◌∷◌, ◌++◌, arith, Bytes,
  get_or,
}
use huasi.ZWave.Network.Discovery.{member, is_named, discovered_iff_named}
use huasi.ZWave.Network.{node_ids, found_nodes, discovered}

-- The numbers ascend strictly, from more than `low` up to `high` at most.
abbrev pub Ascends : ℕ → ℕ → List ℕ → Type 0
Ascends low high [] = low ≤ high
Ascends low high (m ∷ ms) = (low < m) × Ascends m high ms

Ascends-lower :
    (low mid high : ℕ) (xs : List ℕ) → low ≤ mid → Ascends mid high xs → Ascends low high xs
Ascends-lower low mid high [] less up = omega arith
Ascends-lower low mid high (x ∷ xs) less (above, up) = (omega arith, up)

Ascends-append :
    (low mid high : ℕ) (xs ys : List ℕ)
    → Ascends low mid xs
    → Ascends mid high ys
    → Ascends low high (xs ++ ys)
Ascends-append low mid high [] ys less up = Ascends-lower low mid high ys less up
Ascends-append low mid high (x ∷ xs) ys (above, rest) up =
    (above, Ascends-append x mid high xs ys rest up)

node_id_next : (node_id : ℕ) → node_id < 255 → (node_id + 1) % 256 ≡ suc node_id
node_id_next node_id h = omega arith

node_ids-Ascends :
    (fuel b node_id high : ℕ)
    → node_id + fuel ≡ high
    → high < 256
    → Ascends node_id high (node_ids fuel b node_id)
unfolding node_ids
node_ids-Ascends zero b node_id high e room = omega arith
node_ids-Ascends (suc fuel) b node_id high e room =
    let ids = node_ids fuel (b / 2) (suc node_id) in
    let next = node_ids-Ascends fuel (b / 2) (suc node_id) high (omega arith) room in
    let later = Ascends-lower node_id (suc node_id) high ids (omega arith) next in
    rw (node_ids, node_id_next node_id (omega arith)) (ground (arith, later, next))

-- The ids of a bit field that begins with the byte with number `i`.
found_nodes-Ascends :
    (count i : ℕ) (bytes : Bytes) → i + count ≤ 31 → Ascends (i * 8) 248 (found_nodes count i bytes)
unfolding found_nodes
found_nodes-Ascends zero i bytes room = omega arith
found_nodes-Ascends (suc count) i bytes room =
    let b = get_or bytes (3 + i) 0 in
    let start : i * 8 % 256 ≡ i * 8 = omega arith in
    let own = node_ids-Ascends 8 b (i * 8) ((i + 1) * 8) (omega arith) (omega arith) in
    rw start (
      Ascends-append (i * 8) ((i + 1) * 8) 248 (node_ids 8 b (i * 8))
        (found_nodes count (i + 1) bytes) own
        (found_nodes-Ascends count (i + 1) bytes (omega arith)))

pub discovered-Ascends :
    (bytes : Bytes) (length' : ℕ) → get_or bytes 2 0 ≤ 31 → Ascends 0 248 (discovered bytes length')
unfolding discovered
discovered-Ascends bytes length' few =
    let up = found_nodes-Ascends (get_or bytes 2 0) 0 bytes (omega arith) in ground (arith, up)

pub member_low :
    (n low high : ℕ) (ids : List ℕ) → n ≤ low → Ascends low high ids → member n ids ≡ false
member_low n low high [] less up = refl
member_low n low high (m ∷ ids) less (above, up) =
    ground (arith, member_low n m high ids (omega arith) up)

-- A node is discovered exactly if the bit field names it.
pub discovered_lem :
    (bytes : Bytes) (length' n : ℕ)
    → 4 ≤ length'
    → get_or bytes 2 0 ≤ 31
    → member n (discovered bytes length') ≡ is_named bytes n
discovered_lem bytes length' zero long few =
    member_low 0 0 248 (discovered bytes length') (omega arith)
      (discovered-Ascends bytes length' few)
discovered_lem bytes length' (suc m) long few = discovered_iff_named m length' bytes long few
