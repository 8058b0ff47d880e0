-- ===== src/ZWave/Network/Discovery.antt =====
-- Which nodes are discovered: DiscoverNodesRequest::onResponse against the bit field.
use huasi.Prelude.{
  ℕ, zero, suc, ◌+◌, ◌-◌, ◌*◌, ◌/◌, ◌%◌, ◌≤◌, ◌<◌, ◌≡◌, refl, sym, ◌∙◌, ap, Bool, false, ◌&&◌, ◌||◌,
  not, List, [], ◌∷◌, ◌++◌, arith, Bytes, ltb, leb, ◌==◌, get_or, le→leb,
}
use huasi.ZWave.Network.{node_ids, found_nodes, discovered}

abbrev pub member : ℕ → List ℕ → Bool
member n [] = false
member n (m ∷ ms) = m == n || member n ms

-- The bit with number `k` of a byte.
abbrev pub bit_at : ℕ → ℕ → Bool
bit_at zero b = b % 2 == 1
bit_at (suc k) b = bit_at k (b / 2)

member-append : (n : ℕ) (xs ys : List ℕ) → member n (xs ++ ys) ≡ (member n xs || member n ys)
member-append n [] ys = refl
member-append n (x ∷ xs) ys = ground (arith, member-append n xs ys)

bit_at-zero : (k : ℕ) → bit_at k 0 ≡ false
bit_at-zero zero = refl
bit_at-zero (suc k) = bit_at-zero k

node_ids_low :
    (fuel b node_id n : ℕ)
    → node_id + fuel < 256
    → n ≤ node_id
    → member n (node_ids fuel b node_id) ≡ false
unfolding node_ids
node_ids_low zero b node_id n room low = refl
node_ids_low (suc fuel) b node_id n room low =
    ground (arith, node_ids_low fuel (b / 2) ((node_id + 1) % 256) n)

node_id_next : (node_id : ℕ) → node_id < 255 → (node_id + 1) % 256 ≡ suc node_id
node_id_next node_id h = omega arith

shifted :
    (fuel b node_id k : ℕ)
    → member (suc (suc node_id + k)) (node_ids fuel b (suc node_id))
      ≡ (ltb k fuel && bit_at k b && not (suc node_id + k == 0))
    → member (suc (node_id + suc k)) (node_ids fuel b (suc node_id)) ≡ (ltb k fuel && bit_at k b)
shifted fuel b node_id k e =
    ap (λ n. member (suc n) (node_ids fuel b (suc node_id))) (omega arith) ∙ e ∙ ground arith

node_ids_at :
    (fuel b node_id k : ℕ)
    → node_id + fuel < 256
    → member (suc (node_id + k)) (node_ids fuel b node_id)
      ≡ (ltb k fuel && bit_at k b && not (node_id + k == 0))
unfolding node_ids
node_ids_at zero b node_id k room = ground arith
node_ids_at (suc fuel) b node_id zero room =
    ground (arith, node_ids_low fuel (b / 2) ((node_id + 1) % 256) (suc (node_id + 0)))
node_ids_at (suc fuel) b node_id (suc k) room =
    let next = node_id_next node_id (omega arith) in
    rw (node_ids, next)
      (ground (
        arith,
        bit_at-zero k,
        shifted fuel (b / 2) node_id k (node_ids_at fuel (b / 2) (suc node_id) k (omega arith)),
      ))

block_start : (i : ℕ) → i < 31 → i * 8 % 256 ≡ i * 8
block_start i h = omega arith

-- The ids of a byte of the bit field.
block_first :
    (b i k n : ℕ)
    → k < 8
    → i < 31
    → n ≡ suc (i * 8 + k)
    → member n (node_ids 8 b (i * 8 % 256)) ≡ (bit_at k b && not (i * 8 + k == 0))
block_first b i k n small room e =
    ap (member n) (ap (node_ids 8 b) (block_start i room))
    ∙ ap (λ m. member m (node_ids 8 b (i * 8))) e
    ∙ node_ids_at 8 b (i * 8) k (omega arith)
    ∙ ground arith

block_later :
    (b i j n : ℕ)
    → 8 ≤ j
    → i < 31
    → n ≡ suc (i * 8 + j)
    → member n (node_ids 8 b (i * 8 % 256)) ≡ false
block_later b i j n large room e =
    ap (member n) (ap (node_ids 8 b) (block_start i room))
    ∙ ap (λ m. member m (node_ids 8 b (i * 8))) e
    ∙ node_ids_at 8 b (i * 8) j (omega arith)
    ∙ ground arith

found_low :
    (count i n : ℕ) (bytes : Bytes)
    → i + count ≤ 31
    → n ≤ i * 8
    → member n (found_nodes count i bytes) ≡ false
unfolding found_nodes
found_low zero i n bytes room low = refl
found_low (suc count) i n bytes room low = ground (
  arith,
  member-append n (node_ids 8 (get_or bytes (3 + i) 0) (i * 8 % 256))
      (found_nodes count (i + 1) bytes),
  node_ids_low 8 (get_or bytes (3 + i) 0) (i * 8 % 256) n,
  found_low count (i + 1) n bytes,
)

found_at :
    (count i d k n q : ℕ) (bytes : Bytes)
    → i + count ≤ 31
    → k < 8
    → q ≡ i + d
    → n ≡ suc (q * 8 + k)
    → member n (found_nodes count i bytes)
      ≡ (ltb d count && bit_at k (get_or bytes (3 + q) 0) && not (q * 8 + k == 0))
unfolding found_nodes
found_at zero i d k n q bytes room small eq en = ground arith
found_at (suc count) i zero k n q bytes room small eq en = ground (
  arith,
  member-append n (node_ids 8 (get_or bytes (3 + i) 0) (i * 8 % 256))
      (found_nodes count (i + 1) bytes),
  block_first (get_or bytes (3 + i) 0) i k n,
  found_low count (i + 1) n bytes,
  ap (λ j. bit_at k (get_or bytes (3 + j) 0)) (let e : q ≡ i = omega arith in e),
)
found_at (suc count) i (suc d) k n q bytes room small eq en = ground (
  arith,
  member-append n (node_ids 8 (get_or bytes (3 + i) 0) (i * 8 % 256))
      (found_nodes count (i + 1) bytes),
  block_later (get_or bytes (3 + i) 0) i (suc d * 8 + k) n,
  found_at count (i + 1) d k n q bytes,
)

-- The bit field names a node: the bit with number `n - 1` is set, but node 1 is the controller itself.
abbrev pub is_named : Bytes → ℕ → Bool
is_named bytes n =
    let byte = (n - 1) / 8 in
    leb 2 n && ltb byte (get_or bytes 2 0) && bit_at ((n - 1) % 8) (get_or bytes (3 + byte) 0)

-- With a bit field of at most 31 bytes, node `8 * q + k + 1` is asked for its info exactly if the
-- field has a byte `q` and bit `k` of it is set; but node 1, the controller itself, never is.
pub discovered_iff_bit :
    (q k length' : ℕ) (bytes : Bytes)
    → 4 ≤ length'
    → get_or bytes 2 0 ≤ 31
    → k < 8
    → member (suc (q * 8 + k)) (discovered bytes length')
      ≡ (ltb q (get_or bytes 2 0) && bit_at k (get_or bytes (3 + q) 0) && not (q * 8 + k == 0))
unfolding discovered
discovered_iff_bit q k length' bytes long few small =
    rw (le→leb 4 length' long)
      (found_at (get_or bytes 2 0) 0 q k _ q bytes (omega arith) small (omega arith) refl)

pub discovered_iff_named :
    (m length' : ℕ) (bytes : Bytes)
    → 4 ≤ length'
    → get_or bytes 2 0 ≤ 31
    → member (suc m) (discovered bytes length') ≡ is_named bytes (suc m)
discovered_iff_named m length' bytes long few =
    let parts : m / 8 * 8 + m % 8 ≡ m = omega arith in
    ap (λ n. member (suc n) (discovered bytes length')) (sym parts)
    ∙ discovered_iff_bit (m / 8) (m % 8) length' bytes long few (omega arith)
    ∙ rw (let same : suc m - 1 ≡ m = omega arith in same) (ground arith)
