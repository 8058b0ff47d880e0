-- ===== src/ZWave/Network/Nodes.antt =====
-- What the network does with the nodes.
use huasi.Prelude.{
  ℕ, zero, suc, ◌+◌, ◌-◌, ◌≤◌, ◌<◌, ◌≡◌, refl, sym, ◌∙◌, ap, false, [], ◌∷◌, ◌++◌, arith, Bytes,
  ◌==◌, if◌then◌else◌, get_or, length, All, get_or-append_left, ◌≢◌, ==_ne,
}
use native.Mathlib.Decide.{dec_lt}
use huasi.Prelude.SortedMap.{SortedMap}
use huasi.ZWave.Request.{zw_application_update}
use huasi.ZWave.Classes.{mark_class}
use huasi.ZWave.Command.{Command}
use huasi.ZWave.Network.{Network, class_count, add_classes, update_node, on_request}

-- Two data that agree below `n`.
abbrev AgreeBelow : ℕ → Bytes → Bytes → Type 0
AgreeBelow n xs ys = (i : ℕ) → i < n → get_or xs i 0 ≡ get_or ys i 0

add_classes-ext :
    (count i : ℕ) (xs ys : Bytes) (commands : SortedMap ℕ Command)
    → AgreeBelow (i + count) xs ys
    → add_classes count i xs commands ≡ add_classes count i ys commands
unfolding add_classes
add_classes-ext zero i xs ys commands same = refl
add_classes-ext (suc count) i xs ys commands same =
    rw (same i (omega arith)) (add_classes-ext count (i + 1) xs ys _ (λ j h. same j (omega arith)))

class_count_le : (room i : ℕ) (xs : Bytes) → class_count room i xs ≤ room
unfolding class_count
class_count_le zero i xs = omega arith
class_count_le (suc room) i xs = ground (arith, class_count_le room (i + 1) xs)

same_mark :
    (n i : ℕ) (xs ys : Bytes)
    → AgreeBelow n xs ys
    → (n ≤ i → (get_or xs i 0 == mark_class) ≡ false)
    → (n ≤ i → (get_or ys i 0 == mark_class) ≡ false)
    → (get_or xs i 0 == mark_class) ≡ (get_or ys i 0 == mark_class)
same_mark n i xs ys same behind behind' = elim (dec_lt i n) [
  | yes h ↦ ap (λ b. b == mark_class) (same i h)
  | no h ↦ behind (omega arith) ∙ sym (behind' (omega arith))
]

-- Two class lists that agree below `n` and have no MARK behind it.
class_count-ext :
    (n room i : ℕ) (xs ys : Bytes)
    → AgreeBelow n xs ys
    → ((j : ℕ) → n ≤ j → j < i + room → (get_or xs j 0 == mark_class) ≡ false)
    → ((j : ℕ) → n ≤ j → j < i + room → (get_or ys j 0 == mark_class) ≡ false)
    → class_count room i xs ≡ class_count room i ys
unfolding class_count
class_count-ext n zero i xs ys same unmarked unmarked' = refl
class_count-ext n (suc room) i xs ys same unmarked unmarked' =
    rw
      (same_mark n i xs ys same (λ h. unmarked i h (omega arith))
        (λ h. unmarked' i h (omega arith)))
      (ap (λ c. if get_or ys i 0 == mark_class then 0 else suc c)
        (class_count-ext n room (i + 1) xs ys same (λ j h k. unmarked j h (omega arith))
          (λ j h k. unmarked' j h (omega arith))))

get_or-Unmarked :
    (front tail : Bytes) (j : ℕ)
    → All (λ c. c ≢ mark_class) tail
    → length front ≤ j
    → j < length front + length tail
    → (get_or (front ++ tail) j 0 == mark_class) ≡ false
get_or-Unmarked [] [] j h low high = absurd (omega arith)
get_or-Unmarked [] (c ∷ tail) zero (h, hs) low high = ==_ne c mark_class h
get_or-Unmarked [] (c ∷ tail) (suc j) (h, hs) low high =
    get_or-Unmarked [] tail j hs (omega arith) (omega arith)
get_or-Unmarked (x ∷ front) tail zero h low high = absurd (omega arith)
get_or-Unmarked (x ∷ front) tail (suc j) h low high =
    get_or-Unmarked front tail j h (omega arith) (omega arith)

module _ (stale : ℕ) where
  update_node-ext :
      (node_id count : ℕ) (xs ys : Bytes) (n : Network)
      → AgreeBelow count xs ys
      → update_node stale node_id xs count n ≡ update_node stale node_id ys count n
  unfolding update_node
  update_node-ext node_id count xs ys n same =
      rw (add_classes-ext count 0 xs ys (n.nodes node_id).commands (λ i h. same i (omega arith)))

  on_update :
      (bytes : Bytes) (length' : ℕ) (n : Network)
      → get_or bytes 0 0 ≡ zw_application_update
      → 7 ≤ length'
      → on_request stale bytes length' n
        ≡ update_node stale (get_or bytes 2 0) bytes (class_count (length' - 7) 7 bytes) n
  unfolding on_request
  on_update bytes length' n kind long = ground arith

  -- The last seven class codes that a node reports have no effect, if no MARK is among them: any
  -- others in their place leave the network in the same state and cause the same requests.
  pub last_classes_ignored :
      (front tail tail' : Bytes) (n : Network)
      → 7 ≤ length front
      → get_or front 0 0 ≡ zw_application_update
      → length tail ≡ 7
      → length tail' ≡ 7
      → All (λ c. c ≢ mark_class) tail
      → All (λ c. c ≢ mark_class) tail'
      → on_request stale (front ++ tail) (length front + 7) n
        ≡ on_request stale (front ++ tail') (length front + 7) n
  last_classes_ignored front tail tail' n long kind size size' h h' =
      let same : AgreeBelow (length front) (front ++ tail) (front ++ tail') = λ i low.
        get_or-append_left front tail i 0 low ∙ sym (get_or-append_left front tail' i 0 low) in
      let start = get_or-append_left front tail 0 0 (omega arith) ∙ kind in
      let start' = get_or-append_left front tail' 0 0 (omega arith) ∙ kind in
      let counts =
        class_count-ext (length front) (length front + 7 - 7) 7 (front ++ tail) (front ++ tail')
          same (λ j a b. get_or-Unmarked front tail j h a (omega arith))
          (λ j a b. get_or-Unmarked front tail' j h' a (omega arith)) in
      on_update (front ++ tail) (length front + 7) n start (omega arith)
      ∙ rw (same 2 (omega arith), counts)
          (update_node-ext _ _ (front ++ tail) (front ++ tail') n (λ i below.
            same i
              (omega (arith, below, class_count_le (length front + 7 - 7) 7 (front ++ tail')))))
      ∙ sym (on_update (front ++ tail') (length front + 7) n start' (omega arith))
