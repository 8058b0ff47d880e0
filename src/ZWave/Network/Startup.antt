-- ===== src/ZWave/Network/Startup.antt =====
-- The discovery that the constructor starts.
use huasi.Prelude.{
  ℕ, zero, suc, ◌+◌, ◌≤◌, ◌<◌, ◌≡◌, refl, sym, ◌∙◌, ap, some, List, [], ◌∷◌, arith, Bytes, length,
  get_or, get_or-take, map, take, drop,
}
use huasi.ZWave.Request.{discover_nodes, get_node_info, function, func_id?}
use huasi.ZWave.Frame.{frame, response_frame, with_func_id}
use huasi.ZWave.Protocol.{Protocol, send_request, send_all}
use huasi.ZWave.Protocol.Run.{started, started_idle}
use huasi.ZWave.Protocol.Receive.{stored, on_read}
use huasi.ZWave.Protocol.Receive.Sound.{send_request-SameInput}
use huasi.ZWave.Protocol.Receive.Answering.{send_all_idle, response_requests, finish_request_idle}
use huasi.ZWave.Network.Discovery.{member, is_named}
use huasi.ZWave.Network.Ascending.{Ascends, discovered-Ascends, discovered_lem}
use huasi.ZWave.Network.{Network, found_nodes, discovered, on_response, handlers}

-- The loop reads no byte behind its bit field.
found_nodes-ext :
    (count i : ℕ) (xs ys : Bytes)
    → ((j : ℕ) → j < 3 + i + count → get_or xs j 0 ≡ get_or ys j 0)
    → found_nodes count i xs ≡ found_nodes count i ys
unfolding found_nodes
found_nodes-ext zero i xs ys same = refl
found_nodes-ext (suc count) i xs ys same = rw (
  same (3 + i) (omega arith),
  found_nodes-ext count (i + 1) xs ys (λ j low. same j (omega arith)),
)

discovered-ext :
    (xs ys : Bytes) (n : ℕ)
    → 4 ≤ n
    → 3 + get_or ys 2 0 ≤ n
    → ((j : ℕ) → j < n → get_or xs j 0 ≡ get_or ys j 0)
    → discovered xs n ≡ discovered ys n
unfolding discovered
discovered-ext xs ys n long held same =
    rw (
      same 2 (omega arith),
      found_nodes-ext (get_or ys 2 0) 0 xs ys (λ j low. same j (omega arith)),
    )

send_all_nodes :
    (ids : List ℕ) (p : Protocol Network)
    → p.requests ≡ []
    → (send_all (map get_node_info ids) p).requests ≡ map get_node_info ids
unfolding send_all with_func_id
send_all_nodes [] p e = e
send_all_nodes (i ∷ ids) p e = send_all_idle (get_node_info i) (map get_node_info ids) p e

payload_at :
    (content buffer : Bytes) (j : ℕ)
    → take (length content) (drop 4 buffer) ≡ content
    → j < length content
    → get_or (drop 4 buffer) j 0 ≡ get_or content j 0
payload_at content buffer j e low =
    sym (get_or-take (length content) (drop 4 buffer) j 0 low) ∙ ap (λ bytes. get_or bytes j 0) e

-- The constructor of the network.
abbrev pub network_started : Bytes → Network → Protocol Network
network_started memory n = send_request discover_nodes (started memory n)

-- The constructor asks for the nodes. When the controller answers with a bit field that lies within
-- its frame and has at most 31 bytes, which is enough for the 232 nodes of a network, the info of
-- exactly those nodes is asked for whose bit is set, but for node 1, in ascending order, and nothing
-- else waits in the queue.
pub startup_asks_nodes :
    (stale : ℕ) (memory content : Bytes) (n : Network)
    → 4 ≤ length content
    → length content ≤ 251
    → 3 + get_or content 2 0 ≤ length content
    → get_or content 2 0 ≤ 31
    → let p = network_started memory n in
      (q : Protocol Network) × (ids : List ℕ) × (on_read
          (handlers stale)
          (frame response_frame 0x02 content)
          p
        ≡ some q)
      × (q.requests ≡ map get_node_info ids)
      × Ascends 0 248 ids
      × ((n : ℕ) → member n ids ≡ is_named content n)
unfolding function func_id? with_func_id on_response send_all
startup_asks_nodes stale memory content n long short held few =
    let (none_waits, empty) = started_idle memory n in
    let p = network_started memory n in
    let asked = send_all_idle discover_nodes [] (started memory n) none_waits in
    let kept = (send_request-SameInput discover_nodes (started memory n)).0 in
    let (q, reads, queued, holds) =
      response_requests (handlers stale) discover_nodes content p asked refl (kept ∙ empty) short in
    let p' = stored (frame response_frame 0x02 content) p in
    (
      q,
      discovered content (length content),
      reads,
      queued
          ∙ send_all_nodes (discovered (drop 4 p'.rx_buffer) (length content)) _
              (finish_request_idle _)
          ∙ ap (map get_node_info) (
              discovered-ext (drop 4 p'.rx_buffer) content (length content) long held
                (λ j low. payload_at content p'.rx_buffer j holds.payload low)),
      discovered-Ascends content (length content) few,
      λ i. discovered_lem content (length content) i long few,
    )
