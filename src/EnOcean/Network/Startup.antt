-- ===== src/EnOcean/Network/Startup.antt =====
-- What the network does when it starts.
use huasi.Prelude.{ℕ, ◌+◌, ◌*◌, ◌/◌, ◌%◌, ◌<◌, ◌≡◌, refl, ap, some, false, [], ◌∷◌, arith}
use huasi.EnOcean.Protocol.{
  Request, Protocol, Output, write, tx_frame, response, send_request, send_first, dispatch,
  send_if_any, on_read,
}
use huasi.EnOcean.Protocol.Framing.{read_frame}
use huasi.EnOcean.Network.{
  base_id, remaining_writes, prints, started, common_command_request, rd_idbase,
}

-- The answer of a controller with this base id, and this many changes of it left.
abbrev pub id_response : ℕ → ℕ → Request
id_response id left = record {
  packet_type = response;
  content = 0 ∷ (id / 16777216) ∷ ((id / 65536) % 256) ∷ ((id / 256) % 256) ∷ (id % 256) ∷ [];
  optional_content = left ∷ [];
}

four_bytes_back :
    (id : ℕ)
    → (id / 16777216) * 16777216
        + ((id / 65536) % 256) * 65536
        + ((id / 256) % 256) * 256
        + id % 256
      ≡ id
four_bytes_back id = omega arith

-- The constructor asks for the base id. When the controller answers with its id and the number of
-- changes left, both are printed as they were sent, and the protocol is idle: no request waits, the
-- timer stands, and the buffer is empty.
pub startup_prints_base_id :
    (id left : ℕ)
    → id < 4294967296
    → left < 256
    → (o : Output) × (q : Protocol) × (on_read (tx_frame (id_response id left)) started ≡ some q)
      × (q.log ≡ o ∷ write (tx_frame (common_command_request rd_idbase)) ∷ [])
      × (prints o ≡ base_id id ∷ remaining_writes left ∷ [])
      × (q.requests ≡ [])
      × (q.timer ≡ false)
      × (q.received ≡ [])
unfolding send_request send_first dispatch send_if_any prints
startup_prints_base_id id left hi hl = (
  _,
  _,
  read_frame (id_response id left) started (ground arith) refl,
  refl,
  ap (λ n. base_id n ∷ remaining_writes left ∷ []) (four_bytes_back id),
  refl,
  refl,
  refl,
)
