-- ===== src/ZWave/Protocol/Receive/Delivery.antt =====
-- A frame that answers no request: what the handler of a read does with it.
use huasi.Prelude.{
  ℕ, suc, ◌+◌, ◌-◌, ◌≤◌, ◌≡◌, ◌≢◌, refl, ◌∙◌, ap, List, [], ◌∷◌, ◌++◌, append_assoc, some, arith,
  Bytes, length, take, drop, take-append_front, ◌==◌, ==_ne, if◌then◌else◌,
}
use huasi.ZWave.Request.{Request, function}
use huasi.ZWave.Frame.{frame}
use huasi.ZWave.Protocol.{Protocol, Handlers, write, send_all}
use huasi.ZWave.Protocol.Receive.{
  rx_byte, remove_front, returned, unsolicited, dispatch, handle_frame, stored, on_read,
}
use huasi.ZWave.Protocol.Receive.Framing.{rx_buffer-stored, on_read-frame}

-- The first request, if there is one, is for another function.
abbrev pub IsUnasked : ℕ → List Request → Type 0
IsUnasked code [] = Unit {0}
IsUnasked code (r ∷ rest) = function r ≢ code

-- The code of the function and the content, where the handler finds them.
handed :
    (frame_type code : ℕ) (content rest buffer : Bytes)
    → buffer ≡ frame frame_type code content ++ rest
    → take (suc (length content)) (drop 3 buffer) ≡ code ∷ content
unfolding frame
handed frame_type code content rest buffer e =
    rw (e, append_assoc content _ rest) (ap (λ l. code ∷ l) (take-append_front content _))

module _ {N : Type 0} (h : Handlers N) where
  dispatch_unasked :
      (code : ℕ) (queue : List Request) (p : Protocol N)
      → IsUnasked code queue
      → rx_byte p 3 ≡ code
      → dispatch h queue p ≡ unsolicited h p
  unfolding dispatch
  dispatch_unasked code [] p other e = refl
  dispatch_unasked code (r ∷ rest) p other e = rw (e, ==_ne (function r) code other) refl

  -- For a frame of at most 251 bytes of content that arrives in an empty buffer, while no request waits
  -- or the first one is for another function: it is acknowledged and removed. If it is a REQUEST the
  -- network gets the code of its function and its content, and the requests that the network makes of
  -- them are sent. Otherwise nothing else happens.
  pub on_read_unsolicited :
      (frame_type code : ℕ) (content : Bytes) (p : Protocol N)
      → p.rx_position ≡ 0
      → length content ≤ 251
      → IsUnasked code p.requests
      → let p' = stored (frame frame_type code content) p in
        let bytes = drop 3 p'.rx_buffer in
        let (n, requests) = h.on_request bytes (length content + 1) p.network in
        let acknowledged : Protocol N = record p' { log = write (6 ∷ []) ∷ p.log } in
        (take (suc (length content)) bytes ≡ code ∷ content)
        × (on_read h (frame frame_type code content) p
            ≡ some (
                remove_front (length content + 5) (
                  if frame_type == 0
                  then send_all requests (record acknowledged { network = n })
                  else acknowledged)))
  unfolding stored handle_frame unsolicited returned
  on_read_unsolicited frame_type code content p empty short other =
      let p' = stored (frame frame_type code content) p in
      let (holds, reads) = on_read-frame h frame_type code content p empty short in
      let size : rx_byte p' 1 - 2 ≡ length content + 1 = omega (arith, holds.size) in
      let after : Protocol N = record p' { log = write (6 ∷ []) ∷ p.log } in
      (
        handed frame_type code content _ p'.rx_buffer
            (rx_buffer-stored (frame frame_type code content) p empty),
        reads
            ∙ ap (λ q. some (remove_front (length content + 5) q))
                (dispatch_unasked code p.requests after other holds.called
                  ∙ rw (holds.kind, size) refl),
      )
