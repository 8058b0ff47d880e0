-- ===== src/ZWave/Protocol/Receive/Damage.antt =====
-- A frame with a wrong byte, and a frame that is longer than the buffer.
use huasi.Prelude.{
  ℕ, suc, ◌+◌, ◌≤◌, ◌<◌, ◌≡◌, ◌≢◌, refl, sym, ◌∙◌, ap, false, [], ◌∷◌, ◌++◌, some, arith, Bytes,
  length, length-append, length-take, take, get_or-take, get_or-append_left, ==_ne, All, IsByte,
}
use huasi.ZWave.Frame.{sof, nack, calc_checksum}
use huasi.ZWave.Frame.Checksum.{calc_checksum-detects}
use huasi.ZWave.Protocol.{Protocol, Handlers, write, output}
use huasi.ZWave.Protocol.Queue.{IsSound}
use huasi.ZWave.Protocol.Receive.{stop, rx_byte, rx_round, rx_loop, stored, on_read}
use huasi.ZWave.Protocol.Receive.Framing.{
  HasChecksum, checksum_behind, body_before, loop_damaged_frame, on_read_fuel, rx_buffer-stored,
  rx_position-stored,
}

-- A frame whose length and checksum are those of the content `xs ++ a ∷ ys`, but which has the byte
-- `b` in the place of `a`.
abbrev pub altered : ℕ → ℕ → Bytes → ℕ → ℕ → Bytes → Bytes
altered frame_type code xs a b ys =
    let n = length (xs ++ a ∷ ys) + 3 in
    sof
    ∷ ((n ∷ frame_type ∷ code ∷ (xs ++ b ∷ ys))
        ++ calc_checksum (n ∷ frame_type ∷ code ∷ (xs ++ a ∷ ys)) ∷ [])

length-altered :
    (frame_type code : ℕ) (xs : Bytes) (a b : ℕ) (ys : Bytes)
    → length (altered frame_type code xs a b ys) ≡ length (xs ++ a ∷ ys) + 5
length-altered frame_type code xs a b ys = omega (
  arith,
  length-append (xs ++ b ∷ ys) (0 ∷ []),
  length-append xs (a ∷ ys),
  length-append xs (b ∷ ys),
  length-append (xs ++ b ∷ ys)
      (calc_checksum ((length (xs ++ a ∷ ys) + 3) ∷ frame_type ∷ code ∷ (xs ++ a ∷ ys)) ∷ []),
)

module _ {N : Type 0} where
  HasChecksum-sum :
      (n frame_type code sum : ℕ) (content rest : Bytes) (p : Protocol N)
      → p.rx_buffer ≡ (sof ∷ ((n ∷ frame_type ∷ code ∷ content) ++ sum ∷ [])) ++ rest
      → n ≡ length content + 3
      → HasChecksum p
      → sum ≡ calc_checksum (n ∷ frame_type ∷ code ∷ content)
  HasChecksum-sum n frame_type code sum content rest p e size correct =
      sym
        (checksum_behind (1 + n) (sof ∷ n ∷ frame_type ∷ code ∷ []) content rest sum (omega arith))
      ∙ (rw e at correct)
      ∙ ap calc_checksum (body_before n (n ∷ frame_type ∷ code ∷ []) content rest sum (omega arith))

  -- A read keeps the bytes that were there.
  rx_byte-stored :
      (bytes : Bytes) (p : Protocol N) (i : ℕ)
      → IsSound p
      → i < p.rx_position
      → rx_byte (stored bytes p) i ≡ rx_byte p i
  unfolding stored
  rx_byte-stored bytes p i v h =
      get_or-append_left (take p.rx_position p.rx_buffer) _ i 0
        (omega (arith, length-take p.rx_position p.rx_buffer, v.buffer_size, v.position_bound))
      ∙ get_or-take p.rx_position p.rx_buffer i 0 h

module _ {N : Type 0} (h : Handlers N) where
  -- A frame in an empty buffer in which one byte of the content was altered is answered by NACK,
  -- is not handed on, and the buffer is emptied.
  pub on_read-altered :
      (frame_type code : ℕ) (xs : Bytes) (a b : ℕ) (ys : Bytes) (p : Protocol N)
      → p.rx_position ≡ 0
      → length (xs ++ a ∷ ys) ≤ 251
      → IsByte frame_type
      → IsByte code
      → All IsByte xs
      → IsByte a
      → IsByte b
      → All IsByte ys
      → a ≢ b
      → let bytes = altered frame_type code xs a b ys in
        on_read h bytes p
        ≡ some (record (output (write (nack ∷ [])) (stored bytes p)) { rx_position = 0 })
  on_read-altered frame_type code xs a b ys p empty short ht hc hxs ha hb hys differ =
      let bytes = altered frame_type code xs a b ys in
      let n = length (xs ++ a ∷ ys) + 3 in
      let p' = stored bytes p in
      let there = rx_buffer-stored bytes p empty in
      let size = length-altered frame_type code xs a b ys in
      let at = rx_position-stored bytes p empty in
      let wrong : ¬ HasChecksum p' = λ correct. differ (
        calc_checksum-detects (n ∷ frame_type ∷ code ∷ xs) ys a b (omega arith, (ht, (hc, hxs))) hys
          ha hb
          (HasChecksum-sum n frame_type code _ (xs ++ b ∷ ys) _ p' there
            (omega (arith, length-append xs (a ∷ ys), length-append xs (b ∷ ys))) correct)) in
      on_read_fuel h n bytes p (omega (arith, size, empty))
      ∙ loop_damaged_frame h (suc n) p' (rw there) wrong (omega (arith, at, size))
          (rw there (omega (arith, at, size)))

  oversized_waits :
      (p : Protocol N)
      → rx_byte p 0 ≡ sof
      → rx_byte p 1 ≡ 255
      → p.rx_position ≤ 256
      → rx_round h false p ≡ stop p
  unfolding rx_round
  oversized_waits p start size room = ground arith

  loop_waits :
      (fuel : ℕ) (bytes : Bytes) (p : Protocol N)
      → rx_byte (stored bytes p) 0 ≡ sof
      → rx_byte (stored bytes p) 1 ≡ 255
      → 0 < p.rx_position + length bytes
      → p.rx_position + length bytes ≤ 256
      → rx_loop h (suc fuel) false (stored bytes p) ≡ some (stored bytes p)
  unfolding rx_loop stored
  loop_waits fuel bytes p start size some_left room =
      rw (==_ne (p.rx_position + length bytes) 0 (omega arith))
        (rw (oversized_waits (stored bytes p) start size room, rx_loop) refl)

  -- Once a frame in the buffer has the length 255, in a sound state, every read that fits only
  -- adds its bytes: nothing is answered and nothing is removed. For the length 255 says that the
  -- frame has 257 bytes, and the buffer holds 256.
  pub on_read-oversized :
      (bytes : Bytes) (p : Protocol N)
      → IsSound p
      → rx_byte p 0 ≡ sof
      → rx_byte p 1 ≡ 255
      → 2 ≤ p.rx_position
      → p.rx_position + length bytes ≤ 256
      → (on_read h bytes p ≡ some (stored bytes p))
        × (rx_byte (stored bytes p) 0 ≡ sof)
        × (rx_byte (stored bytes p) 1 ≡ 255)
  unfolding on_read
  on_read-oversized bytes p v start size header room =
      let p' = stored bytes p in
      let kept0 = rx_byte-stored bytes p 0 v (omega arith) ∙ start in
      let kept1 = rx_byte-stored bytes p 1 v (omega arith) ∙ size in
      (
        loop_waits (p.rx_position + length bytes) bytes p kept0 kept1 (omega arith) room,
        kept0,
        kept1,
      )
