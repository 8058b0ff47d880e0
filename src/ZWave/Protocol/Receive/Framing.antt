-- ===== src/ZWave/Protocol/Receive/Framing.antt =====
-- Whole frames, damaged frames, and the frame that never ends.
use huasi.Prelude.{
  ℕ, suc, ◌+◌, ◌%◌, ◌≤◌, ◌<◌, ◌≡◌, refl, sym, ◌∙◌, ap, Bool, true, false, [], ◌∷◌, ◌++◌, some,
  arith, Bytes, length, length-append, take, drop, get_or, take-append_front, get_or-append_middle,
  append_assoc, ==_ne, ==_iff,
}
use huasi.ZWave.Frame.{sof, nack, calc_checksum, frame}
use huasi.ZWave.Protocol.{Protocol, Handlers, write, output}
use huasi.ZWave.Protocol.Receive.{
  again, rx_byte, remove_front, handle_frame, complete_frame, rx_round, rx_loop, stored, on_read,
}
use huasi.ZWave.Protocol.Receive.Total.{handle_frame-SameInput}

-- The fields of a frame, as the handler of a read finds them.
pub record Holds {N : Type 0} (frame_type code : ℕ) (content : Bytes) (p : Protocol N)
    : Type 0 where
  pub start : rx_byte p 0 ≡ sof
  pub size : rx_byte p 1 ≡ length content + 3
  pub kind : rx_byte p 2 ≡ frame_type
  pub called : rx_byte p 3 ≡ code
  pub payload : take (length content) (drop 4 p.rx_buffer) ≡ content
  pub whole : length content + 5 ≤ p.rx_position

pub checksum_behind :
    (i : ℕ) (front content rest : Bytes) (sum : ℕ)
    → i ≡ length front + length content
    → get_or (front ++ ((content ++ sum ∷ []) ++ rest)) i 0 ≡ sum
checksum_behind i front content rest sum e =
    rw
      (
        append_assoc content (sum ∷ []) rest,
        ← append_assoc front content (sum ∷ rest),
        e,
        ← length-append front content,
      )
      (get_or-append_middle (front ++ content) sum rest 0)

pub body_before :
    (i : ℕ) (front content rest : Bytes) (sum : ℕ)
    → i ≡ length front + length content
    → take i (front ++ ((content ++ sum ∷ []) ++ rest)) ≡ front ++ content
body_before i front content rest sum e =
    rw
      (
        append_assoc content (sum ∷ []) rest,
        ← append_assoc front content (sum ∷ rest),
        e,
        ← length-append front content,
      )
      (take-append_front (front ++ content) (sum ∷ rest))

pub length-frame :
    (frame_type code : ℕ) (content : Bytes)
    → length (frame frame_type code content) ≡ length content + 5
unfolding frame
length-frame frame_type code content = omega (
  arith,
  length-append content (0 ∷ []),
  length-append content
      (calc_checksum (((length content + 3) % 256) ∷ frame_type ∷ code ∷ content) ∷ []),
)

module _ {N : Type 0} where
  -- The last byte of the frame is the checksum of the others but SOF.
  abbrev pub HasChecksum : Protocol N → Type 0
  HasChecksum p =
      rx_byte p (1 + rx_byte p 1) ≡ calc_checksum (take (rx_byte p 1) (drop 1 p.rx_buffer))

  frame-Holds :
      (frame_type code : ℕ) (content rest : Bytes) (p : Protocol N)
      → p.rx_buffer ≡ frame frame_type code content ++ rest
      → length content ≤ 251
      → length content + 5 ≤ p.rx_position
      → Holds frame_type code content p
  unfolding frame
  frame-Holds frame_type code content rest p e short whole = record {
    start = rw e;
    size = rw e (omega arith);
    kind = rw e;
    called = rw e;
    payload = rw (e, append_assoc content _ rest) (take-append_front content _);
    whole = whole;
  }

  frame-HasChecksum :
      (frame_type code : ℕ) (content rest : Bytes) (p : Protocol N)
      → p.rx_buffer ≡ frame frame_type code content ++ rest
      → length content ≤ 251
      → HasChecksum p
  unfolding frame
  frame-HasChecksum frame_type code content rest p e short =
      let n = (length content + 3) % 256 in
      rw e (
        checksum_behind (1 + n) (sof ∷ n ∷ frame_type ∷ code ∷ []) content rest _ (omega arith)
        ∙ ap calc_checksum
            (sym (body_before n (n ∷ frame_type ∷ code ∷ []) content rest _ (omega arith))))

  pub rx_buffer-stored :
      (bytes : Bytes) (p : Protocol N)
      → p.rx_position ≡ 0
      → (stored bytes p).rx_buffer ≡ bytes ++ drop (p.rx_position + length bytes) p.rx_buffer
  unfolding stored
  rx_buffer-stored bytes p e =
      ap (λ n. take n p.rx_buffer ++ (bytes ++ drop (p.rx_position + length bytes) p.rx_buffer)) e

  pub rx_position-stored :
      (bytes : Bytes) (p : Protocol N)
      → p.rx_position ≡ 0
      → (stored bytes p).rx_position ≡ length bytes
  unfolding stored
  rx_position-stored bytes p e = omega arith

module _ {N : Type 0} (h : Handlers N) where
  pub rx_round_whole :
      (framed : Bool) (p : Protocol N)
      → rx_byte p 0 ≡ sof
      → 3 ≤ p.rx_position
      → 2 + rx_byte p 1 ≤ p.rx_position
      → rx_round h framed p ≡ complete_frame h framed p
  unfolding rx_round
  rx_round_whole framed p start header whole = ground arith

  pub rx_loop_round :
      (fuel : ℕ) (framed framed' : Bool) (p q : Protocol N)
      → 0 < p.rx_position
      → rx_round h framed p ≡ again framed' q
      → rx_loop h (suc fuel) framed p ≡ rx_loop h fuel framed' q
  unfolding rx_loop
  rx_loop_round fuel framed framed' p q some_left e =
      rw (==_ne p.rx_position 0 (omega arith)) (rw (e, rx_loop) refl)

  pub rx_loop_empty :
      (fuel : ℕ) (framed : Bool) (p : Protocol N)
      → p.rx_position ≡ 0
      → rx_loop h (suc fuel) framed p ≡ some p
  unfolding rx_loop
  rx_loop_empty fuel framed p e = rw e

  pub on_read_fuel :
      (n : ℕ) (bytes : Bytes) (p : Protocol N)
      → p.rx_position + length bytes ≡ suc (suc n)
      → on_read h bytes p ≡ rx_loop h (suc (suc (suc n))) false (stored bytes p)
  unfolding on_read
  on_read_fuel n bytes p e = ap (λ m. rx_loop h (suc m) false (stored bytes p)) e

  -- A whole frame with its checksum, alone in the buffer, is handled and removed.
  loop_one_frame :
      (fuel : ℕ) (p : Protocol N)
      → rx_byte p 0 ≡ sof
      → HasChecksum p
      → 3 ≤ p.rx_position
      → p.rx_position ≡ 2 + rx_byte p 1
      → rx_loop h (suc (suc fuel)) false p
        ≡ some (remove_front (2 + rx_byte p 1) (handle_frame h p))
  unfolding complete_frame
  loop_one_frame fuel p start correct header e =
      let q = remove_front (2 + rx_byte p 1) (handle_frame h p) in
      rx_loop_round (suc fuel) false true p q (omega arith)
        (rx_round_whole false p start header (omega arith) ∙ rw ((==_iff _ _).1 correct) refl)
      ∙ rx_loop_empty fuel true q
          (unfold remove_front in omega (arith, (handle_frame-SameInput h p).0))

  -- With another checksum it is refused, and the buffer is emptied.
  pub loop_damaged_frame :
      (fuel : ℕ) (p : Protocol N)
      → rx_byte p 0 ≡ sof
      → ¬ HasChecksum p
      → 3 ≤ p.rx_position
      → 2 + rx_byte p 1 ≤ p.rx_position
      → rx_loop h (suc (suc fuel)) false p
        ≡ some (record (output (write (nack ∷ [])) p) { rx_position = 0 })
  unfolding complete_frame
  loop_damaged_frame fuel p start wrong header whole =
      let q : Protocol N = record (output (write (nack ∷ [])) p) { rx_position = 0 } in
      rx_loop_round (suc fuel) false false p q (omega arith)
        (rx_round_whole false p start header whole ∙ rw (==_ne _ _ wrong) refl)
      ∙ rx_loop_empty fuel false q refl

  -- A frame that arrives in an empty buffer is found as it was sent: the handler sees its type, its
  -- function and its content, the frame is acknowledged and dispatched, and the buffer is empty.
  pub on_read-frame :
      (frame_type code : ℕ) (content : Bytes) (p : Protocol N)
      → p.rx_position ≡ 0
      → length content ≤ 251
      → let p' = stored (frame frame_type code content) p in
        Holds frame_type code content p'
        × (on_read h (frame frame_type code content) p
            ≡ some (remove_front (length content + 5) (handle_frame h p')))
  on_read-frame frame_type code content p empty short =
      let bytes = frame frame_type code content in
      let p' = stored bytes p in
      let at = rx_position-stored bytes p empty in
      let size = length-frame frame_type code content in
      let there = rx_buffer-stored bytes p empty in
      let holds = frame-Holds frame_type code content _ p' there short (omega (arith, at, size)) in
      (
        holds,
        on_read_fuel (length content + 3) bytes p (omega (arith, size, empty))
            ∙ loop_one_frame (suc (length content + 3)) p' holds.start
                (frame-HasChecksum frame_type code content _ p' there short)
                (omega (arith, at, size)) (omega (arith, at, size, holds.size))
            ∙ ap (λ n. some (remove_front n (handle_frame h p'))) (omega (arith, holds.size)),
      )
