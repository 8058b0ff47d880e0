-- ===== src/EnOcean/Protocol/Damage.antt =====
-- Frames that are damaged, and frames that are too large for the buffer.
use huasi.Prelude.{
  ℕ, suc, ◌+◌, ◌*◌, ◌≤◌, ◌<◌, ◌≡◌, ◌≢◌, refl, sym, ◌∙◌, ap, some, true, false, [], ◌∷◌, ◌++◌, arith,
  Bytes, IsByte, All, length, length-append, take, get_or, take-append_front, get_or-append_middle,
  ◌==◌, ==_refl, ==_ne, not_ltb, leb, lt→ltb, Bool-cases, inl, inr,
}
use huasi.EnOcean.Crc.{calc_checksum}
use huasi.EnOcean.Crc.Detects.{damage_changes_crc}
use huasi.EnOcean.Protocol.{
  Request, Protocol, header, is_intact, is_partial, body_length, complete_frame, rx_loop, on_read,
}
use huasi.EnOcean.Protocol.Framing.{Fits, behind_header, loop_whole, loop_empty}

-- The frame of a request with another body.
abbrev pub with_body : Request → Bytes → Bytes
with_body r body =
    0x55 ∷ header r
    ++ calc_checksum (header r) ∷ body
    ++ calc_checksum (r.content ++ r.optional_content) ∷ []

body_length-with_body :
    (r : Request) (body : Bytes)
    → Fits r
    → length body ≡ length (r.content ++ r.optional_content)
    → body_length (with_body r body) ≡ length body
body_length-with_body r body v same =
    omega (arith, v.content_bound, v.optional_bound, length-append r.content r.optional_content)

is_intact-with_body :
    (r : Request) (body : Bytes)
    → Fits r
    → length body ≡ length (r.content ++ r.optional_content)
    → calc_checksum body ≢ calc_checksum (r.content ++ r.optional_content)
    → is_intact (with_body r body) ≡ false
is_intact-with_body r body v same differ =
    let sum = calc_checksum (r.content ++ r.optional_content) in
    let found : get_or (with_body r body) (6 + length body) 0 ≡ sum =
      behind_header _ _ _ _ _ _ (length body) (body ++ sum ∷ [])
      ∙ get_or-append_middle body sum [] 0 in
    rw (body_length-with_body r body v same) (
      ap (λ i. calc_checksum (take (length body) (body ++ sum ∷ [])) == i) found
      ∙ ap (λ l. calc_checksum l == sum) (take-append_front body (sum ∷ []))
      ∙ ==_ne (calc_checksum body) sum differ)

complete_damaged :
    (p : Protocol) → is_intact p.received ≡ false → complete_frame p ≡ record p { received = [] }
unfolding complete_frame
complete_damaged p damaged = rw damaged refl

-- A frame with data of at most 256 bytes and optional data of at most 16 bytes that arrives at an
-- empty buffer with one byte of the data or of the optional data altered is dropped: the state stays
-- as it is, so that the timer of a request that waits runs on.
pub enocean_on_read_altered :
    (r : Request) (xs ys : Bytes) (a b : ℕ) (p : Protocol)
    → Fits r
    → r.content ++ r.optional_content ≡ xs ++ a ∷ ys
    → All IsByte xs
    → All IsByte ys
    → IsByte a
    → IsByte b
    → a ≢ b
    → p.received ≡ []
    → on_read (with_body r (xs ++ b ∷ ys)) p ≡ some p
unfolding on_read
enocean_on_read_altered r xs ys a b p v body hxs hys ha hb differ e =
    let rx = with_body r (xs ++ b ∷ ys) in
    let p' = record p { received = rx } in
    let size = length (xs ++ b ∷ ys) in
    let same : size ≡ length (r.content ++ r.optional_content) =
      omega (arith, ap length body, length-append xs (a ∷ ys), length-append xs (b ∷ ys)) in
    let wrong = is_intact-with_body r (xs ++ b ∷ ys) v same (λ equal.
      damage_changes_crc xs ys a b hxs hys ha hb differ (sym (equal ∙ ap calc_checksum body))) in
    let whole : length rx ≡ size + 7 = omega (
      arith,
      length-append (xs ++ b ∷ ys) (calc_checksum (r.content ++ r.optional_content) ∷ []),
    ) in
    let fuel : suc (length p.received + length rx) ≡ suc (suc (size + 6)) =
      omega (arith, whole, ap length e) in
    rw fuel (
      ap (λ l. rx_loop (suc (suc (size + 6))) (record p { received = l ++ rx })) e
      ∙ loop_whole (suc (size + 6)) p' (omega (arith, whole))
          (rw (==_refl (calc_checksum (header r))) (
            not_ltb (length rx) (6 + body_length rx + 1)
              (omega (arith, whole, body_length-with_body r (xs ++ b ∷ ys) v same))))
          (==_refl (calc_checksum (header r)))
      ∙ ap (rx_loop (suc (size + 6))) (complete_damaged p' wrong)
      ∙ loop_empty (size + 6) (record p { received = [] }) refl
      ∙ ap (λ l. some (record p { received = l })) (sym e))

loop_partial :
    (fuel : ℕ) (p : Protocol) → is_partial p.received ≡ true → rx_loop (suc fuel) p ≡ some p
unfolding rx_loop
loop_partial fuel p partial = elim (Bool-cases (leb (length p.received) 6)) [
  | inl short ↦ rw short refl
  | inr long ↦ rw long (rw partial refl)
]

-- The header of a frame that the buffer does not hold.
abbrev pub large_header : ℕ → ℕ → ℕ → ℕ → Bytes
large_header high low optional packet_type =
    let fields = high ∷ low ∷ optional ∷ packet_type ∷ [] in
    0x55 ∷ fields ++ calc_checksum fields ∷ []

-- Once the buffer, of 279 bytes, begins with a correct header for a frame of more bytes than that,
-- every read that fits only adds its bytes: nothing is dispatched, sent or removed, and the header stays.
pub enocean_on_read_oversized :
    (high low optional packet_type : ℕ) (rest bytes : Bytes) (p : Protocol)
    → let start = large_header high low optional packet_type in
      279 < 7 + (high * 256 + low + optional)
      → p.received ≡ start ++ rest
      → length p.received + length bytes ≤ 279
      → on_read bytes p ≡ some (record p { received = start ++ (rest ++ bytes) })
unfolding on_read
enocean_on_read_oversized high low optional packet_type rest bytes p large e room =
    let start = large_header high low optional packet_type in
    let fuel = length p.received + length bytes in
    let rx = start ++ (rest ++ bytes) in
    let size : length rx ≡ fuel =
      omega (arith, ap length e, length-append start rest, length-append rest bytes) in
    ap (λ l. rx_loop (suc fuel) (record p { received = l })) (ap (λ l. l ++ bytes) e)
    ∙ loop_partial fuel (record p { received = rx })
        (rw (==_refl (calc_checksum (high ∷ low ∷ optional ∷ packet_type ∷ [])))
          (lt→ltb (length rx) (6 + body_length rx + 1) (omega (arith, size))))
