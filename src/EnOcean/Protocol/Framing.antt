-- ===== src/EnOcean/Protocol/Framing.antt =====
-- A frame as it is sent is found as it was sent.
use huasi.Prelude.{
  ℕ, zero, suc, ◌+◌, ◌≤◌, ◌<◌, ◌≡◌, refl, ◌∙◌, ap, some, true, false, [], ◌∷◌, ◌++◌, append_assoc,
  arith, Bytes, length, length-append, take, drop, get_or, take-append_front, get_or-append_middle,
  drop-append_front, ◌==◌, ==_refl, not_leb, not_ltb,
}
use huasi.EnOcean.Crc.{calc_checksum}
use huasi.EnOcean.Protocol.{
  Request, Protocol, header, tx_frame, is_header, is_intact, is_partial, body_length, data_length,
  optional_length, dispatch, complete_frame, rx_loop, on_read,
}

-- The lengths that the protocol allows for a request.
pub record Fits (r : Request) : Type 0 where
  pub content_bound : length r.content ≤ 256
  pub optional_bound : length r.optional_content ≤ 16

pub data_length-tx_frame : (r : Request) → Fits r → data_length (tx_frame r) ≡ length r.content
data_length-tx_frame r v = omega (arith, v.content_bound)

pub optional_length-tx_frame :
    (r : Request) → Fits r → optional_length (tx_frame r) ≡ length r.optional_content
optional_length-tx_frame r v = omega (arith, v.optional_bound)

body_length-tx_frame :
    (r : Request) → Fits r → body_length (tx_frame r) ≡ length (r.content ++ r.optional_content)
body_length-tx_frame r v = omega (
  arith,
  length-append r.content r.optional_content,
  data_length-tx_frame r v,
  optional_length-tx_frame r v,
)

is_header-tx_frame : (r : Request) → is_header (tx_frame r) ≡ true
is_header-tx_frame r = ==_refl (calc_checksum (header r))

length-tx_frame : (r : Request) → length (tx_frame r) ≡ length (r.content ++ r.optional_content) + 7
length-tx_frame r = omega (
  arith,
  length-append (r.content ++ r.optional_content)
      (calc_checksum (r.content ++ r.optional_content) ∷ []),
)

six : (n : ℕ) → 6 + n ≡ suc (suc (suc (suc (suc (suc n)))))
six n = omega arith

pub behind_header :
    (a b c d e f n : ℕ) (xs : Bytes) → get_or (a ∷ b ∷ c ∷ d ∷ e ∷ f ∷ xs) (6 + n) 0 ≡ get_or xs n 0
behind_header a b c d e f n xs = ap (λ i. get_or (a ∷ b ∷ c ∷ d ∷ e ∷ f ∷ xs) i 0) (six n)

drop_header :
    (a b c d e f n : ℕ) (xs : Bytes) → drop (6 + n) (a ∷ b ∷ c ∷ d ∷ e ∷ f ∷ xs) ≡ drop n xs
drop_header a b c d e f n xs = ap (λ i. drop i (a ∷ b ∷ c ∷ d ∷ e ∷ f ∷ xs)) (six n)

drop_all : (n : ℕ) (xs : Bytes) → length xs ≤ n → drop n xs ≡ []
drop_all zero [] h = refl
drop_all zero (x ∷ xs) h = absurd (omega arith)
drop_all (suc n) [] h = refl
drop_all (suc n) (x ∷ xs) h = drop_all n xs (omega arith)

is_intact-tx_frame : (r : Request) → Fits r → is_intact (tx_frame r) ≡ true
is_intact-tx_frame r v =
    let body = r.content ++ r.optional_content in
    let sum = calc_checksum body in
    let found : get_or (tx_frame r) (6 + length body) 0 ≡ sum =
      behind_header _ _ _ _ _ _ (length body) (body ++ sum ∷ [])
      ∙ get_or-append_middle body sum [] 0 in
    rw (body_length-tx_frame r v) (
      ap (λ i. calc_checksum (take (length body) (body ++ sum ∷ [])) == i) found
      ∙ ap (λ l. calc_checksum l == sum) (take-append_front body (sum ∷ []))
      ∙ ==_refl sum)

complete_tx_frame :
    (r : Request) (p : Protocol)
    → Fits r
    → p.received ≡ tx_frame r
    → complete_frame p
      ≡ record (dispatch (tx_frame r) p.requests (record p { timer = false; tx_retry_count = 0 })) {
        received = [];
      }
unfolding complete_frame
complete_tx_frame r p v e = rw e (
    rw (is_intact-tx_frame r v) (
      rw
        (drop_all (6 + body_length (tx_frame r) + 1) (tx_frame r)
          (omega (arith, length-tx_frame r, body_length-tx_frame r v)))
        refl))

pub loop_whole :
    (fuel : ℕ) (p : Protocol)
    → 6 < length p.received
    → is_partial p.received ≡ false
    → is_header p.received ≡ true
    → rx_loop (suc fuel) p ≡ rx_loop fuel (complete_frame p)
unfolding rx_loop
loop_whole fuel p long whole valid =
    rw (not_leb (length p.received) 6 long) (rw whole (rw valid refl))

pub loop_empty : (fuel : ℕ) (p : Protocol) → p.received ≡ [] → rx_loop (suc fuel) p ≡ some p
unfolding rx_loop
loop_empty fuel p e = rw e refl

is_partial-tx_frame : (r : Request) → Fits r → is_partial (tx_frame r) ≡ false
is_partial-tx_frame r v = rw (is_header-tx_frame r) (
    not_ltb (length (tx_frame r)) (6 + body_length (tx_frame r) + 1)
      (omega (arith, length-tx_frame r, body_length-tx_frame r v)))

pub read_frame :
    (r : Request) (p : Protocol)
    → Fits r
    → p.received ≡ []
    → let rx = tx_frame r in
      on_read rx p
      ≡ some
          (record (dispatch rx p.requests
            (record p { received = rx; timer = false; tx_retry_count = 0 })) { received = [] })
unfolding on_read
read_frame r p v e =
    let rx = tx_frame r in
    let p' = record p { received = rx } in
    let body = length (r.content ++ r.optional_content) in
    let fuel : suc (length p.received + length rx) ≡ suc (suc (body + 6)) =
      omega (arith, length-tx_frame r, ap length e) in
    rw fuel (
      ap (λ l. rx_loop (suc (suc (body + 6))) (record p { received = l ++ rx })) e
      ∙ loop_whole (suc (body + 6)) p' (omega (arith, length-tx_frame r)) (is_partial-tx_frame r v)
          (is_header-tx_frame r)
      ∙ ap (rx_loop (suc (body + 6))) (complete_tx_frame r p' v refl)
      ∙ loop_empty (body + 6) _ refl)

pub content_found :
    (r : Request) → Fits r → take (data_length (tx_frame r)) (drop 6 (tx_frame r)) ≡ r.content
content_found r v =
    let sum = calc_checksum (r.content ++ r.optional_content) in
    rw (data_length-tx_frame r v) (
      ap (take (length r.content)) (append_assoc r.content r.optional_content (sum ∷ []))
      ∙ take-append_front r.content (r.optional_content ++ sum ∷ []))

pub optional_found :
    (r : Request)
    → Fits r
    → take (optional_length (tx_frame r)) (drop (6 + data_length (tx_frame r)) (tx_frame r))
      ≡ r.optional_content
optional_found r v =
    let sum = calc_checksum (r.content ++ r.optional_content) in
    rw (data_length-tx_frame r v, optional_length-tx_frame r v)
      (ap (take (length r.optional_content)) (
          drop_header _ _ _ _ _ _ (length r.content) _
          ∙ ap (drop (length r.content)) (append_assoc r.content r.optional_content (sum ∷ []))
          ∙ drop-append_front r.content (r.optional_content ++ sum ∷ []))
        ∙ take-append_front r.optional_content (sum ∷ []))
