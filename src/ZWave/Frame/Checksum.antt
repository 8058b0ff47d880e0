-- ===== src/ZWave/Frame/Checksum.antt =====
-- What the checksum detects.
use huasi.Prelude.{
  ℕ, ◌<◌, ◌≡◌, ◌≢◌, refl, sym, ◌∙◌, [], ◌∷◌, ◌++◌, arith, Bytes, bit_xor, IsByte, All, bit_xor-lt,
  bit_xor_cancel_left, bit_xor_cancel_right,
}
use huasi.ZWave.Frame.{calc_checksum, checksum_from}

checksum_from-lt :
    (bytes : Bytes) (a : ℕ) → All IsByte bytes → a < 256 → checksum_from a bytes < 256
unfolding checksum_from
checksum_from-lt [] a h ha = ha
checksum_from-lt (x ∷ bytes) a (hx, h) ha =
    checksum_from-lt bytes (bit_xor a x) h (bit_xor-lt a x ha hx)

checksum_from-append :
    (xs ys : Bytes) (a : ℕ) → checksum_from a (xs ++ ys) ≡ checksum_from (checksum_from a xs) ys
unfolding checksum_from
checksum_from-append [] ys a = refl
checksum_from-append (x ∷ xs) ys a = checksum_from-append xs ys (bit_xor a x)

-- Distinct running sums stay distinct.
checksum_from_injective :
    (bytes : Bytes) (a b : ℕ)
    → All IsByte bytes
    → a < 256
    → b < 256
    → checksum_from a bytes ≡ checksum_from b bytes
    → a ≡ b
unfolding checksum_from
checksum_from_injective [] a b h ha hb e = e
checksum_from_injective (x ∷ bytes) a b (hx, h) ha hb e = bit_xor_cancel_right a b x ha hb hx (
    checksum_from_injective bytes (bit_xor a x) (bit_xor b x) h (bit_xor-lt a x ha hx)
      (bit_xor-lt b x hb hx) e)

-- With equal checksums the byte is the same.
pub calc_checksum-detects :
    (xs ys : Bytes) (a b : ℕ)
    → All IsByte xs
    → All IsByte ys
    → IsByte a
    → IsByte b
    → calc_checksum (xs ++ a ∷ ys) ≡ calc_checksum (xs ++ b ∷ ys)
    → a ≡ b
unfolding calc_checksum
calc_checksum-detects xs ys a b hxs hys ha hb e =
    let sum = checksum_from 0xff xs in
    let small : sum < 256 = checksum_from-lt xs 0xff hxs (omega arith) in
    bit_xor_cancel_left sum a b ha hb small (
      checksum_from_injective ys (bit_xor sum a) (bit_xor sum b) hys (bit_xor-lt sum a small ha)
        (bit_xor-lt sum b small hb)
        (sym (checksum_from-append xs (a ∷ ys) 0xff) ∙ e ∙ checksum_from-append xs (b ∷ ys) 0xff))

-- Two byte strings that differ in exactly one byte have different checksums.
pub damage_changes_checksum :
    (xs ys : Bytes) (a b : ℕ)
    → All IsByte xs
    → All IsByte ys
    → IsByte a
    → IsByte b
    → a ≢ b
    → calc_checksum (xs ++ a ∷ ys) ≢ calc_checksum (xs ++ b ∷ ys)
damage_changes_checksum xs ys a b hxs hys ha hb differ e =
    differ (calc_checksum-detects xs ys a b hxs hys ha hb e)
