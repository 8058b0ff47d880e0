-- ===== src/EnOcean/Crc/Detects.antt =====
-- What the checksum detects.
use huasi.Prelude.{
  ℕ, ◌<◌, ◌≡◌, ◌≢◌, refl, sym, ◌∙◌, [], ◌∷◌, ◌++◌, arith, Bytes, bit_xor, IsByte, All, get_or,
  bit_xor-lt, bit_xor_cancel_left, bit_xor_cancel_right,
}
use huasi.EnOcean.Crc.{crc8_table, calc_checksum, checksum_from}
use huasi.EnOcean.Crc.Polynomial.{crc8_table-lt, crc8_table_injective}

abbrev next : ℕ → ℕ → ℕ
next crc byte = get_or crc8_table (bit_xor crc byte) 0

next-lt : (crc byte : ℕ) → crc < 256 → IsByte byte → next crc byte < 256
next-lt crc byte hc hb = crc8_table-lt (bit_xor crc byte) (bit_xor-lt crc byte hc hb)

checksum_from-lt :
    (bytes : Bytes) (a : ℕ) → All IsByte bytes → a < 256 → checksum_from a bytes < 256
unfolding checksum_from
checksum_from-lt [] a h ha = ha
checksum_from-lt (x ∷ bytes) a (hx, h) ha = checksum_from-lt bytes (next a x) h (next-lt a x ha hx)

checksum_from-append :
    (xs ys : Bytes) (a : ℕ) → checksum_from a (xs ++ ys) ≡ checksum_from (checksum_from a xs) ys
unfolding checksum_from
checksum_from-append [] ys a = refl
checksum_from-append (x ∷ xs) ys a = checksum_from-append xs ys (next a x)

-- Distinct running sums stay distinct.
checksum_from_injective :
    (bytes : Bytes) (a b : ℕ)
    → All IsByte bytes
    → a < 256
    → b < 256
    → checksum_from a bytes ≡ checksum_from b bytes
    → a ≡ b
unfolding checksum_from
checksum_from_injective [] a b h ha hb e = e
checksum_from_injective (x ∷ bytes) a b (hx, h) ha hb e = bit_xor_cancel_right a b x ha hb hx (
    crc8_table_injective _ _ (bit_xor-lt a x ha hx) (bit_xor-lt b x hb hx) (
      checksum_from_injective bytes (next a x) (next b x) h (next-lt a x ha hx) (next-lt b x hb hx)
        e))

-- With equal checksums the byte is the same.
crc_detects :
    (xs ys : Bytes) (a b : ℕ)
    → All IsByte xs
    → All IsByte ys
    → IsByte a
    → IsByte b
    → calc_checksum (xs ++ a ∷ ys) ≡ calc_checksum (xs ++ b ∷ ys)
    → a ≡ b
unfolding checksum_from
crc_detects xs ys a b hxs hys ha hb e =
    let sum = checksum_from 0 xs in
    let small : sum < 256 = checksum_from-lt xs 0 hxs (omega arith) in
    bit_xor_cancel_left sum a b ha hb small (
      crc8_table_injective _ _ (bit_xor-lt sum a small ha) (bit_xor-lt sum b small hb) (
        checksum_from_injective ys (next sum a) (next sum b) hys (next-lt sum a small ha)
          (next-lt sum b small hb) (back a ∙ e ∙ sym (back b))))
  where
    back : (c : ℕ) → checksum_from (next (checksum_from 0 xs) c) ys ≡ calc_checksum (xs ++ c ∷ ys)
    back c = sym (checksum_from-append xs (c ∷ ys) 0)

-- Two byte strings that differ in exactly one byte have different checksums.
pub damage_changes_crc :
    (xs ys : Bytes) (a b : ℕ)
    → All IsByte xs
    → All IsByte ys
    → IsByte a
    → IsByte b
    → a ≢ b
    → calc_checksum (xs ++ a ∷ ys) ≢ calc_checksum (xs ++ b ∷ ys)
damage_changes_crc xs ys a b hxs hys ha hb differ e = differ (crc_detects xs ys a b hxs hys ha hb e)
