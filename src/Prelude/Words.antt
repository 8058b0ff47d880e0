-- ===== src/Prelude/Words.antt =====
-- Laws of `^` on bytes, from a check of all bytes.
use Prim.Native.Nat.{ℕ, zero, suc, ◌<◌, bit_xor}
use mathlib.Core.Path.{◌≡◌, refl, sym, ◌∙◌, ap}
use mathlib.Core.Bool.{Bool, true, ◌&&◌}
use native.Mathlib.Omega.{arith}
use huasi.Prelude.Tests.{◌==◌, ltb, ==_iff, ltb→lt}

-- Whether the numbers under a limit all pass a test.
unfoldable pub every_under : ℕ → (ℕ → Bool) → Bool
every_under zero test = true
every_under (suc limit) test = every_under limit test && test limit

pub every_under_at :
    (limit : ℕ) (test : ℕ → Bool) (value : ℕ)
    → every_under limit test ≡ true
    → value < limit
    → test value ≡ true
unfolding every_under
every_under_at zero test value passed small = absurd (omega arith)
every_under_at (suc limit) test value passed small = ground (arith, every_under_at limit test value)

-- A test that holds of all pairs of bytes.
abbrev all_pairs : (ℕ → ℕ → Bool) → Bool
all_pairs p = every_under 256 (λ x. every_under 256 (p x))

all_pairs_sound :
    (p : ℕ → ℕ → Bool) (x y : ℕ) → all_pairs p ≡ true → x < 256 → y < 256 → p x y ≡ true
all_pairs_sound p x y h hx hy =
    every_under_at 256 (p x) y (every_under_at 256 (λ x. every_under 256 (p x)) x h hx) hy

xor_bound_table : all_pairs (λ x y. ltb (bit_xor x y) 256) ≡ true
unfolding every_under
xor_bound_table = refl

xor_back_table : all_pairs (λ x y. bit_xor (bit_xor x y) y == x) ≡ true
unfolding every_under
xor_back_table = refl

xor_front_table : all_pairs (λ x y. bit_xor x (bit_xor x y) == y) ≡ true
unfolding every_under
xor_front_table = refl

pub bit_xor-lt : (x y : ℕ) → x < 256 → y < 256 → bit_xor x y < 256
bit_xor-lt x y hx hy =
    ltb→lt _ 256 (all_pairs_sound (λ x y. ltb (bit_xor x y) 256) x y xor_bound_table hx hy)

bit_xor_back : (x y : ℕ) → x < 256 → y < 256 → bit_xor (bit_xor x y) y ≡ x
bit_xor_back x y hx hy =
    (==_iff _ x).0 (all_pairs_sound (λ x y. bit_xor (bit_xor x y) y == x) x y xor_back_table hx hy)

bit_xor_front : (x y : ℕ) → x < 256 → y < 256 → bit_xor x (bit_xor x y) ≡ y
bit_xor_front x y hx hy =
    (==_iff _ y).0 (all_pairs_sound (λ x y. bit_xor x (bit_xor x y) == y) x y xor_front_table hx hy)

pub bit_xor_cancel_right :
    (a b x : ℕ) → a < 256 → b < 256 → x < 256 → bit_xor a x ≡ bit_xor b x → a ≡ b
bit_xor_cancel_right a b x ha hb hx e =
    sym (bit_xor_back a x ha hx) ∙ ap (λ n. bit_xor n x) e ∙ bit_xor_back b x hb hx

pub bit_xor_cancel_left :
    (x a b : ℕ) → a < 256 → b < 256 → x < 256 → bit_xor x a ≡ bit_xor x b → a ≡ b
bit_xor_cancel_left x a b ha hb hx e =
    sym (bit_xor_front x a hx ha) ∙ ap (bit_xor x) e ∙ bit_xor_front x b hx hb
