-- ===== src/Prelude/Bits.antt =====
-- Laws of `&` on bytes and 16-bit words, by a look at every value.
use Prim.Native.Nat.{ℕ, zero, suc, ◌%◌, ◌/◌, ◌*◌, ◌<◌, bit_and}
use mathlib.Core.Path.{◌≡◌, refl}
use mathlib.Core.Bool.{Bool, true, ◌&&◌}
use native.Mathlib.Omega.{arith}
use profinet_rs.Prelude.Tests.{◌==◌}

unfoldable pub agree_below : ℕ → (ℕ → ℕ) → (ℕ → ℕ) → Bool
agree_below zero f g = true
agree_below (suc n) f g = (f n == g n) && agree_below n f g

-- Two functions that agree at every value below `n`.
pub eq_of_agree_below : (n : ℕ) (f g : ℕ → ℕ) (x : ℕ) → agree_below n f g ≡ true → x < n → f x ≡ g x
unfolding agree_below
eq_of_agree_below zero f g x h lt = absurd (omega arith)
eq_of_agree_below (suc n) f g x h lt = ground (arith, eq_of_agree_below n f g x)

low_15_table : agree_below 65536 (λ x. bit_and x 0x7FFF) (λ x. x % 32768) ≡ true
unfolding agree_below
low_15_table = refl

pub bit_and_low_15 : (x : ℕ) → x < 65536 → bit_and x 0x7FFF ≡ x % 32768
bit_and_low_15 x h = eq_of_agree_below 65536 _ _ x low_15_table h

low_4_table : agree_below 512 (λ x. bit_and x 0xF) (λ x. x % 16) ≡ true
unfolding agree_below
low_4_table = refl

pub bit_and_low_4 : (x : ℕ) → x < 512 → bit_and x 0xF ≡ x % 16
bit_and_low_4 x h = eq_of_agree_below 512 _ _ x low_4_table h

top_bit_table : agree_below 65536 (λ x. bit_and x 0x8000) (λ x. x / 32768 * 32768) ≡ true
unfolding agree_below
top_bit_table = refl

pub bit_and_top : (x : ℕ) → x < 65536 → bit_and x 0x8000 ≡ x / 32768 * 32768
bit_and_top x h = eq_of_agree_below 65536 _ _ x top_bit_table h
