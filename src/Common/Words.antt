-- ===== src/Common/Words.antt =====
-- 32-bit words that the program uses as bitmaps: bit `i` of the word is the value at `i`.
use Prim.Native.Nat.{ℕ, zero, suc, ◌<◌}
use mathlib.Core.Path.{◌≡◌}
use mathlib.Core.Bool.{Bool, true, false, not, ◌&&◌, ◌||◌}
use native.Mathlib.Omega.{arith}
use linux_0_11_comments.Common.Tests.{◌==◌, if◌then◌else◌}

abbrev pub Bits : Type 0
Bits = ℕ → Bool

abbrev pub no_bits : Bits
no_bits i = false

-- w | (1 << n), w & ~(1 << n)
abbrev pub set_bit : Bits → ℕ → Bits
set_bit w n i = if n == i then true else w i

abbrev pub clear_bit : Bits → ℕ → Bits
clear_bit w n i = if n == i then false else w i

-- v & w, v | w, v & ~w
abbrev pub and_bits : Bits → Bits → Bits
and_bits v w i = v i && w i

abbrev pub or_bits : Bits → Bits → Bits
or_bits v w i = v i || w i

abbrev pub and_not_bits : Bits → Bits → Bits
and_not_bits v w i = v i && not (w i)

-- Is one of the bits below `n` set? `any_bit 32 w` is the test `w != 0`.
unfoldable pub any_bit : ℕ → Bits → Bool
any_bit zero w = false
any_bit (suc n) w = w n || any_bit n w

pub any_bit_of : (n : ℕ) (w : Bits) (i : ℕ) → i < n → w i ≡ true → any_bit n w ≡ true
unfolding any_bit
any_bit_of zero w i h e = elim h [ ]
any_bit_of (suc n) w i h e = ground (arith, any_bit_of n w i)

pub any_bit-false : (n : ℕ) (w : Bits) (i : ℕ) → i < n → any_bit n w ≡ false → w i ≡ false
unfolding any_bit
any_bit-false zero w i h e = elim h [ ]
any_bit-false (suc n) w i h e = ground (arith, any_bit-false n w i)
