-- ===== src/Base/Tables.antt =====
-- Facts about bytes by evaluation over their finite range.
use Prim.Native.Nat.{ℕ, zero, suc, ◌+◌, ◌*◌, ◌/◌, ◌%◌, ◌<◌, bit_and, bit_or}
use mathlib.Core.Path.{◌≡◌, refl}
use mathlib.Core.Bool.{Bool, true, ◌&&◌}
use native.Mathlib.Omega.{arith}
use dmqtt.Base.Tests.{nat_beq, nat_beq_iff}

unfoldable pub all_below : ℕ → (ℕ → Bool) → Bool
all_below (suc k) test = all_below k test && test k
all_below zero test = true

pub all_below_sound : (test : ℕ → Bool) (k b : ℕ) → b < k → all_below k test ≡ true → test b ≡ true
unfolding all_below
all_below_sound test (suc k) b in_range checked = ground (arith, all_below_sound test k b)
all_below_sound test zero b in_range checked = absurd (omega arith)

low_bits_table : all_below 256 (λ b. nat_beq (bit_and b 0x7f) (b % 128)) ≡ true
unfolding all_below
low_bits_table = refl

pub low_bits : (b : ℕ) → b < 256 → bit_and b 0x7f ≡ b % 128
low_bits b h = (nat_beq_iff _ _).0 (all_below_sound _ 256 b h low_bits_table)

top_bit_table : all_below 256 (λ b. nat_beq (bit_and b 0x80) (b / 128 * 128)) ≡ true
unfolding all_below
top_bit_table = refl

pub top_bit : (b : ℕ) → b < 256 → bit_and b 0x80 ≡ b / 128 * 128
top_bit b h = (nat_beq_iff _ _).0 (all_below_sound _ 256 b h top_bit_table)

set_top_bit_table : all_below 128 (λ b. nat_beq (bit_or b 0x80) (b + 128)) ≡ true
unfolding all_below
set_top_bit_table = refl

pub set_top_bit : (b : ℕ) → b < 128 → bit_or b 0x80 ≡ b + 128
set_top_bit b h = (nat_beq_iff _ _).0 (all_below_sound _ 128 b h set_top_bit_table)
